-- ===== src/Driver/Capabilities/Order.antt =====
-- Driver.cpp: the list of nonExtensionOperandPerformance.
use nn_hal.Prelude.{ℕ, ◌≤◌, ◌≡◌, false, List, [], ◌∷◌, ltb, All, arith, refl, if-cases}
use nn_hal.Types.{OperandType}
use nn_hal.Driver.Capabilities.{
  PerformanceInfo, OperandPerformance, is_subgraph, insert, sort, performances,
  non_extension_operand_performance,
}

-- Each element is at most those that follow it.
unfoldable pub IsSorted : (OperandType → ℕ) → List OperandPerformance → Type 0
IsSorted number [] = Unit
IsSorted number (p ∷ ps) = All (λ q. number p.type ≤ number q.type) ps × IsSorted number ps

insert-All :
    (number : OperandType → ℕ) (P : OperandPerformance → Type 0) (p : OperandPerformance)
    (ps : List OperandPerformance)
    → P p
    → All P ps
    → All P (insert number p ps)
unfolding insert
insert-All number P p [] hp hs = (hp, tt)
insert-All number P p (q ∷ qs) hp (hq, hqs) =
    if-cases (All P) (ltb (number q.type) (number p.type)) (q ∷ insert number p qs) (p ∷ q ∷ qs)
      (λ e. (hq, insert-All number P p qs hp hqs)) (λ e. (hp, (hq, hqs)))

All-weaken :
    (P Q : OperandPerformance → Type 0)
    → ((q : OperandPerformance) → P q → Q q)
    → (ps : List OperandPerformance) → All P ps
    → All Q ps
All-weaken P Q f [] h = tt
All-weaken P Q f (p ∷ ps) (h, hs) = (f p h, All-weaken P Q f ps hs)

insert-IsSorted :
    (number : OperandType → ℕ) (p : OperandPerformance) (ps : List OperandPerformance)
    → IsSorted number ps
    → IsSorted number (insert number p ps)
unfolding insert IsSorted
insert-IsSorted number p [] h = (tt, tt)
insert-IsSorted number p (q ∷ qs) (hq, hqs) =
    if-cases (IsSorted number) (ltb (number q.type) (number p.type)) (q ∷ insert number p qs)
      (p ∷ q ∷ qs)
      (λ e. (
        insert-All number (λ x. number q.type ≤ number x.type) p qs (ground arith) hq,
        insert-IsSorted number p qs hqs,
      ))
      (λ e. (
        (
          ground arith,
          All-weaken (λ x. number q.type ≤ number x.type) (λ x. number p.type ≤ number x.type)
              (λ x hx. ground arith) qs hq,
        ),
        (hq, hqs),
      ))

sort-IsSorted :
    (number : OperandType → ℕ) (ps : List OperandPerformance) → IsSorted number (sort number ps)
unfolding sort IsSorted
sort-IsSorted number [] = tt
sort-IsSorted number (p ∷ ps) = insert-IsSorted number p (sort number ps) (sort-IsSorted number ps)

sort-All :
    (number : OperandType → ℕ) (P : OperandPerformance → Type 0) (ps : List OperandPerformance)
    → All P ps
    → All P (sort number ps)
unfolding sort
sort-All number P [] h = tt
sort-All number P (p ∷ ps) (hp, hps) =
    insert-All number P p (sort number ps) hp (sort-All number P ps hps)

-- An entry of the given performance, for a type that is not SUBGRAPH.
unfoldable pub IsEntry : PerformanceInfo → OperandPerformance → Type 0
IsEntry perf p = (p.info ≡ perf) × (is_subgraph p.type ≡ false)

performances-All :
    (number : OperandType → ℕ) (perf : PerformanceInfo) (range : List OperandType)
    → All (IsEntry perf) (performances number perf range)
unfolding performances IsEntry
performances-All number perf [] = tt
performances-All number perf (t ∷ ts) =
    if-cases (All (IsEntry perf)) (is_subgraph t) (performances number perf ts)
      (record { type = t; info = perf } ∷ performances number perf ts)
      (λ e. performances-All number perf ts) (λ e. ((refl, e), performances-All number perf ts))

-- The operand performances are listed in the order of the numbers of their types, SUBGRAPH is not
-- among them, and each has the given performance.
pub non_extension_operand_performance-IsSorted :
    (number : OperandType → ℕ) (range : List OperandType) (perf : PerformanceInfo)
    → IsSorted number (non_extension_operand_performance number range perf)
      × All (IsEntry perf) (non_extension_operand_performance number range perf)
unfolding non_extension_operand_performance
non_extension_operand_performance-IsSorted number range perf = (
  sort-IsSorted number (performances number perf range),
  sort-All number (IsEntry perf) (performances number perf range)
      (performances-All number perf range),
)
