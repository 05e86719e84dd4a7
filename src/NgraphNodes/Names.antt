-- ===== src/NgraphNodes/Names.antt =====
-- getNodeName and its cache.
use mathlib.Core.Path.{subst}
use nn_hal.Prelude.{
  ◌∙◌, Result, IsSublist, IsSublist-refl, ℕ, true, String, Option, none, some, ◌≡◌, refl, sym, ◌⊎◌,
  inl, inr, arith, ok, at, ◌>>=◌, >>=-eq-ok, Returns, ok-Returns, Ends, ok-Ends, after-Ends,
  Bool-cases, ◌==◌,
}
use nn_hal.Graph.{Ngraph}
use nn_hal.NgraphNodes.{
  NgraphNodes, get_node_name, known_or_made, get_operation_output, node_name, put_name,
}

name_lem :
    {r : Result (String × NgraphNodes)} {a b : String × NgraphNodes}
    → r ≡ ok a
    → r ≡ ok b
    → a.0 ≡ b.0
name_lem e e' = let same : ◌≡◌ {A = Result (String × NgraphNodes)} (ok _) (ok _) = sym e ∙ e' in cc

module _ (g : Ngraph) where
  -- getNodeName of the operand returns the name that it is called.
  abbrev pub IsNamed : (ℕ → String) → NgraphNodes → ℕ → Type 0
  IsNamed call s i = Returns (λ r. r.0 ≡ call i) (get_node_name g s i)

  known_or_made-Returns :
      (s t : NgraphNodes) (i : ℕ) (known : Option String) (called : String)
      → t.output_at_operand_index ≡ s.output_at_operand_index
      → Returns (λ r. r.0 ≡ called) (known_or_made g s i known)
      → Returns (λ r. r.0 ≡ called) (known_or_made g t i known)
  unfolding known_or_made get_operation_output
  known_or_made-Returns s t i (some name) called e h =
      let returned = h.returns in
      let held = h.holds in let same : name ≡ called = cc in ok-Returns _ same
  known_or_made-Returns s t i none called e h =
      let (n, en, e1) =
        >>=-eq-ok (at s.output_at_operand_index i)
          (λ n. node_name g n >>= λ name. ok (name, put_name s i name)) h.returns in
      let (name, em, e2) = >>=-eq-ok (node_name g n) (λ name. ok (name, put_name s i name)) e1 in
      let held = h.holds in let same : name ≡ called = cc in rw (e, en, em) (ok-Returns _ same)

  -- The state stays as it is, or gets the name that is returned.
  known_or_made-Ends :
      (s : NgraphNodes) (j : ℕ) (known : Option String)
      → Ends (λ r. (r.1 ≡ s) ⊎ (r.1 ≡ put_name s j r.0)) (known_or_made g s j known)
  unfolding known_or_made
  known_or_made-Ends s j (some name) = ok-Ends _ (inl refl)
  known_or_made-Ends s j none =
      after-Ends (get_operation_output s j)
        λ n _. after-Ends (node_name g n) λ name _. ok-Ends _ (inr refl)

  known_or_made-named :
      (s : NgraphNodes) (j : ℕ) (known : Option String)
      → s.node_names j ≡ known
      → Ends (λ r. r.1.node_names j ≡ some r.0) (known_or_made g s j known)
  unfolding known_or_made
  known_or_made-named s j (some name) e = ok-Ends _ e
  known_or_made-named s j none e =
      let same : (j == j) ≡ true = ground arith in
      after-Ends (get_operation_output s j)
        λ n _. after-Ends (node_name g n) λ name _. ok-Ends _ (rw same refl)

  -- The name that is returned is in the map from then on.
  pub get_node_name-named :
      (s : NgraphNodes) (j : ℕ) → Ends (λ r. r.1.node_names j ≡ some r.0) (get_node_name g s j)
  unfolding get_node_name
  get_node_name-named s j = known_or_made-named s j (s.node_names j) refl

  pub get_node_name-Ends :
      (s : NgraphNodes) (j : ℕ)
      → Ends (λ r. (r.1 ≡ s) ⊎ (r.1 ≡ put_name s j r.0)) (get_node_name g s j)
  unfolding get_node_name
  get_node_name-Ends s j = known_or_made-Ends s j (s.node_names j)

  -- A name that is asked for keeps those of the other operands within reach.
  pub get_node_name-IsNamed :
      (call : ℕ → String) (s s' : NgraphNodes) (i j : ℕ) (name : String)
      → get_node_name g s j ≡ ok (name, s')
      → IsNamed call s i
      → IsNamed call s' i
  unfolding get_node_name
  get_node_name-IsNamed call s s' i j name h named =
      elim ((get_node_name-Ends s j).at_end (name, s') h) [
        | inl e ↦ subst (λ t. IsNamed call t i) (sym e) named
        | inr e ↦
            subst (λ t. IsNamed call t i) (sym e)
              (elim (Bool-cases (j == i)) [
                | inl same ↦
                    (let ji : j ≡ i = ground arith in
                      let again : get_node_name g s i ≡ ok (name, s') =
                        subst (λ k. get_node_name g s k ≡ ok (name, s')) ji h in
                      let returned = named.returns in
                      let held = named.holds in
                      let called : name ≡ call i = name_lem again returned ∙ held in
                      rw same (ok-Returns _ called))
                | inr other ↦ rw other (
                    known_or_made-Returns s (put_name s j name) i (s.node_names i) (call i) refl
                      named)
              ])
      ]

  -- A name that is asked for leaves the outputs, the results and the parameters alone.
  pub get_node_name-outputs :
      (s : NgraphNodes) (j : ℕ)
      → Ends
          (λ r.
            (r.1.output_at_operand_index ≡ s.output_at_operand_index)
            × (r.1.result_nodes ≡ s.result_nodes)
            × IsSublist r.1.input_params s.input_params)
          (get_node_name g s j)
  get_node_name-outputs s j = record {
    at_end = λ r e. elim ((get_node_name-Ends s j).at_end r e) [
      | inl same ↦ rw same (refl, refl, IsSublist-refl s.input_params)
      | inr same ↦ rw same (refl, refl, IsSublist-refl s.input_params)
    ];
  }
