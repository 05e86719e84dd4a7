-- ===== src/Prelude/Floats/Rounds.antt =====
-- The number of rounds of the search for the exponent of a rounded value.
use Prim.Native.Nat.{ℕ, zero, suc, ◌+◌, ◌*◌, ◌/◌, ◌^◌, ◌≤◌}
use mathlib.Core.Path.{◌≡◌, refl, sym, ◌∙◌}
use nn_hal.Prelude.{arith, ◌⊎◌, inl, inr, Bool-cases}
use nn_hal.Prelude.Tests.{ltb, if◌then◌else◌}
use nn_hal.Prelude.Floats.{
  Format, binary16, binary32, binary64, infinity, nearest, exponent_from, round_ratio,
}

exponent_from-above : (rounds : ℕ) (f : Format) (n d k : ℕ) → k ≤ exponent_from rounds f n d k
unfolding exponent_from
exponent_from-above zero f n d k = omega arith
exponent_from-above (suc rounds) f n d k =
    elim (Bool-cases (ltb (n / (d * 2 ^ k)) (2 ^ (f.fraction + 1)))) [
      | inl found ↦ rw (found, exponent_from) (omega arith)
      | inr beyond ↦
          rw (beyond, exponent_from) (omega (arith, exponent_from-above rounds f n d (k + 1)))
    ]

-- With more rounds the search ends at the same place, or it went on for all its rounds.
exponent_from_more :
    (rounds more : ℕ) (f : Format) (n d k : ℕ)
    → rounds ≤ more
    → (exponent_from more f n d k ≡ exponent_from rounds f n d k)
      ⊎ ((k + rounds ≤ exponent_from rounds f n d k) × (k + rounds ≤ exponent_from more f n d k))
unfolding exponent_from
exponent_from_more zero more f n d k h =
    inr (omega arith, omega (arith, exponent_from-above more f n d k))
exponent_from_more (suc rounds) zero f n d k h = absurd (omega arith)
exponent_from_more (suc rounds) (suc more) f n d k h =
    elim (Bool-cases (ltb (n / (d * 2 ^ k)) (2 ^ (f.fraction + 1)))) [
      | inl found ↦ inl (rw (found, exponent_from) refl)
      | inr beyond ↦ elim (exponent_from_more rounds more f n d (k + 1) (omega arith)) [
        | inl same ↦ inl (rw (beyond, exponent_from) same)
        | inr (here, there) ↦
            inr (rw (beyond, exponent_from) (omega arith), rw (beyond, exponent_from) (omega arith))
      ]
    ]

-- The pattern that `round_ratio` makes of the exponent that was found.
abbrev pattern_at : Format → ℕ → ℕ → ℕ → ℕ
pattern_at f n d k =
    let x = k * 2 ^ f.fraction + nearest n (d * 2 ^ k) in
    if ltb x (infinity f) then x else infinity f

-- What stands for infinity is reached by the exponent alone.
abbrev Saturates : Format → Type 0
Saturates f = (k : ℕ) → 2 * f.least ≤ k → infinity f ≤ k * 2 ^ f.fraction

clamp : (x i : ℕ) → i ≤ x → (if ltb x i then x else i) ≡ i
clamp x i h = ground arith

saturated :
    (f : Format) → Saturates f → (n d k : ℕ) → 2 * f.least ≤ k → pattern_at f n d k ≡ infinity f
saturated f enough n d k h = clamp _ (infinity f) (omega (arith, enough k h))

round_ratio_more_of :
    (f : Format)
    → Saturates f
    → (n d more : ℕ) → 2 * f.least ≤ more
    → pattern_at f n d (exponent_from more f n d 0) ≡ round_ratio f n d
unfolding round_ratio
round_ratio_more_of f enough n d more h = elim (exponent_from_more (2 * f.least) more f n d 0 h) [
  | inl same ↦ rw same refl
  | inr (here, there) ↦
      saturated f enough n d _ (omega arith) ∙ sym (saturated f enough n d _ (omega arith))
]

-- The rounds that `round_ratio` gives the search are enough for each format.
round_ratio_more :
    (n d more : ℕ)
    → (48 ≤ more
        → pattern_at binary16 n d (exponent_from more binary16 n d 0) ≡ round_ratio binary16 n d)
      × (298 ≤ more
          → pattern_at binary32 n d (exponent_from more binary32 n d 0) ≡ round_ratio binary32 n d)
      × (2148 ≤ more
          → pattern_at binary64 n d (exponent_from more binary64 n d 0) ≡ round_ratio binary64 n d)
round_ratio_more n d more = (
  round_ratio_more_of binary16 (λ k h. omega arith) n d more,
  round_ratio_more_of binary32 (λ k h. omega arith) n d more,
  round_ratio_more_of binary64 (λ k h. omega arith) n d more,
)
