-- ===== src/Operations/Shapes/Stretch.antt =====
-- ngraph_creator/operations/src/Reshape.cpp: the dimension that is stretched.
use nn_hal.Prelude.{
  ℕ, true, false, suc, ◌+◌, ◌*◌, ◌^◌, ◌≡◌, ◌≤◌, ◌<◌, refl, List, [], ◌∷◌, ◌++◌, ok, length, arith,
  leb, inl, inr, All, Option, none, some, set, ap, sym, ◌∙◌, ◌>>=◌ as then_result, Result-cases,
  zero,
}
use native.Mathlib.Nat.{
  mul_assoc, mul_comm, le-mul_of_pos_right, mul-div_cancel, mod-eq_of_lt, zero-add, one-mul,
}
use nn_hal.Prelude.Int.{pos}
use nn_hal.Utils.Sizes.{get_number_of_elements}
use nn_hal.Utils.Sizes.Products.{true_product, size_of_data_wraps}
use nn_hal.Operations.Shapes.{Stretch, stretch_step, stretch_from, stretched, reshape_dims}
use nn_hal.Types.{OperandType}
use nn_hal.Operations.Padding.{divide}
use nn_hal.Operations.Padding.Same.{divide_pos}
use nn_hal.Operations.Pooling.{signed}

abbrev pub IsDimension : ℕ → Type 0
IsDimension d = d < 2 ^ 31

fits : (c d p : ℕ) → 0 < c * (d * p) → c * (d * p) < 2 ^ 31 → (c * d < 2 ^ 31) × (0 < c * d * p)
fits c d zero positive h = absurd (grind arith)
fits c d (suc p) positive h =
    let e : c * (d * suc p) ≡ c * d * suc p = sym (mul_assoc c d (suc p)) in
    let le : c * d ≤ c * d * suc p = le-mul_of_pos_right {m = suc p} (c * d) (omega arith) in
    (omega (arith, e, le), omega (arith, e))

-- Over dimensions that are not negative, and whose product fits an int, the loop multiplies.
stretch_from-dimensions :
    (i : ℕ) (ds : List ℕ) (found : Option ℕ) (c : ℕ)
    → All IsDimension ds
    → 0 < c * true_product ds
    → c * true_product ds < 2 ^ 31
    → stretch_from i ds (found, c) ≡ ok (found, c * true_product ds)
unfolding stretch_from
stretch_from-dimensions i [] found c a p h = ground arith
stretch_from-dimensions i (d ∷ ds) found c a p h =
    let (small, positive) = fits c d (true_product ds) p h in
    ground
      (arith, stretch_from-dimensions (suc i) ds found (c * d), mul_assoc c d (true_product ds))

stretch_from-append :
    (i : ℕ) (xs ys : List ℕ) (found : Stretch)
    → stretch_from i (xs ++ ys) found
      ≡ then_result (stretch_from i xs found) (λ next. stretch_from (i + length xs) ys next)
unfolding stretch_from
stretch_from-append i [] ys found =
    let e : i ≡ i + 0 = omega arith in ap (λ j. stretch_from j ys found) e
stretch_from-append i (x ∷ xs) ys found = elim (Result-cases (stretch_step i x found)) [
  | inl (next, e) ↦
      let j : suc i + length xs ≡ i + suc (length xs) = omega arith in
      rw (e, stretch_from-append (suc i) xs ys next, j) refl
  | inr (why, e) ↦ rw e refl
]

set-append : (xs ys : List ℕ) (d k : ℕ) → set (xs ++ d ∷ ys) (length xs) k ≡ xs ++ k ∷ ys
set-append [] ys d k = refl
set-append (x ∷ xs) ys d k = ap (λ t. x ∷ t) (set-append xs ys d k)

true_product-append : (xs ys : List ℕ) → true_product (xs ++ ys) ≡ true_product xs * true_product ys
true_product-append [] ys = omega arith
true_product-append (x ∷ xs) ys =
    grind (arith, true_product-append xs ys, mul_assoc x (true_product xs) (true_product ys))

-- The loop over dimensions of which one is negative: its place, and the product of the others.
stretch_from-place :
    (before after : List ℕ) (d : ℕ)
    → All IsDimension before
    → All IsDimension after
    → 2 ^ 31 ≤ d
    → 0 < true_product before * true_product after
    → true_product before * true_product after < 2 ^ 31
    → stretch_from 0 (before ++ d ∷ after) (none, 1)
      ≡ ok (some (length before), true_product before * true_product after)
unfolding stretch_from
stretch_from-place before after d hb ha hd positive small =
    let (whole, first) =
      fits 1 (true_product before) (true_product after) (omega arith) (omega arith) in
    let negative : leb (2 ^ 31) d ≡ true = ground arith in
    rw
      (
        stretch_from-append 0 before (d ∷ after) (none, 1),
        stretch_from-dimensions 0 before none 1 hb (grind arith) (omega (arith, whole)),
      )
      (rw (negative, zero-add (length before), one-mul (true_product before))
        (stretch_from-dimensions (suc (length before)) after (some (length before))
          (true_product before) ha positive small))

regroup : (b k a : ℕ) → b * (k * a) ≡ k * (b * a)
regroup b k a = sym (mul_assoc b k a) ∙ ap (λ (t : ℕ). t * a) (mul_comm b k) ∙ mul_assoc k b a

divide_exact : (k p : ℕ) → 0 < p → k * p < 2 ^ 31 → divide (signed (k * p)) (pos p) ≡ ok (pos k)
divide_exact k p positive h =
    let small : leb (2 ^ 31) (k * p) ≡ false = ground arith in
    rw (small, divide_pos (k * p) p positive h, mul-div_cancel k positive) refl

-- With one negative dimension, the others being positive and their product dividing the number of
-- the input's elements, Reshape puts the quotient in its place: the dimensions then have as many
-- elements as the input.
pub reshape_dims_lem :
    (in_dims before after : List ℕ) (d k : ℕ)
    → All IsDimension before
    → All IsDimension after
    → 2 ^ 31 ≤ d
    → 0 < true_product before * true_product after
    → true_product before * true_product after < 2 ^ 31
    → true_product in_dims ≡ k * (true_product before * true_product after)
    → true_product in_dims < 2 ^ 31
    → (reshape_dims in_dims (before ++ d ∷ after) ≡ ok (before ++ k ∷ after))
      × (true_product (before ++ k ∷ after) ≡ true_product in_dims)
unfolding reshape_dims stretched
reshape_dims_lem in_dims before after d k hb ha hd positive small e fits_int =
    let p = true_product before * true_product after in
    let elements : get_number_of_elements in_dims ≡ k * p =
      (size_of_data_wraps OperandType.int32 in_dims).1 ∙ mod-eq_of_lt (omega arith) ∙ e in
    (
      rw (stretch_from-place before after d hb ha hd positive small, elements)
          (rw (divide_exact k p positive (omega (arith, e))) (ap ok (set-append before after d k))),
      true_product-append before (k ∷ after)
          ∙ (regroup (true_product before) k (true_product after) ∙ sym e),
    )
