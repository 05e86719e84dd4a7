-- ===== src/Operations/Base/Validity.antt =====
-- OperationsBase.cpp: what the test of isValidInputTensor accepts.
use nn_hal.Prelude.{ℕ, zero, suc, ◌*◌, ◌^◌, ◌<◌, ◌≢◌, true, List, [], ◌∷◌, ◌≡◌, arith, All, ◌↔◌}
use native.Mathlib.Nat.{mod-eq_of_lt}
use nn_hal.Utils.Sizes.Products.{true_product, wrapping_product_lem}
use nn_hal.Operations.Base.{is_valid_dims}

mul-positive : (a b : ℕ) → (0 < a * b) ↔ ((0 < a) × (0 < b))
mul-positive zero b = ground arith
mul-positive (suc a) zero = ground arith
mul-positive (suc a) (suc b) = ground arith

product-positive : (dims : List ℕ) → (0 < true_product dims) ↔ All (λ d. 0 < d) dims
product-positive [] = ((λ h. tt), λ h. omega arith)
product-positive (d ∷ ds) = ground (arith, mul-positive d (true_product ds), product-positive ds)

-- Dimensions whose product fits a size_t are valid exactly where there are some and none is zero.
pub is_valid_dims_lem :
    (dims : List ℕ)
    → true_product dims < 2 ^ 64
    → (is_valid_dims dims ≡ true) ↔ ((dims ≢ []) × All (λ d. 0 < d) dims)
unfolding is_valid_dims
is_valid_dims_lem [] h = ground arith
is_valid_dims_lem (d ∷ ds) h =
    let wrapped = wrapping_product_lem (2 ^ 64) 1 (d ∷ ds) (omega arith) in
    let exact = mod-eq_of_lt h in
    let positive = product-positive (d ∷ ds) in
    (
      (λ e. ((λ n. ground arith), ground (arith, wrapped, exact, positive))),
      λ (n, a). ground (arith, wrapped, exact, positive),
    )
