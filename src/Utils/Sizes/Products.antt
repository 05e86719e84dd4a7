-- ===== src/Utils/Sizes/Products.antt =====
-- utils.cpp: the wrapped products against the true products.
use native.Mathlib.Nat.{
  mod-eq_of_lt, mod-lt, div-add-mod, mul-add-mod_self_left, mul-one, mul_assoc,
}
use nn_hal.Prelude.{ℕ, ◌*◌, ◌/◌, ◌%◌, ◌^◌, ◌<◌, ◌≤◌, ◌≡◌, sym, ap, ◌∙◌, arith, List, [], ◌∷◌}
use nn_hal.Types.{OperandType}
use nn_hal.Utils.Sizes.{
  wrapping_product, size_of_data, element_size, get_number_of_elements, product,
}

-- The product without a machine word.
abbrev pub true_product : List ℕ → ℕ
true_product [] = 1
true_product (d ∷ ds) = d * true_product ds

mod-mul : (a b m : ℕ) → a % m * b % m ≡ a * b % m
mod-mul a b m =
    sym (mul-add-mod_self_left m (a / m * b) (a % m * b))
    ∙ ap (λ (t : ℕ). t % m) (omega (arith, ap (λ (t : ℕ). t * b) (div-add-mod a m)))

pub wrapping_product_lem :
    (modulus size : ℕ) (dims : List ℕ)
    → size < modulus
    → wrapping_product modulus size dims ≡ size * true_product dims % modulus
wrapping_product_lem modulus size [] h = rw (mul-one size) (sym (mod-eq_of_lt h))
wrapping_product_lem modulus size (d ∷ ds) h =
    wrapping_product_lem modulus (size * d % modulus) ds (mod-lt (size * d) (omega arith))
    ∙ mod-mul (size * d) (true_product ds) modulus
    ∙ ap (λ (t : ℕ). t % modulus) (mul_assoc size d (true_product ds))

element_size-le : (type : OperandType) → element_size type ≤ 4
element_size-le OperandType.float32 = omega arith
element_size-le _ = omega arith

-- Each of the products wraps exactly at its width, whatever the order in which it wraps:
-- sizeOfData is the element's size times the true product of the dimensions modulo 2 ^ 32,
-- getNumberOfElements the true product modulo 2 ^ 32, product that modulo 2 ^ 64.
pub size_of_data_wraps :
    (type : OperandType) (dims : List ℕ)
    → (size_of_data type dims ≡ element_size type * true_product dims % 2 ^ 32)
      × (get_number_of_elements dims ≡ true_product dims % 2 ^ 32)
      × (product dims ≡ true_product dims % 2 ^ 64)
unfolding size_of_data get_number_of_elements product
size_of_data_wraps type dims = (
  wrapping_product_lem (2 ^ 32) (element_size type) dims (omega (arith, element_size-le type)),
  wrapping_product_lem (2 ^ 32) 1 dims (omega arith) ∙ ap (λ (t : ℕ). t % 2 ^ 32) (omega arith),
  wrapping_product_lem (2 ^ 64) 1 dims (omega arith) ∙ ap (λ (t : ℕ). t % 2 ^ 64) (omega arith),
)
