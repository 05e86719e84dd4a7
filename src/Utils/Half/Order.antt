-- ===== src/Utils/Half/Order.antt =====
-- The order, the sign and the special values of float2half.
use nn_hal.Prelude.{ℕ, ◌+◌, ◌*◌, ◌/◌, ◌%◌, ◌^◌, ◌≤◌, ◌<◌, ◌≡◌, ◌↔◌, ◌∙◌, arith}
use nn_hal.Utils.Half.{float2half}
use nn_hal.Utils.Half.Magnitude.{
  magnitude, magnitude_mono, magnitude-le, magnitude_nan, magnitude_infinite, half_of_fields_sign,
}

abbrev exp_of : ℕ → ℕ
exp_of f = f / 2 ^ 23 % 2 ^ 8

pub float2half-magnitude :
    (f : ℕ) → f < 2 ^ 32 → float2half f ≡ f / 2 ^ 31 * 2 ^ 15 + magnitude (exp_of f) (f % 2 ^ 23)
unfolding float2half
float2half-magnitude f h =
    half_of_fields_sign (f / 2 ^ 31 % 2) (exp_of f) (f % 2 ^ 23) (omega arith) (omega arith)
      (omega arith)
    ∙ omega arith

-- With a clear sign bit only the magnitude is left.
pub float2half_unsigned : (f : ℕ) → f < 2 ^ 31 → float2half f ≡ magnitude (exp_of f) (f % 2 ^ 23)
float2half_unsigned f h = omega (arith, float2half-magnitude f (omega arith))

exp_of_negated : (f : ℕ) → f < 2 ^ 31 → exp_of (f + 2 ^ 31) ≡ exp_of f
exp_of_negated f h = omega arith

sig_negated : (f : ℕ) → (f + 2 ^ 31) % 2 ^ 23 ≡ f % 2 ^ 23
sig_negated f = omega arith

magnitude-lt : (f : ℕ) → f < 2 ^ 31 → magnitude (exp_of f) (f % 2 ^ 23) < 2 ^ 15
magnitude-lt f h = ground (arith, magnitude-le (exp_of f) (f % 2 ^ 23), magnitude_nan (f % 2 ^ 23))

-- float2half keeps the order of the non-negative floats that are no NaN, infinity included.
pub float2half_mono : (f g : ℕ) → f ≤ g → g ≤ 0x7f800000 → float2half f ≤ float2half g
float2half_mono f g h k =
    rw (float2half-magnitude f (omega arith), float2half-magnitude g (omega arith))
      (omega (
        arith,
        magnitude_mono (exp_of f) (f % 2 ^ 23) (exp_of g) (g % 2 ^ 23) (omega arith) (omega arith)
            (ground arith),
      ))

-- Setting the sign bit of a float sets the sign bit of its half and changes nothing else, and the
-- half of a float with a clear sign bit has a clear sign bit.
pub float2half_sign :
    (f : ℕ)
    → f < 2 ^ 31
    → (float2half (f + 2 ^ 31) ≡ float2half f + 2 ^ 15) × (float2half f < 2 ^ 15)
float2half_sign f h =
    rw
      (
        float2half-magnitude (f + 2 ^ 31) (omega arith),
        float2half_unsigned f h,
        exp_of_negated f h,
        sig_negated f,
      )
      (omega (arith, magnitude-lt f h))

-- A float with a clear sign bit becomes infinity from 65520 (0x477ff000) up to infinity itself, and
-- a NaN exactly if it is one.
pub float2half_special :
    (f : ℕ)
    → f < 2 ^ 31
    → ((float2half f ≡ 0x7c00) ↔ ((0x477ff000 ≤ f) × (f ≤ 0x7f800000)))
      × ((0x7c00 < float2half f) ↔ (0x7f800000 < f))
float2half_special f h = rw (float2half_unsigned f h) (
    ground (
      arith,
      magnitude_infinite (exp_of f) (f % 2 ^ 23),
      magnitude-le (exp_of f) (f % 2 ^ 23),
      magnitude_nan (f % 2 ^ 23),
    ))
