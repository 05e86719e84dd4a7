-- ===== src/Operations/Slicing/Masks.antt =====
-- ngraph_creator/operations/src/StridedSlice.cpp: getMaskBits.
use nn_hal.Prelude.{
  ℕ, zero, suc, ◌+◌, ◌*◌, ◌/◌, ◌%◌, ◌^◌, ◌≡◌, ◌≤◌, ◌<◌, refl, List, [], ◌∷◌, ok, fault, undefined,
  length, arith, ◌==◌, if◌then◌else◌,
}
use nn_hal.Operations.Slicing.{mask_bits_from, get_mask_bits, absolute}
use nn_hal.Operations.Pooling.{signed}

-- the number that bits stand for, the least significant first
abbrev pub value_of : List ℕ → ℕ
value_of [] = 0
value_of (bit ∷ bits) = bit + 2 * value_of bits

pub mask_bits_from_lem :
    (size value : ℕ)
    → value < 2 ^ size
    → (bits : List ℕ) × (mask_bits_from size value ≡ ok bits)
      × (length bits ≡ size)
      × (value_of bits ≡ value)
unfolding mask_bits_from
mask_bits_from_lem zero value h = let e : value ≡ 0 = omega arith in rw e ([], refl, refl, refl)
mask_bits_from_lem (suc size) value h =
    let (bits, e, l, v) = mask_bits_from_lem size (value / 2) (omega arith) in
    ((if value % 2 == 0 then 0 else 1) ∷ bits, rw e refl, omega (arith, l), ground (arith, v))

pub mask_bits_from_overflow :
    (size value : ℕ) → 2 ^ size ≤ value → mask_bits_from size value ≡ fault undefined
unfolding mask_bits_from
mask_bits_from_overflow zero value h = ground arith
mask_bits_from_overflow (suc size) value h =
    rw (mask_bits_from_overflow size (value / 2) (omega arith)) refl

-- The bits of a mask are as many as the dimensions and stand for its magnitude, the least significant
-- first, if the magnitude fits them; else getMaskBits writes out of range, which is undefined.
pub get_mask_bits_lem :
    (mask rank : ℕ)
    → (absolute (signed mask) < 2 ^ rank
        → (bits : List ℕ) × (get_mask_bits mask rank ≡ ok bits)
          × (length bits ≡ rank)
          × (value_of bits ≡ absolute (signed mask)))
      × (2 ^ rank ≤ absolute (signed mask) → get_mask_bits mask rank ≡ fault undefined)
unfolding get_mask_bits
get_mask_bits_lem mask rank = (
  mask_bits_from_lem rank (absolute (signed mask)),
  mask_bits_from_overflow rank (absolute (signed mask)),
)
