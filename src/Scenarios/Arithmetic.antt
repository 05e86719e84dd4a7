-- ===== src/Scenarios/Arithmetic.antt =====
-- Tests of the theorems on utils.cpp, on the paddings and on the orders.
use nn_hal.Prelude.{
  ◌*◌, ◌⊎◌, ℕ, ◌+◌, ◌*◌, ◌/◌, ◌%◌, ◌^◌, ◌-◌, ◌<◌, ◌≤◌, ◌≡◌, ◌≢◌, ◌↔◌, refl, arith, List, [], ◌∷◌,
  ok, true, All, some, fault, undefined, length, ◌++◌,
}
use nn_hal.Operations.Blocks.{counted_axis}
use nn_hal.Operations.Blocks.Axes.{counted_axis_lem}
use nn_hal.Prelude.Int.{pos, negsuc}
use nn_hal.Prelude.Floats.{
  binary32, float_mul, float_div, int_of_float, float_of_int, float_of_half,
}
use nn_hal.Operations.Slicing.{get_mask_bits, absolute}
use nn_hal.Operations.Slicing.Masks.{get_mask_bits_lem, value_of}
use nn_hal.Operations.Pooling.{signed}
use nn_hal.Operations.Shapes.{reshape_dims}
use nn_hal.Operations.Shapes.Stretch.{reshape_dims_lem}
use nn_hal.Utils.Half.{float2half, f16tof32}
use nn_hal.Utils.Half.RoundTrip.{float2half-f16tof32, flushed}
use nn_hal.Utils.Half.Order.{float2half_mono, float2half_sign, float2half_special}
use nn_hal.Utils.Half.Rounding.{f16tof32-float2half}
use nn_hal.Utils.Sizes.{size_of_data, element_size, get_number_of_elements, product}
use nn_hal.Utils.Sizes.Products.{size_of_data_wraps, true_product}
use nn_hal.Types.{OperandType}
use nn_hal.Operations.Padding.{calculate_explicit_padding}
use nn_hal.Operations.Padding.Same.{calculate_explicit_padding_same, out_size}
use nn_hal.Operations.Base.{ConversionType, transpose_order, is_valid_dims}
use nn_hal.Operations.Base.Orders.{transpose_order-inverse, permuted_twice, inverse}
use nn_hal.Operations.Base.Validity.{is_valid_dims_lem}
use nn_hal.Operations.Layout.{deinterleave}
use nn_hal.Operations.Layout.Paddings.{deinterleave-interleave, interleave}

-- 1.5 as a half
float2half-f16tof32_example : float2half (f16tof32 0x3e00) ≡ flushed 0x3e00
float2half-f16tof32_example = float2half-f16tof32 0x3e00 (omega arith)

float2half_mono_example : float2half 0x3f800000 ≤ float2half 0x40000000
float2half_mono_example = float2half_mono 0x3f800000 0x40000000 (omega arith) (omega arith)

float2half_sign_example :
    (float2half (0x3f800000 + 2 ^ 31) ≡ float2half 0x3f800000 + 2 ^ 15)
    × (float2half 0x3f800000 < 2 ^ 15)
float2half_sign_example = float2half_sign 0x3f800000 (omega arith)

float2half_special_example :
    ((float2half 0x477ff000 ≡ 0x7c00) ↔ ((0x477ff000 ≤ 0x477ff000) × (0x477ff000 ≤ 0x7f800000)))
    × ((0x7c00 < float2half 0x477ff000) ↔ (0x7f800000 < 0x477ff000))
float2half_special_example = float2half_special 0x477ff000 (omega arith)

f16tof32-float2half_example :
    (f16tof32 (float2half 0x3f8ccccd) ≤ 0x3f8ccccd + 2 ^ 12)
    × (0x3f8ccccd ≤ f16tof32 (float2half 0x3f8ccccd) + 2 ^ 12)
f16tof32-float2half_example = f16tof32-float2half 0x3f8ccccd (omega arith) (omega arith)

size_of_data_wraps_example :
    (size_of_data OperandType.tensor_float32 (2 ∷ 3 ∷ [])
      ≡ element_size OperandType.tensor_float32 * true_product (2 ∷ 3 ∷ []) % 2 ^ 32)
    × (get_number_of_elements (2 ∷ 3 ∷ []) ≡ true_product (2 ∷ 3 ∷ []) % 2 ^ 32)
    × (product (2 ∷ 3 ∷ []) ≡ true_product (2 ∷ 3 ∷ []) % 2 ^ 64)
size_of_data_wraps_example = size_of_data_wraps OperandType.tensor_float32 (2 ∷ 3 ∷ [])

calculate_explicit_padding_same_example :
    (head : ℕ) × (tail : ℕ) × (calculate_explicit_padding (pos 7) (pos 2) (pos 3) 1
      ≡ ok (pos head, pos tail))
    × (head ≤ tail)
    × (tail ≤ head + 1)
    × (head + tail ≡ (out_size 7 2 - 1) * 2 + 3 - 7)
    × ((7 + head + tail - 3) / 2 + 1 ≡ out_size 7 2)
calculate_explicit_padding_same_example =
    calculate_explicit_padding_same 7 2 3 (omega arith) (omega arith) (omega arith) (omega arith)
      (omega arith)

transpose_order-inverse_example :
    permuted_twice
      (transpose_order ConversionType.nhc_nch)
      (transpose_order ConversionType.nch_nhc)
      (1 ∷ 8 ∷ 9 ∷ [])
    ≡ ok (1 ∷ 9 ∷ 8 ∷ [])
unfolding inverse transpose_order
transpose_order-inverse_example =
    transpose_order-inverse ConversionType.nhc_nch ConversionType.nch_nhc (1 ∷ 8 ∷ 9 ∷ []) refl refl

is_valid_dims_lem_example :
    (is_valid_dims (2 ∷ 3 ∷ []) ≡ true)
    ↔ ((◌≢◌ {A = List ℕ} (2 ∷ 3 ∷ []) []) × All (λ d. 0 < d) (2 ∷ 3 ∷ []))
is_valid_dims_lem_example = is_valid_dims_lem (2 ∷ 3 ∷ []) (omega arith)

deinterleave-interleave_example :
    deinterleave (interleave (1 ∷ 2 ∷ []) (3 ∷ 4 ∷ [])) ≡ (1 ∷ 2 ∷ [], 3 ∷ 4 ∷ [])
deinterleave-interleave_example = deinterleave-interleave (1 ∷ 2 ∷ []) (3 ∷ 4 ∷ []) refl

counted_axis_lem_example :
    (counted_axis 3 4294967294 < 3)
    × (((4294967294 < 2 ^ 31) × (counted_axis 3 4294967294 ≡ 4294967294))
        ⊎ ((2 ^ 31 ≤ 4294967294) × (counted_axis 3 4294967294 + 2 ^ 32 ≡ 4294967294 + 3)))
counted_axis_lem_example = counted_axis_lem 3 4294967294 (omega arith) (omega arith) refl

-- 3.0f * 2.5f, 1.0f / 3.0f, (int)-2.75f, (float)16777217, 1.0 / 3.0 as a float
floats_agree :
    (float_mul binary32 0x40400000 0x40200000 ≡ 0x40f00000)
    × (float_div binary32 0x3f800000 0x40400000 ≡ 0x3eaaaaab)
    × (int_of_float binary32 0xc0300000 ≡ some (negsuc 1))
    × (float_of_int binary32 (pos 16777217) ≡ 0x4b800000)
    × (float_of_half 0x3555 ≡ 0x3eaaa000)
unfolding float_mul float_div int_of_float float_of_int float_of_half
floats_agree = (refl, refl, refl, refl, refl)

-- the mask of the first and the third dimension
get_mask_bits_lem_example :
    (absolute (signed 5) < 2 ^ 3
      → (bits : List ℕ) × (get_mask_bits 5 3 ≡ ok bits)
        × (length bits ≡ 3)
        × (value_of bits ≡ absolute (signed 5)))
    × (2 ^ 3 ≤ absolute (signed 5) → get_mask_bits 5 3 ≡ fault undefined)
get_mask_bits_lem_example = get_mask_bits_lem 5 3

-- {4, 6} reshaped to {2, -1, 3}
reshape_dims_lem_example :
    (reshape_dims (4 ∷ 6 ∷ []) ((2 ∷ []) ++ 4294967295 ∷ 3 ∷ []) ≡ ok ((2 ∷ []) ++ 4 ∷ 3 ∷ []))
    × (true_product ((2 ∷ []) ++ 4 ∷ 3 ∷ []) ≡ true_product (4 ∷ 6 ∷ []))
reshape_dims_lem_example =
    reshape_dims_lem (4 ∷ 6 ∷ []) (2 ∷ []) (3 ∷ []) 4294967295 4 (omega arith, tt) (omega arith, tt)
      (omega arith) (omega arith) (omega arith) refl (omega arith)
