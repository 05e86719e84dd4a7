-- ===== src/Utils/Sizes.antt =====
-- utils.cpp: products of dimensions, in the machine's widths. An `int` is its bit pattern.
pub mod Products
use nn_hal.Prelude.{
  ℕ, zero, suc, ◌+◌, ◌*◌, ◌%◌, ◌^◌, ◌<◌, ◌≡◌, refl, arith, List, [], ◌∷◌, ◌>>=◌, ok, Result, at,
  length, drop,
}
use nn_hal.Types.{OperandType}

-- One factor after the other, wrapping at the modulus: `for (auto d : dims) size *= d;`
abbrev pub wrapping_product : ℕ → ℕ → List ℕ → ℕ
wrapping_product modulus size [] = size
wrapping_product modulus size (d ∷ ds) = wrapping_product modulus (size * d % modulus) ds

pub get_number_of_elements : List ℕ → ℕ
get_number_of_elements dims = wrapping_product (2 ^ 32) 1 dims

-- getSizeFromInts; the arguments are patterns of `int`
pub get_size_from_ints : ℕ → ℕ → ℕ
get_size_from_ints lower higher = (lower + higher * 2 ^ 32) % 2 ^ 64

pub product : List ℕ → ℕ
product dims = wrapping_product (2 ^ 64) 1 dims

-- TensorDims are `size_t`, so every `uint32_t` is kept.
pub to_dims : List ℕ → List ℕ
to_dims [] = []
to_dims (d ∷ ds) = d ∷ to_dims ds

-- permuteDims: `i` runs up to src.size(), and `src[order[i]]` is undefined out of range.
unfoldable pub permute_from : List ℕ → List ℕ → ℕ → ℕ → Result (List ℕ)
permute_from src order i zero = ok []
permute_from src order i (suc n) = do
  o ← at order i
  d ← at src o
  rest ← permute_from src order (suc i) n
  ok (d ∷ rest)

unfoldable pub permute_dims : List ℕ → List ℕ → Result (List ℕ)
unfolding permute_from
permute_dims src order = permute_from src order 0 (length src)

-- sizeOfTensor reads dims[0] first
pub size_of_tensor : List ℕ → Result ℕ
size_of_tensor dims = do first ← at dims 0; ok (wrapping_product (2 ^ 64) first (drop 1 dims))

-- the bytes of an element, by the switch of sizeOfData
abbrev pub element_size : OperandType → ℕ
element_size OperandType.float32 = 4
element_size OperandType.tensor_float32 = 4
element_size OperandType.tensor_int32 = 4
element_size OperandType.int32 = 4
element_size OperandType.tensor_quant8_asymm = 1
element_size OperandType.tensor_quant8_symm = 1
element_size OperandType.tensor_quant8_symm_per_channel = 1
element_size OperandType.tensor_quant8_asymm_signed = 1
element_size OperandType.tensor_bool8 = 1
element_size OperandType.tensor_float16 = 2
element_size OperandType.tensor_quant16_symm = 2
element_size OperandType.tensor_quant16_asymm = 2
element_size OperandType.float16 = 2
element_size other_type = 0

pub size_of_data : OperandType → List ℕ → ℕ
size_of_data type dims = wrapping_product (2 ^ 32) (element_size type) dims
