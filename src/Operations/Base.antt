-- ===== src/Operations/Base.antt =====
-- ngraph_creator/operations/src/OperationsBase.cpp and OperationsBase.hpp: what every operation
-- shares. A string or a log line is left out.
pub mod Orders
pub mod Frame
pub mod Validity
use nn_hal.Prelude.{
  ℕ, zero, suc, ◌+◌, ◌-◌, ◌*◌, ◌%◌, ◌^◌, Bool, true, false, not, ◌&&◌, ◌||◌, List, [], ◌∷◌, Option,
  none, some, fault, exception, undefined, Result, ok, length, replicate, ltb, ◌==◌, if◌then◌else◌,
}
use nn_hal.Prelude.Int.{ℤ, pos, negsuc}
use nn_hal.Types.{OperandType, OperandLifeTime}
use nn_hal.Utils.Sizes.{wrapping_product}
use nn_hal.ModelInfo.Model.{Operand, ChannelQuant}
use nn_hal.ModelInfo.Memory.{is_const_lifetime}
use nn_hal.Graph.{Node, no_node, parameter, constant, call, output, ElementType, Op}
use nn_hal.Graph.ElementType.{f32, f16, i8, u8, i16, u16, i32, i64, boolean}
use nn_hal.NgraphNodes as N
use nn_hal.Build.{
  Build, ◌>>=◌, ◌>>◌, pure, asks, fails, operation_input, operation_output, operand, is_const,
  const_vec, make, make_const, element_type_of, get_operation_output, set_output, add_result_node,
}

pub data ConversionType : Type 0 where
  nhwc_nchw nchw_nhwc ihwo_oihw ohwi_oihw nhwc_cwhn cwhn_nhwc nhc_nch nch_nhc cnh_nhc nch_hnc :
      ConversionType
  hnc_nch nhc_cnh bts_tbs nhcw_nhwc nc_cn : ConversionType

-- the order of transpose; nch_hnc and hnc_nch take the `default`, which leaves it empty
unfoldable pub transpose_order : ConversionType → List ℕ
transpose_order ConversionType.nhwc_nchw = 0 ∷ 3 ∷ 1 ∷ 2 ∷ []
transpose_order ConversionType.nchw_nhwc = 0 ∷ 2 ∷ 3 ∷ 1 ∷ []
transpose_order ConversionType.ihwo_oihw = 3 ∷ 0 ∷ 1 ∷ 2 ∷ []
transpose_order ConversionType.ohwi_oihw = 0 ∷ 3 ∷ 1 ∷ 2 ∷ []
transpose_order ConversionType.nhwc_cwhn = 3 ∷ 2 ∷ 1 ∷ 0 ∷ []
transpose_order ConversionType.cwhn_nhwc = 3 ∷ 2 ∷ 1 ∷ 0 ∷ []
transpose_order ConversionType.nhc_nch = 0 ∷ 2 ∷ 1 ∷ []
transpose_order ConversionType.nch_nhc = 0 ∷ 1 ∷ 2 ∷ []
transpose_order ConversionType.cnh_nhc = 1 ∷ 2 ∷ 0 ∷ []
transpose_order ConversionType.nhc_cnh = 2 ∷ 0 ∷ 1 ∷ []
transpose_order ConversionType.bts_tbs = 1 ∷ 0 ∷ 2 ∷ []
transpose_order ConversionType.nhcw_nhwc = 0 ∷ 1 ∷ 3 ∷ 2 ∷ []
transpose_order ConversionType.nc_cn = 1 ∷ 0 ∷ []
transpose_order type = []

pub transpose : ConversionType → Node → Build Node
transpose type input = do
  order_node ← make_const i64 (length (transpose_order type) ∷ []) (transpose_order type)
  make Op.transpose (input ∷ order_node ∷ [])

abbrev pub eq_type : OperandType → OperandType → Bool
eq_type OperandType.tensor_float32 OperandType.tensor_float32 = true
eq_type OperandType.tensor_float16 OperandType.tensor_float16 = true
eq_type OperandType.tensor_int32 OperandType.tensor_int32 = true
eq_type OperandType.bool OperandType.bool = true
eq_type OperandType.float32 OperandType.float32 = true
eq_type OperandType.float16 OperandType.float16 = true
eq_type OperandType.int32 OperandType.int32 = true
eq_type OperandType.tensor_quant8_asymm OperandType.tensor_quant8_asymm = true
eq_type OperandType.tensor_quant8_asymm_signed OperandType.tensor_quant8_asymm_signed = true
eq_type OperandType.tensor_quant8_symm OperandType.tensor_quant8_symm = true
eq_type OperandType.tensor_quant16_asymm OperandType.tensor_quant16_asymm = true
eq_type OperandType.tensor_quant16_symm OperandType.tensor_quant16_symm = true
eq_type OperandType.tensor_quant8_symm_per_channel OperandType.tensor_quant8_symm_per_channel = true
eq_type a b = false

-- checkInputOperandType and checkOutputOperandType
pub check_input_operand_type : ℕ → OperandType → Build Bool
check_input_operand_type index expected = do
  i ← operation_input index
  op ← operand i
  pure (eq_type op.type expected)

pub check_output_operand_type : ℕ → OperandType → Build Bool
check_output_operand_type index expected = do
  i ← operation_output index
  op ← operand i
  pure (eq_type op.type expected)

pub get_input_operand_dimensions : ℕ → Build (List ℕ)
get_input_operand_dimensions index = do
  i ← operation_input index
  op ← operand i
  pure op.dimensions

-- `size` is a size_t
unfoldable pub is_valid_dims : List ℕ → Bool
is_valid_dims [] = false
is_valid_dims (d ∷ ds) = not (wrapping_product (2 ^ 64) 1 (d ∷ ds) == 0)

pub is_valid_input_tensor : ℕ → Build Bool
unfolding get_input_operand_dimensions is_valid_dims
is_valid_input_tensor index = do
  dims ← get_input_operand_dimensions index
  pure (is_valid_dims dims)

pub is_zero_sized_input : ℕ → Build Bool
unfolding get_input_operand_dimensions
is_zero_sized_input index = do
  dims ← get_input_operand_dimensions index
  pure (elim dims [ [] ↦ true | d ∷ ds ↦ d == 0 ])

-- `if (type != f32) input = Convert(input, f32)`
abbrev pub to_f32 : Node → Build Node
to_f32 input = do
  t ← element_type_of input
  elim t [ f32 ↦ pure input | _ ↦ make (Op.convert f32) (input ∷ []) ]

-- the bounds of the clamp in QuantizeNode; without one `data` is null and is dereferenced
abbrev pub quantized_range : OperandType → Option (ℤ × ℤ)
quantized_range OperandType.tensor_quant8_asymm = some (pos 0, pos 255)
quantized_range OperandType.tensor_quant8_symm = some (negsuc 127, pos 127)
quantized_range OperandType.tensor_quant8_asymm_signed = some (negsuc 127, pos 127)
quantized_range OperandType.tensor_quant16_symm = some (negsuc 32767, pos 32767)
quantized_range OperandType.tensor_quant16_asymm = some (pos 0, pos 65535)
quantized_range type = none

abbrev pub eq_element : ElementType → ElementType → Bool
eq_element u8 u8 = true
eq_element i8 i8 = true
eq_element u16 u16 = true
eq_element i16 i16 = true
eq_element i32 i32 = true
eq_element f32 f32 = true
eq_element f16 f16 = true
eq_element a b = false

clamp_to : Option (ℤ × ℤ) → Node → Build Node
clamp_to none sum = fails undefined
clamp_to (some (lo, hi)) sum = make (Op.clamp lo hi) (sum ∷ [])

pub quantize_node : Node → ℕ → ElementType → Build Node
unfolding clamp_to
quantize_node input index quantize_type = do
  op ← operand index
  scale ← make_const f32 [] (op.scale ∷ [])
  zero_point ← make_const i32 [] (op.zero_point ∷ [])
  input' ← to_f32 input
  div ← make Op.divide (input' ∷ scale ∷ [])
  round ← make Op.round_half_to_even (div ∷ [])
  convert_round ← make (Op.convert i32) (round ∷ [])
  sum ← make Op.add (convert_round ∷ zero_point ∷ [])
  clamped ← clamp_to (quantized_range op.type) sum
  t ← element_type_of clamped
  if eq_element t quantize_type
      then pure clamped
      else make (Op.convert quantize_type) (clamped ∷ [])

-- std::vector<size_t> shape(inputRank - channelDim, 1); shape[0] = inputScales.size()
abbrev channel_shape : ℕ → ℕ → ℕ → Build (List ℕ)
channel_shape rank channel_dim count =
    if ltb rank channel_dim
    then fails exception
    else if rank == channel_dim
    then fails undefined
    else pure (count ∷ replicate (rank - channel_dim - 1) 1)

-- the scale per channel
dequantize_channels : Node → ChannelQuant → Build Node
unfolding get_input_operand_dimensions
dequantize_channels input q = do
  dims ← get_input_operand_dimensions 0
  shape ← channel_shape (length dims) q.channel_dim (length q.scales)
  scale_node ← make_const f32 shape q.scales
  make Op.multiply (input ∷ scale_node ∷ [])

abbrev pub has_zero_point : OperandType → Bool
has_zero_point OperandType.tensor_quant8_asymm = true
has_zero_point OperandType.tensor_quant16_asymm = true
has_zero_point OperandType.tensor_quant8_asymm_signed = true
has_zero_point type = false

-- The zero point is given to an f32 constant, which converts it: its pattern is an int32_t.
dequantize_tensor : Node → Operand → Build Node
dequantize_tensor input op = do
  scale_node ← make_const f32 [] (op.scale ∷ [])
  zero_point_node ← make_const f32 [] (op.zero_point ∷ [])
  shifted ←
      (if has_zero_point op.type
        then make Op.subtract (input ∷ zero_point_node ∷ [])
        else pure input)
  make Op.multiply (shifted ∷ scale_node ∷ [])

pub dequantize_node : Node → ℕ → ElementType → Build Node
unfolding dequantize_channels dequantize_tensor
dequantize_node input index dequantize_type = do
  op ← operand index
  input' ← to_f32 input
  result ←
      (if eq_type op.type OperandType.tensor_quant8_symm_per_channel
        then dequantize_channels input' op.channel_quant
        else dequantize_tensor input' op)
  if eq_element dequantize_type f16
      then make (Op.convert dequantize_type) (result ∷ [])
      else pure result
