-- ===== src/Operations/Blocks.antt =====
-- ngraph_creator/operations/src: BatchToSpace.cpp, SpaceToBatch.cpp, PadV2.cpp, FullyConnected.cpp and
-- ChannelShuffle.cpp. An int32_t stands for itself by its pattern.
pub mod Axes
pub mod Frame
use nn_hal.Prelude.{
  ℕ, ◌+◌, ◌-◌, ◌/◌, ◌^◌, ◌%◌, zero, suc, Bool, true, false, not, ◌&&◌, ◌||◌, Option, none, some,
  Result, ok, fault, List, [], ◌∷◌, length, replicate, ◌==◌, ltb, leb, if◌then◌else◌, undefined,
}
use nn_hal.Types.{OperandType}
use nn_hal.Graph.{Node, no_node, is_null, ElementType, Op}
use nn_hal.Graph.ElementType.{f16, f32, i32, i64}
use nn_hal.Build.{
  Build, pure, ◌>>=◌, ◌>>◌, asks, operation_input, operation_inputs_size, operand, is_const,
  is_omitted, parse, const_vec, index_of, make, make_const,
}
use nn_hal.Utils.Sizes.{get_number_of_elements}
use nn_hal.Operations.Base.{
  ConversionType, check_input_operand_type, get_input_operand_dimensions, is_zero_sized_input,
  dequantize_node,
}
use nn_hal.Operations.Inputs.{get_input_node, apply_activation}
use nn_hal.Operations.Layout.{deinterleave, unless_nchw}

-- the layout that is the last of `n` inputs, where there are as many: useNchw
abbrev layout_of : ℕ → ℕ → Build Bool
layout_of size i =
    if size == i + 1 then (do layout ← parse 1 i; pure (not (layout == 0))) else pure false

abbrev is_four_dimensional : Build Bool
is_four_dimensional = do dims ← get_input_operand_dimensions 0; pure (length dims == 4)

abbrev is_const_input : ℕ → Build Bool
is_const_input i = do index ← operation_input i; is_const index

abbrev pub validate_batch_to_space : Build Bool
validate_batch_to_space = do
  four ← is_four_dimensional
  if four then is_const_input 1 else pure false

pub create_batch_to_space : Build Node
create_batch_to_space = do
  size ← operation_inputs_size
  input ← get_input_node 0
  dims ← get_input_operand_dimensions 0
  index ← operation_input 1
  block_shape ← const_vec 4 index
  use_nchw ← layout_of size 2
  let shape = replicate (length dims) 0
  block_shape_node ← make_const i64 (length dims ∷ []) (1 ∷ 1 ∷ block_shape)
  crop_begin ← make_const i64 (length shape ∷ []) shape
  crop_end ← make_const i64 (length shape ∷ []) shape
  nchw ← unless_nchw use_nchw ConversionType.nhwc_nchw input
  batch ← make Op.batch_to_space (nchw ∷ block_shape_node ∷ crop_begin ∷ crop_end ∷ [])
  unless_nchw use_nchw ConversionType.nchw_nhwc batch

abbrev pub validate_space_to_batch : Build Bool
validate_space_to_batch = do
  four ← is_four_dimensional
  if four
      then (do
        constant_shape ← is_const_input 1
        if constant_shape then is_const_input 2 else pure false)
      else pure false

pub create_space_to_batch : Build Node
unfolding deinterleave
create_space_to_batch = do
  size ← operation_inputs_size
  input ← get_input_node 0
  dims ← get_input_operand_dimensions 0
  index ← operation_input 1
  block_shape ← const_vec 4 index
  pad_index ← operation_input 2
  pad_2d ← const_vec 4 pad_index
  let (pad_0, pad_1) = deinterleave pad_2d
  block_shape_node ← make_const i64 (length dims ∷ []) (1 ∷ 1 ∷ block_shape)
  pad_begin ← make_const i64 (length dims ∷ []) (0 ∷ 0 ∷ pad_0)
  pad_end ← make_const i64 (length dims ∷ []) (0 ∷ 0 ∷ pad_1)
  use_nchw ← layout_of size 3
  nchw ← unless_nchw use_nchw ConversionType.nhwc_nchw input
  batch ← make Op.space_to_batch (nchw ∷ block_shape_node ∷ pad_begin ∷ pad_end ∷ [])
  unless_nchw use_nchw ConversionType.nchw_nhwc batch

-- Of another type there is no value: the pointer stays null.
abbrev pad_value_node : Build Node
pad_value_node = do
  index ← operation_input 0
  single ← check_input_operand_type 0 OperandType.tensor_float32
  half ← check_input_operand_type 0 OperandType.tensor_float16
  asymm ← check_input_operand_type 0 OperandType.tensor_quant8_asymm
  signed ← check_input_operand_type 0 OperandType.tensor_quant8_asymm_signed
  if single
      then (do value ← parse 4 2; make_const f32 [] (value ∷ []))
      else if half
      then (do value ← parse 2 2; make_const f16 [] (value ∷ []))
      else if asymm || signed
      then (do
        value ← parse 4 2
        constant ← make_const i32 [] (value ∷ [])
        dequantize_node constant index f32)
      else pure no_node

pub create_pad_v2 : Build Node
unfolding deinterleave
create_pad_v2 = do
  input ← get_input_node 0
  pad_value ← pad_value_node
  index ← operation_input 1
  paddings_2d ← const_vec 4 index
  let (paddings_0, paddings_1) = deinterleave paddings_2d
  pads_begin ← make_const i32 (length paddings_0 ∷ []) paddings_0
  pads_end ← make_const i32 (length paddings_1 ∷ []) paddings_1
  make Op.pad_value (input ∷ pads_begin ∷ pads_end ∷ pad_value ∷ [])

-- the element `i` of dimensions that have it
abbrev pub dimension : ℕ → ℕ → Build ℕ
dimension input i = do dims ← get_input_operand_dimensions input; index_of dims i

abbrev pub validate_fully_connected : Build Bool
validate_fully_connected = do
  dims ← get_input_operand_dimensions 0
  zero_sized ← is_zero_sized_input 0
  pure (not zero_sized && not (ltb (length dims) 2))

-- An unsigned division; by zero it is undefined.
abbrev quotient : ℕ → ℕ → Build ℕ
quotient a b = asks λ c. if b == 0 then fault undefined else ok (a / b)

-- `inputDims.size() > 2 || inputDims[1] != weightDims[1]`, which reads no dimension if the first
-- test holds
abbrev needs_reshape : Build Bool
needs_reshape = do
  dims ← get_input_operand_dimensions 0
  if ltb 2 (length dims)
      then pure true
      else (do width ← index_of dims 1; weight ← dimension 1 1; pure (not (width == weight)))

-- The input as rows of the weights' width.
abbrev rows_of : Node → Build Node
rows_of input = do
  dims ← get_input_operand_dimensions 0
  width ← dimension 1 1
  rows ← quotient (get_number_of_elements dims) width
  shape ← make_const i32 (2 ∷ []) (rows ∷ width ∷ [])
  make (Op.reshape false) (input ∷ shape ∷ [])

abbrev dequantized_bias : Node → Build Node
dequantized_bias bias = do
  asymm ← check_input_operand_type 0 OperandType.tensor_quant8_asymm
  signed ← check_input_operand_type 0 OperandType.tensor_quant8_asymm_signed
  if asymm || signed
      then (do index ← operation_input 2; dequantize_node bias index f32)
      else pure bias

abbrev with_bias : Node → Build Node
with_bias product = do
  dims ← get_input_operand_dimensions 2
  omitted ← is_omitted 2
  if omitted || length dims == 0 then pure product else (do
    bias ← get_input_node 2
    addend ← dequantized_bias bias
    make Op.add (product ∷ addend ∷ []))

pub create_fully_connected : Build Node
create_fully_connected = do
  input ← get_input_node 0
  weights ← get_input_node 1
  bias_dims ← get_input_operand_dimensions 2
  reshaped ← needs_reshape
  rows ← (if reshaped then rows_of input else pure input)
  product ← make (Op.mat_mul false true) (rows ∷ weights ∷ [])
  sum ← with_bias product
  activation ← parse 4 3
  activated ← apply_activation sum activation
  pure (if is_null activated then sum else activated)

-- an int32_t as an int64_t
abbrev pub extended : ℕ → ℕ
extended v = if ltb v (2 ^ 31) then v else v + (2 ^ 64 - 2 ^ 32)

-- -inputRank <= axis && axis < inputRank
abbrev pub in_rank : ℕ → ℕ → Bool
in_rank rank axis = if ltb axis (2 ^ 31) then ltb axis rank else leb (2 ^ 32 - axis) rank

abbrev pub validate_channel_shuffle : Build Bool
validate_channel_shuffle = do
  dims ← get_input_operand_dimensions 0
  if ltb 4 (length dims) || length dims == 0
      then pure false
      else (do axis ← parse 4 2; pure (in_rank (length dims) axis))

-- the axis counted from the first, and the axes that are missing from four dimensions
abbrev pub counted_axis : ℕ → ℕ → ℕ
counted_axis rank axis = if ltb axis (2 ^ 31) then axis else (extended axis + rank) % 2 ^ 64

abbrev pub missing_axes : ℕ → Build Node
missing_axes rank =
    if rank == 1
    then make_const i64 (3 ∷ []) (1 ∷ 2 ∷ 3 ∷ [])
    else if rank == 2
    then make_const i64 (2 ∷ []) (2 ∷ 3 ∷ [])
    else if rank == 3
    then make_const i64 (1 ∷ []) (3 ∷ [])
    else pure no_node

pub create_channel_shuffle : Build Node
create_channel_shuffle = do
  input ← get_input_node 0
  group ← parse 4 1
  axis ← parse 4 2
  dims ← get_input_operand_dimensions 0
  let rank = length dims
  axes ← missing_axes rank
  four ← (if ltb rank 4 then make Op.unsqueeze (input ∷ axes ∷ []) else pure input)
  shuffled ← make (Op.shuffle_channels (counted_axis rank axis) (extended group)) (four ∷ [])
  if ltb rank 4 then make Op.squeeze (shuffled ∷ axes ∷ []) else pure shuffled
