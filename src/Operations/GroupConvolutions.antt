-- ===== src/Operations/GroupConvolutions.antt =====
-- ngraph_creator/operations/src: DepthwiseConv2d.cpp and GroupedConv2d.cpp, which read their
-- parameters as Conv2d.cpp does. A local that is read before it is set is undefined.
pub mod Frame
use nn_hal.Prelude.{
  ℕ, ◌-◌, ◌/◌, Bool, true, false, not, ◌&&◌, ◌||◌, List, [], ◌∷◌, undefined, ◌==◌, leb, ltb, length,
  take, if◌then◌else◌,
}
use nn_hal.Prelude.Int.{ℤ, pos}
use nn_hal.Types.{OperandType}
use nn_hal.Graph.{Node, Op, PadType, ElementType}
use nn_hal.Graph.PadType.{explicit, same_upper, valid}
use nn_hal.Graph.ElementType.{i32, i64}
use nn_hal.Build.{
  Build, ◌>>=◌, pure, fails, operation_input, operation_inputs_size, operand, parse, index_of, make,
  make_const, shape_of,
}
use nn_hal.Operations.Base.{
  transpose, ConversionType, get_input_operand_dimensions, check_input_operand_type,
}
use nn_hal.Operations.Inputs.{get_input_node}
use nn_hal.Operations.Pooling.{signed, to_size, input_sizes, layout_at, same_paddings, to_nchw}
use nn_hal.Operations.Conv2d.{
  Convolution, convolution_of, optional_inputs, conv_bias, finish_convolution,
}

-- the test of the per-channel quantisation of the filter: channelDim == dim
abbrev pub channel_dim_is : ℕ → Build Bool
channel_dim_is dim = do
  per_channel ← check_input_operand_type 1 OperandType.tensor_quant8_symm_per_channel
  if per_channel
      then (do
        index ← operation_input 1
        op ← operand index
        pure (op.channel_quant.channel_dim == dim))
      else pure true

abbrev pub are_four_dimensional : Build Bool
are_four_dimensional = do
  input_dims ← get_input_operand_dimensions 0
  filter_dims ← get_input_operand_dimensions 1
  pure (length input_dims == 4 && length filter_dims == 4)

pub validate_depthwise_conv_2d : Build Bool
validate_depthwise_conv_2d = do
  four ← are_four_dimensional
  if not four then pure false else (do
    filter_dims ← get_input_operand_dimensions 1
    first ← index_of filter_dims 0
    if first == 1 then channel_dim_is 3 else pure false)

pub validate_grouped_conv_2d : Build Bool
validate_grouped_conv_2d = do
  four ← are_four_dimensional
  if four then channel_dim_is 0 else pure false

-- A convolution with the number of its groups, an int32_t by its pattern.
pub record GroupConvolution : Type 0 where
  pub convolution : Convolution
  pub groups : ℕ

-- input_channel
abbrev pub input_channel : List ℕ → Bool → Build ℕ
input_channel dims use_nchw = index_of dims (if use_nchw then 1 else 3)

-- isExplicit, for 11 to 14 inputs; `extra` is inputsSize - 11
explicit_depthwise : List ℕ → ℕ → Build GroupConvolution
explicit_depthwise input_dims extra = do
  left ← parse 4 3
  right ← parse 4 4
  top ← parse 4 5
  bottom ← parse 4 6
  stride_width ← parse 4 7
  stride_height ← parse 4 8
  multiplier ← parse 4 9
  activation ← parse 4 10
  (use_nchw, dilation_width, dilation_height) ← optional_inputs 11 extra
  sizes ← input_sizes input_dims use_nchw
  channel ← input_channel input_dims use_nchw
  pure (record {
    convolution =
        convolution_of (stride_width, stride_height) (dilation_width, dilation_height)
          (signed left, signed right) (signed top, signed bottom) explicit activation use_nchw;
    groups = channel;
  })

-- isImplicit, for 8 to 11 inputs; `extra` is inputsSize - 8
implicit_depthwise : List ℕ → ℕ → ℕ → ℕ → Build GroupConvolution
implicit_depthwise input_dims filter_width filter_height extra = do
  padding_scheme ← parse 4 3
  stride_width ← parse 4 4
  stride_height ← parse 4 5
  multiplier ← parse 4 6
  activation ← parse 4 7
  (use_nchw, dilation_width, dilation_height) ← optional_inputs 8 extra
  (input_width, input_height) ← input_sizes input_dims use_nchw
  channel ← input_channel input_dims use_nchw
  if padding_scheme == 1
      then (do
        width_padding ← same_paddings input_width stride_width filter_width
        height_padding ← same_paddings input_height stride_height filter_height
        pure (record {
          convolution =
              convolution_of (stride_width, stride_height) (dilation_width, dilation_height)
                width_padding height_padding same_upper activation use_nchw;
          groups = channel;
        }))
      else pure (record {
        convolution =
            convolution_of (stride_width, stride_height) (dilation_width, dilation_height)
              (pos 0, pos 0) (pos 0, pos 0) valid activation use_nchw;
        groups = channel;
      })

-- inputsSize >= 11 && inputsSize <= most && !checkInputOperandType(8, BOOL)
abbrev pub is_explicit_group : ℕ → ℕ → Build Bool
is_explicit_group most inputs_size =
    if leb 11 inputs_size && leb inputs_size most
    then (do bool ← check_input_operand_type 8 OperandType.bool; pure (not bool))
    else pure false

-- With another number of inputs nothing is set, and the strides are read.
pub depthwise_convolution : Build GroupConvolution
unfolding explicit_depthwise implicit_depthwise
depthwise_convolution = do
  inputs_size ← operation_inputs_size
  explicitly ← is_explicit_group 14 inputs_size
  input_dims ← get_input_operand_dimensions 0
  filter_dims ← get_input_operand_dimensions 1
  filter_width ← index_of filter_dims 2
  filter_height ← index_of filter_dims 1
  if explicitly
      then explicit_depthwise input_dims (inputs_size - 11)
      else if leb 8 inputs_size && leb inputs_size 11
      then implicit_depthwise input_dims filter_width filter_height (inputs_size - 8)
      else fails undefined

-- The attributes of GroupedConv2d list the width first: {stride_width, stride_height} and so on.
abbrev pub width_first : (ℕ × ℕ) → (ℤ × ℤ) → (ℤ × ℤ) → PadType → ℕ → Bool → ℕ → GroupConvolution
width_first (stride_width, stride_height) width_padding height_padding auto_pad activation use_nchw
      groups =
    record {
      convolution =
          convolution_of (stride_height, stride_width) (1, 1) height_padding width_padding auto_pad
            activation use_nchw;
      groups = groups;
    }

-- isExplicit, for 11 or 12 inputs
explicit_grouped : List ℕ → ℕ → Build GroupConvolution
explicit_grouped input_dims inputs_size = do
  left ← parse 4 3
  right ← parse 4 4
  top ← parse 4 5
  bottom ← parse 4 6
  stride_width ← parse 4 7
  stride_height ← parse 4 8
  number_groups ← parse 4 9
  activation ← parse 4 10
  use_nchw ← layout_at 11 (inputs_size == 12)
  sizes ← input_sizes input_dims use_nchw
  channel ← input_channel input_dims use_nchw
  pure (
      width_first (stride_width, stride_height) (signed left, signed right)
        (signed top, signed bottom) explicit activation use_nchw number_groups)

-- isImplicit, for 8 or 9 inputs. Of a scheme that is neither SAME nor VALID the paddings are not set.
implicit_grouped : List ℕ → ℕ → ℕ → ℕ → Build GroupConvolution
implicit_grouped input_dims filter_width filter_height inputs_size = do
  padding_scheme ← parse 4 3
  stride_width ← parse 4 4
  stride_height ← parse 4 5
  number_groups ← parse 4 6
  activation ← parse 4 7
  use_nchw ← layout_at 8 (inputs_size == 9)
  (input_width, input_height) ← input_sizes input_dims use_nchw
  channel ← input_channel input_dims use_nchw
  if padding_scheme == 1
      then (do
        width_padding ← same_paddings input_width stride_width filter_width
        height_padding ← same_paddings input_height stride_height filter_height
        pure (
            width_first (stride_width, stride_height) width_padding height_padding same_upper
              activation use_nchw number_groups))
      else if padding_scheme == 2
      then pure (
          width_first (stride_width, stride_height) (pos 0, pos 0) (pos 0, pos 0) valid activation
            use_nchw number_groups)
      else fails undefined

pub grouped_convolution : Build GroupConvolution
unfolding explicit_grouped implicit_grouped
grouped_convolution = do
  inputs_size ← operation_inputs_size
  explicitly ← is_explicit_group 12 inputs_size
  input_dims ← get_input_operand_dimensions 0
  filter_dims ← get_input_operand_dimensions 1
  filter_width ← index_of filter_dims 2
  filter_height ← index_of filter_dims 1
  if explicitly
      then explicit_grouped input_dims inputs_size
      else if leb 8 inputs_size && leb inputs_size 9
      then implicit_grouped input_dims filter_width filter_height inputs_size
      else fails undefined

-- The first four dimensions of the filter, the first of them shared out among the groups: an
-- unsigned division, undefined by zero, as is a filter of fewer dimensions.
unfoldable pub grouped_shape : List ℕ → ℕ → Build (List ℕ)
grouped_shape [] groups = fails undefined
grouped_shape (outputs ∷ rest) groups =
    if ltb (length rest) 3 || to_size (signed groups) == 0
    then fails undefined
    else pure (to_size (signed groups) ∷ (outputs / to_size (signed groups)) ∷ take 3 rest)

-- What the two do with their parameters; they differ in the layout of the filter and in the type of
-- the constant of its shape.
unfoldable pub group_convolution_of : GroupConvolution → ConversionType → ElementType → Build Node
unfolding conv_bias finish_convolution grouped_shape
group_convolution_of p filter_layout shape_element = do
  input ← get_input_node 0
  filter ← get_input_node 1
  bias ← get_input_node 2
  bias' ← conv_bias bias
  filter' ← transpose filter_layout filter
  input' ← to_nchw p.convolution.use_nchw input
  filter_shape ← shape_of filter'
  shape ← grouped_shape filter_shape p.groups
  shape_node ← make_const shape_element (length shape ∷ []) shape
  grouped ← make (Op.reshape true) (filter' ∷ shape_node ∷ [])
  conv ←
      make (Op.group_convolution p.convolution.windows p.convolution.dilations)
        (input' ∷ grouped ∷ [])
  finish_convolution conv bias' p.convolution.activation p.convolution.use_nchw

pub create_depthwise_conv_2d : Build Node
unfolding group_convolution_of
create_depthwise_conv_2d = do
  p ← depthwise_convolution
  group_convolution_of p ConversionType.ihwo_oihw i32

pub create_grouped_conv_2d : Build Node
unfolding group_convolution_of
create_grouped_conv_2d = do
  p ← grouped_convolution
  group_convolution_of p ConversionType.ohwi_oihw i64
