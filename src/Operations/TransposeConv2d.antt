-- ===== src/Operations/TransposeConv2d.antt =====
-- ngraph_creator/operations/src/TransposeConv2D.cpp. A local that is read before it is set is
-- undefined.
pub mod Frame
use nn_hal.Prelude.{
  ℕ, Bool, false, not, ◌&&◌, List, [], ◌∷◌, Option, none, some, undefined, ◌==◌, if◌then◌else◌,
}
use nn_hal.Prelude.Int.{pos}
use nn_hal.Graph.{Node, Op}
use nn_hal.Graph.PadType.{explicit, same_upper, valid}
use nn_hal.Graph.ElementType.{i32}
use nn_hal.Build.{
  Build, ◌>>=◌, pure, fails, operation_input, operation_inputs_size, parse, const_vec, index_of,
  make, make_const,
}
use nn_hal.Operations.Base.{
  transpose, ConversionType, get_input_operand_dimensions, is_valid_input_tensor,
}
use nn_hal.Operations.Inputs.{get_input_node}
use nn_hal.Operations.Pooling.{signed, input_sizes, to_nchw}
use nn_hal.Operations.Conv2d.{Convolution, convolution_of, conv_bias, finish_convolution}
use nn_hal.Operations.GroupConvolutions.{channel_dim_is, are_four_dimensional}

-- the test of the large inputs that are ignored: three dimensions of one
abbrev pub is_unit_image : Build Bool
is_unit_image = do
  dims ← get_input_operand_dimensions 0
  d1 ← index_of dims 1
  d2 ← index_of dims 2
  d3 ← index_of dims 3
  pure (d1 == 1 && d2 == 1 && d3 == 1)

pub validate_transpose_conv_2d : Build Bool
validate_transpose_conv_2d = do
  four ← are_four_dimensional
  if not four then pure false else (do
    valid_input ← is_valid_input_tensor 0
    valid_filter ← (if valid_input then is_valid_input_tensor 1 else pure false)
    channels ← (if valid_filter then channel_dim_is 0 else pure false)
    if channels then (do unit ← is_unit_image; pure (not unit)) else pure false)

-- The convolution and, where isImplicit, the node of the shape of the output.
abbrev pub Transposed : Type 0
Transposed = Convolution × Option Node

-- isExplicit, for 11 inputs
explicit_transposed : List ℕ → Build Transposed
explicit_transposed input_dims = do
  left ← parse 4 3
  right ← parse 4 4
  top ← parse 4 5
  bottom ← parse 4 6
  stride_width ← parse 4 7
  stride_height ← parse 4 8
  activation ← parse 4 9
  layout ← parse 1 10
  let use_nchw = not (layout == 0)
  sizes ← input_sizes input_dims use_nchw
  pure (
    convolution_of (stride_width, stride_height) (1, 1) (signed left, signed right)
        (signed top, signed bottom) explicit activation use_nchw,
    none,
  )

-- isImplicit, for 9 inputs
implicit_transposed : Build Transposed
implicit_transposed = do
  index ← operation_input 3
  output_shape ← const_vec 4 index
  padding_scheme ← parse 4 4
  stride_width ← parse 4 5
  stride_height ← parse 4 6
  activation ← parse 4 7
  layout ← parse 1 8
  let use_nchw = not (layout == 0)
  height ← index_of output_shape (if use_nchw then 2 else 1)
  width ← index_of output_shape (if use_nchw then 3 else 2)
  shape_node ← make_const i32 (2 ∷ []) (height ∷ width ∷ [])
  pure (
    convolution_of (stride_width, stride_height) (1, 1) (pos 0, pos 0) (pos 0, pos 0)
        (if padding_scheme == 1 then same_upper else valid) activation use_nchw,
    some shape_node,
  )

pub transposed_convolution : Build Transposed
unfolding explicit_transposed implicit_transposed
transposed_convolution = do
  inputs_size ← operation_inputs_size
  input_dims ← get_input_operand_dimensions 0
  filter_dims ← get_input_operand_dimensions 1
  filter_width ← index_of filter_dims 2
  filter_height ← index_of filter_dims 1
  if inputs_size == 11
      then explicit_transposed input_dims
      else if inputs_size == 9
      then implicit_transposed
      else fails undefined

-- the inputs of the convolution, with the shape of the output where there is one
abbrev pub backprop_inputs : Node → Node → Option Node → List Node
backprop_inputs input filter none = input ∷ filter ∷ []
backprop_inputs input filter (some shape) = input ∷ filter ∷ shape ∷ []

pub create_transpose_conv_2d : Build Node
unfolding conv_bias finish_convolution
create_transpose_conv_2d = do
  (p, output_shape) ← transposed_convolution
  input ← get_input_node 0
  filter ← get_input_node 1
  bias ← get_input_node 2
  bias' ← conv_bias bias
  filter' ← transpose ConversionType.ihwo_oihw filter
  input' ← to_nchw p.use_nchw input
  conv ←
      make (Op.convolution_backprop p.windows p.dilations)
        (backprop_inputs input' filter' output_shape)
  finish_convolution conv bias' p.activation p.use_nchw
