-- ===== src/Operations/Conv2d.antt =====
-- ngraph_creator/operations/src/Conv2d.cpp. A local that is read before it is set is undefined.
pub mod Frame
use nn_hal.Prelude.{
  ℕ, ◌+◌, Bool, true, false, not, ◌&&◌, ◌||◌, List, [], ◌∷◌, undefined, ◌==◌, leb, ltb, length,
  replicate, ◌-◌, if◌then◌else◌, set,
}
use nn_hal.Prelude.Int.{ℤ, pos}
use nn_hal.Types.{OperandType}
use nn_hal.Graph.{Node, Op, Windows, PadType}
use nn_hal.Graph.PadType.{explicit, same_upper, valid}
use nn_hal.Graph.ElementType.{f32, i32}
use nn_hal.Build.{
  Build, ◌>>=◌, pure, fails, operation_input, operation_inputs_size, operand, parse, index_of, make,
  make_const, shape_of,
}
use nn_hal.Operations.Base.{
  transpose, ConversionType, get_input_operand_dimensions, is_valid_input_tensor,
  check_input_operand_type, dequantize_node,
}
use nn_hal.Operations.Inputs.{get_input_node, apply_activation}
use nn_hal.Operations.Pooling.{signed, to_size, input_sizes, same_paddings, to_nchw, to_nhwc}

-- the test of the per-channel quantisation of the filter
abbrev pub channels_first : Build Bool
channels_first = do
  per_channel ← check_input_operand_type 1 OperandType.tensor_quant8_symm_per_channel
  if per_channel
      then (do
        index ← operation_input 1
        op ← operand index
        pure (op.channel_quant.channel_dim == 0))
      else pure true

pub validate_conv_2d : Build Bool
validate_conv_2d = do
  input_dims ← get_input_operand_dimensions 0
  filter_dims ← get_input_operand_dimensions 1
  if not (length input_dims == 4) || not (length filter_dims == 4) then pure false else (do
    valid_input ← is_valid_input_tensor 0
    if valid_input
        then (do
          valid_filter ← is_valid_input_tensor 1
          if valid_filter then channels_first else pure false)
        else pure false)

pub record Convolution : Type 0 where
  pub windows : Windows
  pub dilations : List ℕ
  pub activation : ℕ
  pub use_nchw : Bool

abbrev pub convolution_of : (ℕ × ℕ) → (ℕ × ℕ) → (ℤ × ℤ) → (ℤ × ℤ) → PadType → ℕ → Bool → Convolution
convolution_of (stride_width, stride_height) (dilation_width, dilation_height)
      (padding_left, padding_right) (padding_top, padding_bottom) auto_pad activation use_nchw =
    record {
      windows = record {
        strides = to_size (signed stride_height) ∷ to_size (signed stride_width) ∷ [];
        pads_begin = to_size padding_top ∷ to_size padding_left ∷ [];
        pads_end = to_size padding_bottom ∷ to_size padding_right ∷ [];
        auto_pad = auto_pad;
      };
      dilations = to_size (signed dilation_height) ∷ to_size (signed dilation_width) ∷ [];
      activation = activation;
      use_nchw = use_nchw;
    }

-- The switch on inputsSize that falls through: `extra` counts the optional inputs from `layout`,
-- which stands at `first`; the dilations are (width, height).
abbrev pub optional_inputs : ℕ → ℕ → Build (Bool × ℕ × ℕ)
optional_inputs first extra = do
  height ← (if leb 3 extra then parse 4 (first + 2) else pure 1)
  width ← (if leb 2 extra then parse 4 (first + 1) else pure 1)
  layout ← (if leb 1 extra then parse 1 first else pure 0)
  pure (not (layout == 0), width, height)

-- isExplicit, for 10 to 13 inputs; `extra` is inputsSize - 10
explicit_convolution : List ℕ → ℕ → Build Convolution
explicit_convolution input_dims extra = do
  left ← parse 4 3
  right ← parse 4 4
  top ← parse 4 5
  bottom ← parse 4 6
  stride_width ← parse 4 7
  stride_height ← parse 4 8
  activation ← parse 4 9
  (use_nchw, dilation_width, dilation_height) ← optional_inputs 10 extra
  sizes ← input_sizes input_dims use_nchw
  pure (
      convolution_of (stride_width, stride_height) (dilation_width, dilation_height)
        (signed left, signed right) (signed top, signed bottom) explicit activation use_nchw)

-- isImplicit, for 7 to 10 inputs; `extra` is inputsSize - 7
implicit_convolution : List ℕ → ℕ → ℕ → ℕ → Build Convolution
implicit_convolution input_dims filter_width filter_height extra = do
  padding_scheme ← parse 4 3
  stride_width ← parse 4 4
  stride_height ← parse 4 5
  activation ← parse 4 6
  (use_nchw, dilation_width, dilation_height) ← optional_inputs 7 extra
  (input_width, input_height) ← input_sizes input_dims use_nchw
  if padding_scheme == 1
      then (do
        width_padding ← same_paddings input_width stride_width filter_width
        height_padding ← same_paddings input_height stride_height filter_height
        pure (
            convolution_of (stride_width, stride_height) (dilation_width, dilation_height)
              width_padding height_padding same_upper activation use_nchw))
      else pure (
          convolution_of (stride_width, stride_height) (dilation_width, dilation_height)
            (pos 0, pos 0) (pos 0, pos 0) valid activation use_nchw)

-- inputsSize >= 10 && inputsSize <= 13 && !checkInputOperandType(7, BOOL)
abbrev pub is_explicit : ℕ → Build Bool
is_explicit inputs_size =
    if leb 10 inputs_size && leb inputs_size 13
    then (do bool ← check_input_operand_type 7 OperandType.bool; pure (not bool))
    else pure false

-- With another number of inputs nothing is set, and the strides are read.
unfoldable pub convolution : Build Convolution
unfolding explicit_convolution implicit_convolution
convolution = do
  inputs_size ← operation_inputs_size
  explicitly ← is_explicit inputs_size
  input_dims ← get_input_operand_dimensions 0
  filter_dims ← get_input_operand_dimensions 1
  filter_width ← index_of filter_dims 2
  filter_height ← index_of filter_dims 1
  if explicitly
      then explicit_convolution input_dims (inputs_size - 10)
      else if leb 7 inputs_size && leb inputs_size 10
      then implicit_convolution input_dims filter_width filter_height (inputs_size - 7)
      else fails undefined

-- The scale is that of operand 0 of the model, whichever operand the input is.
unfoldable pub conv_bias : Node → Build Node
conv_bias bias = do
  bias_index ← operation_input 2
  per_channel ← check_input_operand_type 1 OperandType.tensor_quant8_symm_per_channel
  asymm ← check_input_operand_type 0 OperandType.tensor_quant8_asymm
  asymm_signed ← check_input_operand_type 0 OperandType.tensor_quant8_asymm_signed
  if per_channel
      then (do
        filter_index ← operation_input 1
        filter_operand ← operand filter_index
        first ← operand 0
        let scales = filter_operand.channel_quant.scales
        filter_scales ← make_const f32 (length scales ∷ []) scales
        input_scale ← make_const f32 (1 ∷ []) (first.scale ∷ [])
        multiplier ← make Op.multiply (filter_scales ∷ input_scale ∷ [])
        converted ← make (Op.convert f32) (bias ∷ [])
        make Op.multiply (converted ∷ multiplier ∷ []))
      else if asymm || asymm_signed
      then dequantize_node bias bias_index f32
      else pure bias

-- std::vector<uint32_t> shape(rank, 1); shape[1] = biasDimensions[0]
bias_shape : List ℕ → ℕ → Build (List ℕ)
bias_shape shape channels =
    if ltb 1 (length shape)
    then pure (set (replicate (length shape) 1) 1 channels)
    else fails undefined

-- The bias added to the convolution, the activation, and the layout of the input.
unfoldable pub finish_convolution : Node → Node → ℕ → Bool → Build Node
unfolding bias_shape
finish_convolution conv bias activation use_nchw = do
  bias_dims ← get_input_operand_dimensions 2
  conv_shape ← shape_of conv
  channels ← index_of bias_dims 0
  shape ← bias_shape conv_shape channels
  shape_node ← make_const i32 (length shape ∷ []) shape
  reshaped ← make (Op.reshape true) (bias ∷ shape_node ∷ [])
  sum ← make Op.add (conv ∷ reshaped ∷ [])
  activated ← apply_activation sum activation
  to_nhwc use_nchw activated

pub create_conv_2d : Build Node
unfolding convolution conv_bias finish_convolution
create_conv_2d = do
  p ← convolution
  input ← get_input_node 0
  filter ← get_input_node 1
  bias ← get_input_node 2
  bias' ← conv_bias bias
  filter' ← transpose ConversionType.ohwi_oihw filter
  input' ← to_nchw p.use_nchw input
  conv ← make (Op.convolution p.windows p.dilations) (input' ∷ filter' ∷ [])
  finish_convolution conv bias' p.activation p.use_nchw
