-- ===== src/Operations/Pooling.antt =====
-- ngraph_creator/operations/src: AveragePool2D.cpp, MaxPool2d.cpp and L2Pooling2D.cpp, which read
-- their parameters alike. A local that is read before it is set is undefined.
pub mod Frame
use nn_hal.Prelude.{
  ℕ, suc, ◌-◌, ◌^◌, Bool, true, false, not, ◌&&◌, List, [], ◌∷◌, undefined, ◌==◌, leb, length,
  if◌then◌else◌,
}
use nn_hal.Prelude.Int.{ℤ, pos, negsuc}
use nn_hal.Graph.{Node, Op, Windows, PadType}
use nn_hal.Graph.PadType.{explicit, same_upper, valid}
use nn_hal.Build.{Build, ◌>>=◌, pure, fails, asks, operation_inputs_size, parse, index_of, make}
use nn_hal.Operations.Base.{transpose, ConversionType, get_input_operand_dimensions}
use nn_hal.Operations.Inputs.{get_input_node, apply_activation}
use nn_hal.Operations.Padding.{calculate_explicit_padding}

-- A uint32_t that is stored in an int32_t, and an int32_t that is cast to size_t.
abbrev pub signed : ℕ → ℤ
signed n = if leb (2 ^ 31) n then negsuc (2 ^ 32 - n - 1) else pos n

abbrev pub to_size : ℤ → ℕ
to_size (pos n) = n
to_size (negsuc n) = 2 ^ 64 - suc n

pub record Parameters : Type 0 where
  pub windows : Windows
  pub kernel : List ℕ
  pub activation : ℕ
  pub use_nchw : Bool

-- What the three do with a padding scheme that is neither SAME nor VALID: the first two take it
-- for VALID, L2Pooling2D leaves the paddings unset.
pub data OtherScheme : Type 0 where
  as_valid unset : OtherScheme

-- `if (inputsSize == n) layout = ...; if (layout) useNchw = true;`
abbrev pub layout_at : ℕ → Bool → Build Bool
layout_at i present =
    if present then (do layout ← parse 1 i; pure (not (layout == 0))) else pure false

-- input_width and input_height
abbrev pub input_sizes : List ℕ → Bool → Build (ℕ × ℕ)
input_sizes dims use_nchw = do
  width ← index_of dims (if use_nchw then 3 else 2)
  height ← index_of dims (if use_nchw then 2 else 1)
  pure (width, height)

abbrev pub parameters_of : (ℕ × ℕ) → (ℕ × ℕ) → (ℤ × ℤ) → (ℤ × ℤ) → PadType → ℕ → Bool → Parameters
parameters_of (stride_width, stride_height) (filter_width, filter_height)
      (padding_left, padding_right) (padding_top, padding_bottom) auto_pad activation use_nchw =
    record {
      windows = record {
        strides = to_size (signed stride_height) ∷ to_size (signed stride_width) ∷ [];
        pads_begin = to_size padding_top ∷ to_size padding_left ∷ [];
        pads_end = to_size padding_bottom ∷ to_size padding_right ∷ [];
        auto_pad = auto_pad;
      };
      kernel = to_size (signed filter_height) ∷ to_size (signed filter_width) ∷ [];
      activation = activation;
      use_nchw = use_nchw;
    }

-- isExplicit; `reads_sizes` holds where the sizes are read although they are not used
unfoldable pub explicit_parameters : Bool → ℕ → Build Parameters
explicit_parameters reads_sizes inputs_size = do
  dims ← get_input_operand_dimensions 0
  left ← parse 4 1
  right ← parse 4 2
  top ← parse 4 3
  bottom ← parse 4 4
  stride_width ← parse 4 5
  stride_height ← parse 4 6
  filter_width ← parse 4 7
  filter_height ← parse 4 8
  activation ← parse 4 9
  use_nchw ← layout_at 10 (inputs_size == 11)
  sizes ← (if reads_sizes then input_sizes dims use_nchw else pure (0, 0))
  pure (
      parameters_of (stride_width, stride_height) (filter_width, filter_height)
        (signed left, signed right) (signed top, signed bottom) explicit activation use_nchw)

-- the paddings of one direction for SAME
abbrev pub same_paddings : ℕ → ℕ → ℕ → Build (ℤ × ℤ)
same_paddings size stride filter =
    asks λ c. calculate_explicit_padding (signed size) (signed stride) (signed filter) 1

-- isImplicit
unfoldable pub implicit_parameters : OtherScheme → ℕ → Build Parameters
implicit_parameters other inputs_size = do
  dims ← get_input_operand_dimensions 0
  padding_scheme ← parse 4 1
  stride_width ← parse 4 2
  stride_height ← parse 4 3
  filter_width ← parse 4 4
  filter_height ← parse 4 5
  activation ← parse 4 6
  use_nchw ← layout_at 7 (inputs_size == 8)
  (input_width, input_height) ← input_sizes dims use_nchw
  if padding_scheme == 1
      then (do
        width_padding ← same_paddings input_width stride_width filter_width
        height_padding ← same_paddings input_height stride_height filter_height
        pure (
            parameters_of (stride_width, stride_height) (filter_width, filter_height) width_padding
              height_padding same_upper activation use_nchw))
      else if padding_scheme == 2
      then pure (
          parameters_of (stride_width, stride_height) (filter_width, filter_height) (pos 0, pos 0)
            (pos 0, pos 0) valid activation use_nchw)
      else elim other [
        | as_valid ↦ pure (
            parameters_of (stride_width, stride_height) (filter_width, filter_height) (pos 0, pos 0)
              (pos 0, pos 0) valid activation use_nchw)
        | unset ↦ fails undefined
      ]

-- With another number of inputs nothing is set, and the strides are read.
unfoldable pub pool_parameters : Bool → OtherScheme → Build Parameters
unfolding explicit_parameters implicit_parameters
pool_parameters reads_sizes other = do
  inputs_size ← operation_inputs_size
  if leb 10 inputs_size && leb inputs_size 11
      then explicit_parameters reads_sizes inputs_size
      else if leb 7 inputs_size && leb inputs_size 8
      then implicit_parameters other inputs_size
      else fails undefined

abbrev pub to_nchw : Bool → Node → Build Node
to_nchw use_nchw input = if use_nchw then pure input else transpose ConversionType.nhwc_nchw input

abbrev pub to_nhwc : Bool → Node → Build Node
to_nhwc use_nchw n = if use_nchw then pure n else transpose ConversionType.nchw_nhwc n

pub validate_average_pool_2d : Build Bool
validate_average_pool_2d = do dims ← get_input_operand_dimensions 0; pure (length dims == 4)

pub create_average_pool_2d : Build Node
unfolding pool_parameters
create_average_pool_2d = do
  input ← get_input_node 0
  p ← pool_parameters false as_valid
  input' ← to_nchw p.use_nchw input
  pooled ← make (Op.avg_pool p.windows p.kernel) (input' ∷ [])
  activated ← apply_activation pooled p.activation
  to_nhwc p.use_nchw activated

pub create_max_pool_2d : Build Node
unfolding pool_parameters
create_max_pool_2d = do
  p ← pool_parameters true as_valid
  input ← get_input_node 0
  input' ← to_nchw p.use_nchw input
  pooled ← make (Op.max_pool p.windows p.kernel) (input' ∷ [])
  activated ← apply_activation pooled p.activation
  to_nhwc p.use_nchw activated

pub create_l2_pooling_2d : Build Node
unfolding pool_parameters
create_l2_pooling_2d = do
  p ← pool_parameters true unset
  input ← get_input_node 0
  squared ← make Op.multiply (input ∷ input ∷ [])
  input' ← to_nchw p.use_nchw squared
  pooled ← make (Op.avg_pool p.windows p.kernel) (input' ∷ [])
  sqrt_output ← make Op.sqrt (pooled ∷ [])
  activated ← apply_activation sqrt_output p.activation
  to_nhwc p.use_nchw activated
