-- ===== src/Operations/Resizing.antt =====
-- ngraph_creator/operations/src: ResizeBilinear.cpp and ResizeNearestNeighbor.cpp. A float is its bit
-- pattern; where a float does not fit the int that it is cast to, the cast is undefined.
pub mod Frame
use nn_hal.Prelude.{
  ℕ, ◌-◌, Bool, true, false, not, ◌||◌, [], ◌∷◌, Option, none, some, undefined, ◌==◌, length,
  if◌then◌else◌,
}
use nn_hal.Prelude.Int.{ℤ, pos, negsuc}
use nn_hal.Prelude.Floats.{
  binary32, float_of_int, float_mul, float_div, int_of_float, float_of_half,
}
use nn_hal.Types.{OperandType}
use nn_hal.Graph.{Node, no_node, Op, InterpolateMode, CoordinateMode, NearestMode}
use nn_hal.Graph.InterpolateMode.{linear, nearest}
use nn_hal.Graph.CoordinateMode.{align_corners, half_pixel, asymmetric}
use nn_hal.Graph.NearestMode.{default_mode, floor_mode, round_prefer_ceil}
use nn_hal.Graph.ElementType.{f16, f32, i32}
use nn_hal.Build.{Build, ◌>>=◌, pure, fails, operation_inputs_size, parse, make, make_const}
use nn_hal.Operations.Base.{get_input_operand_dimensions, check_input_operand_type}
use nn_hal.Operations.Inputs.{get_input_node}
use nn_hal.Operations.Pooling.{signed, input_sizes, to_nchw, to_nhwc}

pub validate_resize : Build Bool
validate_resize = do dims ← get_input_operand_dimensions 0; pure (length dims == 4)

-- a uint8_t that is taken for a bool, where it is one of the inputs
abbrev pub flag_at : ℕ → Bool → Build Bool
flag_at i present = if present then (do flag ← parse 1 i; pure (not (flag == 0))) else pure false

-- The switch on inputsSize that falls through: half_pixel, align_corners and useNchw.
abbrev pub resize_flags : Build (Bool × Bool × Bool)
resize_flags = do
  size ← operation_inputs_size
  half ← flag_at 5 (size == 6)
  align ← flag_at 4 (size == 6 || size == 5)
  nchw ← flag_at 3 (size == 6 || size == 5 || size == 4)
  pure (half, align, nchw)

abbrev pub int_or_undefined : Option ℤ → Build ℤ
int_or_undefined none = fails undefined
int_or_undefined (some z) = pure z

-- (int)(input_size * scale)
pub scaled_size : ℕ → ℕ → Build ℤ
scaled_size input_size scale =
    int_or_undefined
      (int_of_float binary32 (float_mul binary32 (float_of_int binary32 (signed input_size)) scale))

-- (float)out_size / (float)input_size
pub scale_of : ℤ → ℕ → ℕ
scale_of out_size input_size =
    float_div binary32 (float_of_int binary32 out_size) (float_of_int binary32 (signed input_size))

-- What is asked for: the type of input 1, if it is one of the three.
pub data SizeKind : Type 0 where
  by_scale by_half_scale by_size unknown : SizeKind

abbrev pub size_kind : Build SizeKind
size_kind = do
  single ← check_input_operand_type 1 OperandType.float32
  half ← check_input_operand_type 1 OperandType.float16
  int ← check_input_operand_type 1 OperandType.int32
  pure (
      if single then by_scale else if half then by_half_scale else if int then by_size else unknown)

-- out_width and out_height, of the input's width and height
pub output_sizes : SizeKind → ℕ → ℕ → Build (ℤ × ℤ)
unfolding scaled_size
output_sizes by_scale input_width input_height = do
  width_scale ← parse 4 1
  height_scale ← parse 4 2
  out_width ← scaled_size input_width width_scale
  out_height ← scaled_size input_height height_scale
  pure (out_width, out_height)
output_sizes by_half_scale input_width input_height = do
  width_scale ← parse 2 1
  height_scale ← parse 2 2
  out_width ← scaled_size input_width (float_of_half width_scale)
  out_height ← scaled_size input_height (float_of_half height_scale)
  pure (out_width, out_height)
output_sizes by_size input_width input_height = do
  out_width ← parse 4 1
  out_height ← parse 4 2
  pure (signed out_width, signed out_height)
output_sizes unknown input_width input_height = pure (pos 0, pos 0)

-- scaleNode; of another type it stays null
pub scale_node : SizeKind → ℕ → ℕ → Build Node
scale_node by_scale height width = make_const f32 (2 ∷ []) (height ∷ width ∷ [])
scale_node by_half_scale height width = make_const f16 (2 ∷ []) (height ∷ width ∷ [])
scale_node by_size height width = make_const f32 (2 ∷ []) (height ∷ width ∷ [])
scale_node unknown height width = pure no_node

-- an int32_t by its pattern
abbrev pub pattern_of : ℤ → ℕ
pattern_of (pos n) = n
pattern_of (negsuc n) = 4294967295 - n

abbrev pub is_known : SizeKind → Bool
is_known unknown = false
is_known kind = true

abbrev pub coordinate_mode : Bool → Bool → CoordinateMode
coordinate_mode half align =
    if align then align_corners else if half then half_pixel else asymmetric

-- The two differ in the mode, in the nearest mode, in whether the shape's mode is set for a type that
-- is not known, and in the scale for such a type, which has no node.
pub resized : InterpolateMode → (Bool → Bool → NearestMode) → Bool → Build Node
unfolding output_sizes scale_of scale_node
resized mode nearest_mode always_sizes = do
  input ← get_input_node 0
  (half, align, nchw) ← resize_flags
  dims ← get_input_operand_dimensions 0
  (input_width, input_height) ← input_sizes dims nchw
  input' ← to_nchw nchw input
  kind ← size_kind
  (out_width, out_height) ← output_sizes kind input_width input_height
  shape_node ← make_const i32 (2 ∷ []) (pattern_of out_height ∷ pattern_of out_width ∷ [])
  scales ← scale_node kind (scale_of out_height input_height) (scale_of out_width input_width)
  axes_node ← make_const i32 (2 ∷ []) (2 ∷ 3 ∷ [])
  n ←
      make
        (Op.interpolate mode (coordinate_mode half align) (nearest_mode half align)
          (always_sizes || is_known kind))
        (input' ∷ shape_node ∷ scales ∷ axes_node ∷ [])
  to_nhwc nchw n

pub create_resize_bilinear : Build Node
unfolding resized
create_resize_bilinear = resized linear (λ half align. default_mode) false

pub create_resize_nearest_neighbor : Build Node
unfolding resized
create_resize_nearest_neighbor =
    resized nearest (λ half align. if align || half then round_prefer_ceil else floor_mode) true
