-- ===== src/Operations/Regions.antt =====
-- ngraph_creator/operations/src: InstanceNormalization.cpp, ROIAlign.cpp and ROIPooling.cpp.
pub mod Frame
use nn_hal.Prelude.{ℕ, Bool, false, not, [], ◌∷◌, ◌==◌, ltb, length, if◌then◌else◌}
use nn_hal.Prelude.Floats.{binary32, binary64, float_div, convert_float, float_eq}
use nn_hal.Types.{OperandType}
use nn_hal.Graph.{Node, Op}
use nn_hal.Graph.ElementType.{f32, i32}
use nn_hal.Build.{
  Build, ◌>>=◌, pure, operation_input, parse, const_vec, make, make_const, get_operation_output,
}
use nn_hal.Operations.Base.{
  get_input_operand_dimensions, check_input_operand_type, check_output_operand_type,
  is_valid_input_tensor, is_zero_sized_input,
}
use nn_hal.Operations.Inputs.{get_input_node}
use nn_hal.Operations.Pooling.{signed, to_size, to_nchw, to_nhwc}

-- `if (!a) return false; ...`
abbrev pub and_then : Build Bool → Build Bool → Build Bool
and_then first second = do passed ← first; if passed then second else pure false

abbrev pub output_is_float : Build Bool
output_is_float = check_output_operand_type 0 OperandType.tensor_float32

abbrev pub input_is_float : ℕ → Build Bool
input_is_float i = check_input_operand_type i OperandType.tensor_float32

pub validate_instance_normalization : Build Bool
validate_instance_normalization = and_then output_is_float (
    and_then (input_is_float 0) (do
      dims ← get_input_operand_dimensions 0
      if ltb 4 (length dims) then pure false else is_valid_input_tensor 0))

pub create_instance_normalization : Build Node
create_instance_normalization = do
  input ← get_input_node 0
  gamma ← parse 4 1
  beta ← parse 4 2
  epsilon ← parse 4 3
  layout ← parse 1 4
  let use_nchw = not (layout == 0)
  input' ← to_nchw use_nchw input
  gamma_node ← make_const f32 (1 ∷ []) (gamma ∷ [])
  beta_node ← make_const f32 (1 ∷ []) (beta ∷ [])
  axes_node ← make_const i32 (2 ∷ []) (2 ∷ 3 ∷ [])
  mvn ← make (Op.mvn epsilon) (input' ∷ axes_node ∷ [])
  mul_gamma ← make Op.multiply (mvn ∷ gamma_node ∷ [])
  sum ← make Op.add (mul_gamma ∷ beta_node ∷ [])
  to_nhwc use_nchw sum

abbrev pub none_is_empty : Build Bool
none_is_empty = do
  first ← is_zero_sized_input 0
  if first then pure false else (do
    second ← is_zero_sized_input 1
    if second then pure false else (do third ← is_zero_sized_input 2; pure (not third)))

-- height_ratio == width_ratio
abbrev pub same_ratios : Build Bool
same_ratios = do
  height_ratio ← parse 4 5
  width_ratio ← parse 4 6
  pure (float_eq binary32 height_ratio width_ratio)

pub validate_roi_align : Build Bool
validate_roi_align =
    and_then output_is_float (
      and_then none_is_empty
        (and_then (input_is_float 0) (and_then (input_is_float 1) same_ratios)))

-- float spatial_scale = 1.0 / height_ratio, in double
pub spatial_scale : ℕ → ℕ
spatial_scale height_ratio =
    convert_float binary64 binary32
      (float_div binary64 0x3ff0000000000000 (convert_float binary32 binary64 height_ratio))

pub create_roi_align : Build Node
create_roi_align = do
  feat_maps ← get_input_node 0
  rois ← get_input_node 1
  batch_indices ← get_input_node 2
  output_height ← parse 4 3
  output_width ← parse 4 4
  height_ratio ← parse 4 5
  sampling_pts_h ← parse 4 7
  layout ← parse 1 9
  let use_nchw = not (layout == 0)
  feat_maps' ← to_nchw use_nchw feat_maps
  n ←
      make (Op.roi_align output_height output_width sampling_pts_h (spatial_scale height_ratio))
        (feat_maps' ∷ rois ∷ batch_indices ∷ [])
  to_nhwc use_nchw n

pub validate_roi_pooling : Build Bool
validate_roi_pooling =
    and_then output_is_float (and_then (input_is_float 0) (and_then (input_is_float 1) same_ratios))

-- The batch indices are a constant, joined to the regions as their first column.
pub create_roi_pooling : Build Node
create_roi_pooling = do
  feat_maps ← get_input_node 0
  output_height ← parse 4 3
  output_width ← parse 4 4
  height_ratio ← parse 4 5
  layout ← parse 1 7
  let use_nchw = not (layout == 0)
  feat_maps' ← to_nchw use_nchw feat_maps
  bi_index ← operation_input 2
  bi_vec ← const_vec 4 bi_index
  bi_node ← make_const f32 (length bi_vec ∷ 1 ∷ []) bi_vec
  input_index ← operation_input 1
  rois ← get_operation_output input_index
  roi_node ← make (Op.concat 1) (bi_node ∷ rois ∷ [])
  n ←
      make
        (Op.roi_pooling (to_size (signed output_height) ∷ to_size (signed output_width) ∷ [])
          (spatial_scale height_ratio))
        (feat_maps' ∷ roi_node ∷ [])
  to_nhwc use_nchw n
