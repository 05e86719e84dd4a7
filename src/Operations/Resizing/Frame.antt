-- ===== src/Operations/Resizing/Frame.antt =====
-- ngraph_creator/operations/src: what the resizing operations leave alone.
use nn_hal.Prelude.{ℕ, Bool, Option, none, some}
use nn_hal.Prelude.Int.{ℤ}
use nn_hal.Build.{Context}
use nn_hal.Build.Frame.{Keeps}
use nn_hal.Operations.Inputs.Frame.{operation_rules}
use nn_hal.Operations.Resizing.{SizeKind, by_scale, by_half_scale, by_size, unknown}
use nn_hal.Graph.{InterpolateMode, NearestMode}
use nn_hal.Operations.Resizing.{
  int_or_undefined, scaled_size, output_sizes, scale_node, resized, create_resize_bilinear,
  create_resize_nearest_neighbor,
}

module _ {c : Context} where
  pub int_or_undefined-Keeps : (x0 : Option ℤ) → Keeps c (int_or_undefined x0)
  int_or_undefined-Keeps none = search operation_rules depth 40
  int_or_undefined-Keeps (some z) = search operation_rules depth 40

  pub scaled_size-Keeps : (i : ℕ) (j : ℕ) → Keeps c (scaled_size i j)
  unfolding scaled_size
  scaled_size-Keeps i j = search (operation_rules, int_or_undefined-Keeps) depth 40

  pub output_sizes-Keeps : (kind : SizeKind) (i : ℕ) (j : ℕ) → Keeps c (output_sizes kind i j)
  unfolding output_sizes
  output_sizes-Keeps by_scale input_width input_height =
      search (operation_rules, scaled_size-Keeps) depth 40
  output_sizes-Keeps by_half_scale input_width input_height =
      search (operation_rules, scaled_size-Keeps) depth 40
  output_sizes-Keeps by_size input_width input_height = search operation_rules depth 40
  output_sizes-Keeps unknown input_width input_height = search operation_rules depth 40

  pub scale_node-Keeps : (kind : SizeKind) (i : ℕ) (j : ℕ) → Keeps c (scale_node kind i j)
  unfolding scale_node
  scale_node-Keeps by_scale height width = search operation_rules depth 40
  scale_node-Keeps by_half_scale height width = search operation_rules depth 40
  scale_node-Keeps by_size height width = search operation_rules depth 40
  scale_node-Keeps unknown height width = search operation_rules depth 40

  pub resized-Keeps :
      (mode : InterpolateMode) (x1 : (Bool → Bool → NearestMode)) (b : Bool)
      → Keeps c (resized mode x1 b)
  unfolding resized
  resized-Keeps mode x1 b = search (operation_rules, output_sizes-Keeps, scale_node-Keeps) depth 40

  pub create_resize_bilinear-Keeps : Keeps c create_resize_bilinear
  unfolding create_resize_bilinear
  create_resize_bilinear-Keeps = search (operation_rules, resized-Keeps) depth 40

  pub create_resize_nearest_neighbor-Keeps : Keeps c create_resize_nearest_neighbor
  unfolding create_resize_nearest_neighbor
  create_resize_nearest_neighbor-Keeps = search (operation_rules, resized-Keeps) depth 40
