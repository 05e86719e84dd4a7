-- ===== src/Operations/TransposeConv2d/Frame.antt =====
-- ngraph_creator/operations/src: what TransposeConv2D leaves alone.
use nn_hal.Prelude.{ℕ, List}
use nn_hal.Build.{Context}
use nn_hal.Build.Frame.{Keeps}
use nn_hal.Operations.Inputs.Frame.{operation_rules}
use nn_hal.Operations.Conv2d.Frame.{conv_bias-Keeps, finish_convolution-Keeps}
use nn_hal.Operations.TransposeConv2d.{
  explicit_transposed, implicit_transposed, transposed_convolution, create_transpose_conv_2d,
}

module _ {c : Context} where
  explicit_transposed-Keeps : (dims : List ℕ) → Keeps c (explicit_transposed dims)
  unfolding explicit_transposed
  explicit_transposed-Keeps dims = search operation_rules depth 40

  implicit_transposed-Keeps : Keeps c implicit_transposed
  unfolding implicit_transposed
  implicit_transposed-Keeps = search operation_rules depth 40

  pub transposed_convolution-Keeps : Keeps c transposed_convolution
  unfolding transposed_convolution
  transposed_convolution-Keeps =
      search (operation_rules, explicit_transposed-Keeps, implicit_transposed-Keeps) depth 40

  pub create_transpose_conv_2d-Keeps : Keeps c create_transpose_conv_2d
  unfolding create_transpose_conv_2d
  create_transpose_conv_2d-Keeps =
      search
        (operation_rules, conv_bias-Keeps, finish_convolution-Keeps, transposed_convolution-Keeps)
        depth 40
