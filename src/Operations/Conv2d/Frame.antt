-- ===== src/Operations/Conv2d/Frame.antt =====
-- ngraph_creator/operations/src: what Conv2d leaves alone.
use nn_hal.Prelude.{ℕ, Bool, List}
use nn_hal.Graph.{Node}
use nn_hal.Build.{Context}
use nn_hal.Build.Frame.{Keeps}
use nn_hal.Operations.Inputs.Frame.{operation_rules}
use nn_hal.Operations.Conv2d.{
  explicit_convolution, implicit_convolution, convolution, conv_bias, bias_shape,
  finish_convolution, create_conv_2d,
}

module _ {c : Context} where
  explicit_convolution-Keeps : (a0 : List ℕ) (a1 : ℕ) → Keeps c (explicit_convolution a0 a1)
  unfolding explicit_convolution
  explicit_convolution-Keeps a0 a1 = search operation_rules depth 40

  implicit_convolution-Keeps :
      (a0 : List ℕ) (a1 : ℕ) (a2 : ℕ) (a3 : ℕ) → Keeps c (implicit_convolution a0 a1 a2 a3)
  unfolding implicit_convolution
  implicit_convolution-Keeps a0 a1 a2 a3 = search operation_rules depth 40

  pub convolution-Keeps : Keeps c convolution
  unfolding convolution
  convolution-Keeps =
      search (operation_rules, explicit_convolution-Keeps, implicit_convolution-Keeps) depth 40

  pub conv_bias-Keeps : (a0 : Node) → Keeps c (conv_bias a0)
  unfolding conv_bias
  conv_bias-Keeps a0 = search operation_rules depth 40

  bias_shape-Keeps : (a0 : List ℕ) (a1 : ℕ) → Keeps c (bias_shape a0 a1)
  unfolding bias_shape
  bias_shape-Keeps a0 a1 = search operation_rules depth 40

  pub finish_convolution-Keeps :
      (a0 : Node) (a1 : Node) (a2 : ℕ) (a3 : Bool) → Keeps c (finish_convolution a0 a1 a2 a3)
  unfolding finish_convolution
  finish_convolution-Keeps a0 a1 a2 a3 = search (operation_rules, bias_shape-Keeps) depth 40

  pub create_conv_2d-Keeps : Keeps c create_conv_2d
  unfolding create_conv_2d
  create_conv_2d-Keeps =
      search (operation_rules, convolution-Keeps, conv_bias-Keeps, finish_convolution-Keeps) depth
        40
