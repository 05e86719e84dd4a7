-- ===== src/Operations/GroupConvolutions/Frame.antt =====
-- ngraph_creator/operations/src: what the group convolutions leave alone.
use nn_hal.Prelude.{ℕ, List, [], ◌∷◌}
use nn_hal.Graph.{ElementType}
use nn_hal.Build.{Context}
use nn_hal.Build.Frame.{Keeps}
use nn_hal.Operations.Inputs.Frame.{operation_rules}
use nn_hal.Operations.Base.{ConversionType}
use nn_hal.Operations.GroupConvolutions.{GroupConvolution}
use nn_hal.Operations.Conv2d.Frame.{conv_bias-Keeps, finish_convolution-Keeps}
use nn_hal.Operations.GroupConvolutions.{
  explicit_depthwise, implicit_depthwise, depthwise_convolution, explicit_grouped, implicit_grouped,
  grouped_convolution, grouped_shape, group_convolution_of, create_depthwise_conv_2d,
  create_grouped_conv_2d,
}

module _ {c : Context} where
  explicit_depthwise-Keeps : (dims : List ℕ) (i : ℕ) → Keeps c (explicit_depthwise dims i)
  unfolding explicit_depthwise
  explicit_depthwise-Keeps dims i = search operation_rules depth 40

  implicit_depthwise-Keeps :
      (dims : List ℕ) (i : ℕ) (j : ℕ) (k : ℕ) → Keeps c (implicit_depthwise dims i j k)
  unfolding implicit_depthwise
  implicit_depthwise-Keeps dims i j k = search operation_rules depth 40

  pub depthwise_convolution-Keeps : Keeps c depthwise_convolution
  unfolding depthwise_convolution
  depthwise_convolution-Keeps =
      search (operation_rules, explicit_depthwise-Keeps, implicit_depthwise-Keeps) depth 40

  explicit_grouped-Keeps : (dims : List ℕ) (i : ℕ) → Keeps c (explicit_grouped dims i)
  unfolding explicit_grouped
  explicit_grouped-Keeps dims i = search operation_rules depth 40

  implicit_grouped-Keeps :
      (dims : List ℕ) (i : ℕ) (j : ℕ) (k : ℕ) → Keeps c (implicit_grouped dims i j k)
  unfolding implicit_grouped
  implicit_grouped-Keeps dims i j k = search operation_rules depth 40

  pub grouped_convolution-Keeps : Keeps c grouped_convolution
  unfolding grouped_convolution
  grouped_convolution-Keeps =
      search (operation_rules, explicit_grouped-Keeps, implicit_grouped-Keeps) depth 40

  pub grouped_shape-Keeps : (dims : List ℕ) (i : ℕ) → Keeps c (grouped_shape dims i)
  unfolding grouped_shape
  grouped_shape-Keeps [] groups = search operation_rules depth 40
  grouped_shape-Keeps (outputs ∷ rest) groups = search operation_rules depth 40

  pub group_convolution_of-Keeps :
      (g : GroupConvolution) (how : ConversionType) (t : ElementType)
      → Keeps c (group_convolution_of g how t)
  unfolding group_convolution_of
  group_convolution_of-Keeps g how t =
      search (operation_rules, conv_bias-Keeps, finish_convolution-Keeps, grouped_shape-Keeps) depth
        40

  pub create_depthwise_conv_2d-Keeps : Keeps c create_depthwise_conv_2d
  unfolding create_depthwise_conv_2d
  create_depthwise_conv_2d-Keeps =
      search (operation_rules, depthwise_convolution-Keeps, group_convolution_of-Keeps) depth 40

  pub create_grouped_conv_2d-Keeps : Keeps c create_grouped_conv_2d
  unfolding create_grouped_conv_2d
  create_grouped_conv_2d-Keeps =
      search (operation_rules, grouped_convolution-Keeps, group_convolution_of-Keeps) depth 40
