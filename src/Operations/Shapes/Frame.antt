-- ===== src/Operations/Shapes/Frame.antt =====
-- ngraph_creator/operations/src: what Reshape, Argmax and Argmin leave alone.
use nn_hal.Build.{Context}
use nn_hal.Build.Frame.{Keeps}
use nn_hal.Operations.Inputs.Frame.{operation_rules}
use nn_hal.Operations.Shapes.{create_reshape}

module _ {c : Context} where
  pub create_reshape-Keeps : Keeps c create_reshape
  unfolding create_reshape
  create_reshape-Keeps = search operation_rules depth 40
