-- ===== src/Operations/Slicing/Frame.antt =====
-- ngraph_creator/operations/src: what StridedSlice leaves alone.
use nn_hal.Build.{Context}
use nn_hal.Build.Frame.{Keeps}
use nn_hal.Operations.Inputs.Frame.{operation_rules}
use nn_hal.Operations.Slicing.{create_strided_slice}

module _ {c : Context} where
  pub create_strided_slice-Keeps : Keeps c create_strided_slice
  unfolding create_strided_slice
  create_strided_slice-Keeps = search operation_rules depth 40
