-- ===== src/Operations/Regions/Frame.antt =====
-- ngraph_creator/operations/src: what the operations on regions leave alone.
use nn_hal.Build.{Context}
use nn_hal.Build.Frame.{Keeps}
use nn_hal.Operations.Inputs.Frame.{operation_rules}
use nn_hal.Operations.Regions.{create_instance_normalization, create_roi_align, create_roi_pooling}

module _ {c : Context} where
  pub create_instance_normalization-Keeps : Keeps c create_instance_normalization
  unfolding create_instance_normalization
  create_instance_normalization-Keeps = search operation_rules depth 40

  pub create_roi_align-Keeps : Keeps c create_roi_align
  unfolding create_roi_align
  create_roi_align-Keeps = search operation_rules depth 40

  pub create_roi_pooling-Keeps : Keeps c create_roi_pooling
  unfolding create_roi_pooling
  create_roi_pooling-Keeps = search operation_rules depth 40
