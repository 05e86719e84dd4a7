-- ===== src/Operations/Blocks/Frame.antt =====
-- ngraph_creator/operations/src: what the block operations leave alone.
use nn_hal.Build.{Context}
use nn_hal.Build.Frame.{Keeps}
use nn_hal.Operations.Inputs.Frame.{operation_rules}
use nn_hal.Operations.Blocks.{
  create_batch_to_space, create_space_to_batch, create_pad_v2, create_fully_connected,
  create_channel_shuffle,
}

module _ {c : Context} where
  pub create_batch_to_space-Keeps : Keeps c create_batch_to_space
  unfolding create_batch_to_space
  create_batch_to_space-Keeps = search operation_rules depth 40

  pub create_space_to_batch-Keeps : Keeps c create_space_to_batch
  unfolding create_space_to_batch
  create_space_to_batch-Keeps = search operation_rules depth 40

  pub create_pad_v2-Keeps : Keeps c create_pad_v2
  unfolding create_pad_v2
  create_pad_v2-Keeps = search operation_rules depth 40

  pub create_fully_connected-Keeps : Keeps c create_fully_connected
  unfolding create_fully_connected
  create_fully_connected-Keeps = search operation_rules depth 40

  pub create_channel_shuffle-Keeps : Keeps c create_channel_shuffle
  unfolding create_channel_shuffle
  create_channel_shuffle-Keeps = search operation_rules depth 40
