-- ===== src/Operations/Recurrent/Frame.antt =====
-- ngraph_creator/operations/src: what the RNNs leave alone.
use nn_hal.Prelude.{ℕ, zero, suc, List}
use nn_hal.Graph.{Node}
use nn_hal.Build.{Context}
use nn_hal.Build.Frame.{Keeps}
use nn_hal.Operations.Inputs.Frame.{operation_rules}
use nn_hal.Operations.Recurrent.{Weights}
use nn_hal.Operations.Recurrent.{
  rnn_cell, connect_rnn, steps_from, sequence_of, connect_unidirectional_sequence_rnn,
}

module _ {c : Context} where
  pub rnn_cell-Keeps : (w : Weights) (i : ℕ) (n : Node) (n1 : Node) → Keeps c (rnn_cell w i n n1)
  unfolding rnn_cell
  rnn_cell-Keeps w i n n1 = search operation_rules depth 40

  pub connect_rnn-Keeps : Keeps c connect_rnn
  unfolding connect_rnn
  connect_rnn-Keeps = search (operation_rules, rnn_cell-Keeps) depth 40

  pub steps_from-Keeps :
      (w : Weights) (i : ℕ) (n : Node) (j : ℕ) (k : ℕ) (n1 : Node) (n2 : Node)
      → Keeps c (steps_from w i n j k n1 n2)
  unfolding steps_from
  steps_from-Keeps w activation split i zero state last = search operation_rules depth 40
  steps_from-Keeps w activation split i (suc count) state last =
      search (operation_rules, rnn_cell-Keeps, steps_from-Keeps w activation split (suc i) count)
        depth 40

  pub sequence_of-Keeps : (outs : List Node) (i : ℕ) (n : Node) → Keeps c (sequence_of outs i n)
  unfolding sequence_of
  sequence_of-Keeps outs i n = search operation_rules depth 40

  pub connect_unidirectional_sequence_rnn-Keeps : Keeps c connect_unidirectional_sequence_rnn
  unfolding connect_unidirectional_sequence_rnn
  connect_unidirectional_sequence_rnn-Keeps =
      search (operation_rules, steps_from-Keeps, sequence_of-Keeps) depth 40
