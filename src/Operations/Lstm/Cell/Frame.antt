-- ===== src/Operations/Lstm/Cell/Frame.antt =====
-- ngraph_creator/operations/src: what the LSTM leaves alone.
use nn_hal.Graph.{Node}
use nn_hal.Build.{Context}
use nn_hal.Build.Frame.{Keeps}
use nn_hal.Operations.Inputs.Frame.{operation_rules}
use nn_hal.Operations.Lstm.{Features}
use nn_hal.Operations.Lstm.Cell.{Cell}
use nn_hal.Operations.Lstm.Frame.{
  features-Keeps, clip-Keeps, lstm_activation-Keeps, layer_norm_of-Keeps, scratch_buffer-Keeps,
}
use nn_hal.Operations.Lstm.Cell.{cell_inputs, input_gate_of, hidden_state, connect_lstm}

module _ {c : Context} where
  pub cell_inputs-Keeps : (f : Features) → Keeps c (cell_inputs f)
  unfolding cell_inputs
  cell_inputs-Keeps f = search operation_rules depth 60 fits 20000

  pub input_gate_of-Keeps : (cell : Cell) (n : Node) (n1 : Node) → Keeps c (input_gate_of cell n n1)
  unfolding input_gate_of
  input_gate_of-Keeps cell n n1 =
      search (operation_rules, lstm_activation-Keeps, layer_norm_of-Keeps, scratch_buffer-Keeps)
        depth 40

  pub hidden_state-Keeps : (cell : Cell) (n : Node) (n1 : Node) → Keeps c (hidden_state cell n n1)
  unfolding hidden_state
  hidden_state-Keeps cell n n1 =
      search (operation_rules, clip-Keeps, lstm_activation-Keeps) depth 40

  pub connect_lstm-Keeps : Keeps c connect_lstm
  unfolding connect_lstm
  connect_lstm-Keeps =
      search
        (
          operation_rules, clip-Keeps, lstm_activation-Keeps, layer_norm_of-Keeps, features-Keeps,
          cell_inputs-Keeps, input_gate_of-Keeps, hidden_state-Keeps,
        )
        depth 60 fits 20000
