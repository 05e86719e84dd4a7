-- ===== src/Operations/Layout/Frame.antt =====
-- ngraph_creator/operations/src: what the layout operations leave alone.
use nn_hal.Prelude.{ℕ, zero, suc}
use nn_hal.Graph.{Node, Op}
use nn_hal.Build.{Context, Build}
use nn_hal.Build.Frame.{Keeps, Keeps-bind, Keeps-pure}
use nn_hal.Operations.Inputs.Frame.{operation_rules}
use nn_hal.Build.{◌>>=◌, operation_input, operand, operation_inputs_size, parse, make, fails}
use nn_hal.Prelude.{undefined}
use nn_hal.Operations.Inputs.{get_input_node}
use nn_hal.Operations.Layout.{
  input_nodes, create_concat, create_l2_normalization, create_softmax, create_log_softmax,
  create_pad, create_squeeze, create_transpose, create_dequantize, connect_quantize,
}

module _ {c : Context} where
  input_nodes-Keeps : (i : ℕ) (j : ℕ) → Keeps c (input_nodes i j)
  unfolding input_nodes
  input_nodes-Keeps i zero = search operation_rules
  input_nodes-Keeps i (suc n) = Keeps-bind (operation_input i) _ (search operation_rules) λ index.
      Keeps-bind (get_input_node i) _ (search operation_rules) λ input.
        Keeps-bind (operand index) _ (search operation_rules) λ op.
          Keeps-bind (input_nodes (suc i) n) _ (input_nodes-Keeps (suc i) n) λ rest. Keeps-pure _

  pub create_concat-Keeps : Keeps c create_concat
  unfolding create_concat
  create_concat-Keeps = Keeps-bind operation_inputs_size _ (search operation_rules) by_size
    where
      concat_of : ℕ → Build Node
      concat_of n = do axis ← parse 4 n; inputs ← input_nodes 0 n; make (Op.concat axis) inputs

      by_size :
          (size : ℕ)
          → Keeps {A = Node} c (elim size [ zero ↦ fails undefined | suc n ↦ concat_of n ])
      by_size zero = search operation_rules
      by_size (suc n) = Keeps-bind (parse 4 n) _ (search operation_rules) λ axis.
          Keeps-bind (input_nodes 0 n) _ (input_nodes-Keeps 0 n) λ inputs. search operation_rules

  pub create_l2_normalization-Keeps : Keeps c create_l2_normalization
  unfolding create_l2_normalization
  create_l2_normalization-Keeps = search operation_rules depth 40

  pub create_softmax-Keeps : Keeps c create_softmax
  unfolding create_softmax
  create_softmax-Keeps = search operation_rules depth 40

  pub create_log_softmax-Keeps : Keeps c create_log_softmax
  unfolding create_log_softmax
  create_log_softmax-Keeps = search operation_rules depth 40

  pub create_pad-Keeps : Keeps c create_pad
  unfolding create_pad
  create_pad-Keeps = search operation_rules depth 40

  pub create_squeeze-Keeps : Keeps c create_squeeze
  unfolding create_squeeze
  create_squeeze-Keeps = search operation_rules depth 40

  pub create_transpose-Keeps : Keeps c create_transpose
  unfolding create_transpose
  create_transpose-Keeps = search operation_rules depth 40

  pub create_dequantize-Keeps : Keeps c create_dequantize
  unfolding create_dequantize
  create_dequantize-Keeps = search operation_rules depth 40

  pub connect_quantize-Keeps : Keeps c connect_quantize
  unfolding connect_quantize
  connect_quantize-Keeps = search operation_rules depth 40
