-- ===== src/Operations/Inputs/Frame.antt =====
-- OperationsBase.hpp and OperationsBase.cpp: what inputs and the default connection leave alone.
use nn_hal.Prelude.{ℕ, Bool, Option, none, some, String, ok-Ends}
use nn_hal.Types.{OperandType}
use nn_hal.ModelInfo.Model.{Operand}
use nn_hal.Graph.{Node, no_node, ElementType}
use nn_hal.NgraphNodes as N
use nn_hal.NgraphNodes.{NgraphNodes}
use nn_hal.NgraphNodes.Names.{get_node_name-outputs}
use nn_hal.NgraphNodes.Parameters.{remove_input_parameter-outputs}
use nn_hal.Build.{Context, Build}
use nn_hal.Build.Frame.{Extends-same, IsOutput, Keeps, Keeps-bind, Keeps-set_output, keeps_rules}
use nn_hal.Operations.Base.Frame.{
  get_input_operand_dimensions-Keeps, quantize_node-Keeps, dequantize_node-Keeps, base_rules,
}
use nn_hal.Operations.Inputs.{
  maybe_dequantize, const_input, graph_input, get_input_node_or_raw, name_of_node, remove_parameter,
  remove_input_node, apply_activation, quantize_output, add_if_output, set_default_output,
  connect_operation_to_graph,
}

module _ {c : Context} where
  maybe_dequantize-Keeps :
      (n : Node) (i : ℕ) (t : OperandType) (b : Bool) → Keeps c (maybe_dequantize n i t b)
  unfolding maybe_dequantize
  maybe_dequantize-Keeps n i t b = search (keeps_rules, dequantize_node-Keeps)

  const_input-Keeps :
      (j i : ℕ) (t : OperandType) (b : Bool) (o : Option (ElementType × ℕ))
      → Keeps c (const_input j i t b o)
  unfolding const_input
  const_input-Keeps j i t b none = search keeps_rules
  const_input-Keeps j i t b (some (element, size)) =
      search (keeps_rules, get_input_operand_dimensions-Keeps, maybe_dequantize-Keeps) depth 9

  graph_input-Keeps : (i : ℕ) (t : OperandType) (b : Bool) → Keeps c (graph_input i t b)
  unfolding graph_input
  graph_input-Keeps i t b = search (keeps_rules, maybe_dequantize-Keeps)

  pub get_input_node-Keeps : (j : ℕ) (b : Bool) → Keeps c (get_input_node_or_raw j b)
  unfolding get_input_node_or_raw
  get_input_node-Keeps j b = search (keeps_rules, const_input-Keeps, graph_input-Keeps) depth 9

  name_of_node-Keeps : (i : ℕ) → Keeps c (name_of_node i)
  name_of_node-Keeps i = record {
    at_state = λ s. record {
      at_end =
          λ r e. Extends-same (IsOutput c) s r.1 ((get_node_name-outputs c.ngraph s i).at_end r e);
    };
  }

  remove_parameter-Keeps : (name : String) (i : ℕ) → Keeps c (remove_parameter name i)
  remove_parameter-Keeps name i = record {
    at_state = λ s. ok-Ends _ (
        Extends-same (IsOutput c) s (N.remove_input_parameter c.ngraph s name i)
          (remove_input_parameter-outputs c.ngraph s name i));
  }

  pub remove_input_node-Keeps : (i : ℕ) → Keeps c (remove_input_node i)
  unfolding remove_input_node
  remove_input_node-Keeps i = search (keeps_rules, name_of_node-Keeps, remove_parameter-Keeps)

  pub apply_activation-Keeps : (n : Node) (fn : ℕ) → Keeps c (apply_activation n fn)
  unfolding apply_activation
  apply_activation-Keeps n fn = search keeps_rules depth 9

  quantize_output-Keeps :
      (n : Node) (i : ℕ) (o : Option ElementType) → Keeps c (quantize_output n i o)
  quantize_output-Keeps n i none = search keeps_rules
  quantize_output-Keeps n i (some t) = search quantize_node-Keeps

  pub add_if_output-Keeps : (op : Operand) (i : ℕ) (n : Node) → Keeps c (add_if_output op i n)
  add_if_output-Keeps op i n = search keeps_rules

  set_default_output-Keeps : (i : ℕ) (n : Node) → IsOutput c i → Keeps c (set_default_output i n)
  set_default_output-Keeps i no_node h = search keeps_rules
  set_default_output-Keeps i n h = search Keeps-set_output

  pub connect_operation_to_graph-Keeps :
      (create : Build Node) → Keeps c create → Keeps c (connect_operation_to_graph create)
  unfolding connect_operation_to_graph
  connect_operation_to_graph-Keeps create h =
      search (keeps_rules, quantize_output-Keeps, add_if_output-Keeps, set_default_output-Keeps)
        depth 12

pub ruleset operation_rules = (
  keeps_rules, base_rules, get_input_node-Keeps, remove_input_node-Keeps, apply_activation-Keeps,
  add_if_output-Keeps, connect_operation_to_graph-Keeps,
)
