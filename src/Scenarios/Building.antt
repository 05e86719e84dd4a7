-- ===== src/Scenarios/Building.antt =====
-- Tests of the theorems on the connection of the operations to the graph.
use nn_hal.Prelude.{
  ok, ◌≡◌, IsSublist, at, zero, suc, refl, [], ◌∷◌, none, some, ◌==◌, if◌then◌else◌,
}
use nn_hal.Types.{OperandLifeTime, OperationType, IntelDeviceType}
use nn_hal.Graph.{Node, no_node, parameter, call, node, end, Op, ElementType, make_node}
use nn_hal.NgraphNodes.{
  NgraphNodes, ngraph_nodes, set_output_at_operand_index, add_input_param, set_invalid_node,
  get_operation_output, set_result_node,
}
use nn_hal.ModelInfo.Memory.{
  get_operand, get_operation_input, is_operand_life_time_const,
  get_operation_output as operation_output_of,
}
use nn_hal.Build.Frame.{Extends, IsOutput}
use nn_hal.Operations.Factory.{get_operation, unconditional}
use nn_hal.Operations.Factory.Frame.{get_operation-Extends}
use nn_hal.Operations.Elementwise.{create_relu}
use nn_hal.Operations.Inputs.{get_input_node_or_raw, connect_operation_to_graph}
use nn_hal.NetworkCreator.{
  NgraphNetworkCreator, with_operations, operation_node, ngraph_network_creator,
  create_input_params, param_element, context, initialize_model,
}
use nn_hal.NetworkCreator.Parameters.{IsParameter}
use nn_hal.NetworkCreator.Frame.{IsProduced, initialize_model-IsParameter}
use nn_hal.Scenarios.Sample.{plain_info, ngraph, tensor}

abbrev pub creator : NgraphNetworkCreator
creator =
    with_operations ngraph (λ a. 0) plain_info IntelDeviceType.cpu
      (some (unconditional create_relu) ∷ [])

abbrev input_node : Node
input_node = parameter 0 ElementType.f32 (2 ∷ 3 ∷ [])

abbrev relu_node : Node
relu_node = call Op.relu (node input_node end)

-- the graph of the model after createInputParams
abbrev pub before : NgraphNodes
before = record {
  output_at_operand_index = input_node ∷ no_node ∷ no_node ∷ no_node ∷ [];
  input_params = input_node ∷ [];
  result_nodes = [];
  node_names = λ j. if 2 == j then some "" else none;
}

-- and after the connection of its operation
abbrev after : NgraphNodes
after = record before {
  output_at_operand_index = input_node ∷ relu_node ∷ no_node ∷ no_node ∷ [];
  result_nodes = relu_node ∷ [];
}

get_operation-Extends_example : Extends (IsOutput (context creator 0)) before after
unfolding get_operation connect_operation_to_graph get_input_node_or_raw operation_output_of
    get_operation_input get_operand is_operand_life_time_const get_operation_output make_node
    set_output_at_operand_index set_result_node
get_operation-Extends_example =
    get_operation-Extends (context creator 0) OperationType.relu (unconditional create_relu) before
      after refl refl

input_is_free : ¬ IsProduced plain_info 0
unfolding operation_output_of
input_is_free (zero, zero, e) = absurd cc
input_is_free (zero, suc k, e) = absurd cc
input_is_free (suc operation, k, e) = absurd cc

initialize_model-IsParameter_example :
    (s : NgraphNodes) × (create_input_params plain_info creator.graph ≡ ok (some s))
    × IsParameter s 0 (tensor (2 ∷ 3 ∷ []) OperandLifeTime.subgraph_input)
    × (at after.output_at_operand_index 0 ≡ at s.output_at_operand_index 0)
    × IsSublist after.input_params s.input_params
unfolding get_operation connect_operation_to_graph get_input_node_or_raw operation_output_of
    get_operation_input get_operand is_operand_life_time_const get_operation_output make_node
    set_output_at_operand_index set_result_node operation_node ngraph_network_creator
    create_input_params param_element add_input_param set_invalid_node initialize_model ngraph_nodes
initialize_model-IsParameter_example =
    initialize_model-IsParameter ngraph (λ a. 0) plain_info IntelDeviceType.cpu creator 0 0 after
      (tensor (2 ∷ 3 ∷ []) OperandLifeTime.subgraph_input) refl refl refl refl input_is_free refl
