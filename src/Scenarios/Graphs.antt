-- ===== src/Scenarios/Graphs.antt =====
-- Tests of the theorems on NgraphNodes.cpp and NgraphNetworkCreator.cpp.
use nn_hal.Prelude.{◌⊎◌, ℕ, ◌≡◌, refl, true, false, [], ◌∷◌, none, some, ok, ◌==◌, if◌then◌else◌}
use nn_hal.Types.{OperandLifeTime, IntelDeviceType}
use nn_hal.Graph.{Node, no_node, parameter, ElementType}
use nn_hal.NgraphNodes.{
  NgraphNodes, get_node_name, remove_input_parameter, set_output_at_operand_index, add_input_param,
  set_invalid_node, put_name,
}
use nn_hal.NgraphNodes.Calls.{get_node_name_again, none, then_call, removes}
use nn_hal.NgraphNodes.Parameters.{remove_input_parameter_lem, without_name, has_name}
use nn_hal.ModelInfo.Memory.{get_operand}
use nn_hal.Operations.Factory.{unconditional}
use nn_hal.Operations.Elementwise.{create_relu}
use nn_hal.NetworkCreator.{
  NgraphNetworkCreator, with_operations, is_supported, create_input_params, param_element,
  get_supported_operations, validate_operations,
}
use nn_hal.NetworkCreator.Parameters.{
  create_input_params-IsParameter, create_input_params-get_node_name, IsParameter,
}
use nn_hal.NetworkCreator.Support.{validate_operations_lem, all_true}
use nn_hal.ModelInfo.Model.{Model}
use nn_hal.Scenarios.Sample.{relu, model, plain_info, ngraph, tensor}

abbrev input_node : Node
input_node = parameter 0 ElementType.f32 (2 ∷ 3 ∷ [])

-- the graph of the model after createInputParams
abbrev with_inputs : NgraphNodes
with_inputs = record {
  output_at_operand_index = input_node ∷ no_node ∷ no_node ∷ no_node ∷ [];
  input_params = input_node ∷ [];
  result_nodes = [];
  node_names = λ j. if 2 == j then some "" else none;
}

abbrev empty_graph : NgraphNodes
empty_graph = record {
  output_at_operand_index = no_node ∷ no_node ∷ no_node ∷ no_node ∷ [];
  input_params = [];
  result_nodes = [];
  node_names = λ j. none;
}

create_input_params-IsParameter_example :
    IsParameter with_inputs 0 (tensor (2 ∷ 3 ∷ []) OperandLifeTime.subgraph_input)
unfolding get_operand create_input_params param_element set_output_at_operand_index add_input_param
    set_invalid_node
create_input_params-IsParameter_example =
    create_input_params-IsParameter plain_info 0 0 empty_graph with_inputs
      (tensor (2 ∷ 3 ∷ []) OperandLifeTime.subgraph_input) refl refl refl refl

create_input_params-get_node_name_example :
    get_node_name ngraph with_inputs 2 ≡ ok ("", with_inputs)
unfolding get_operand create_input_params param_element set_output_at_operand_index add_input_param
    set_invalid_node
create_input_params-get_node_name_example =
    create_input_params-get_node_name plain_info ngraph 1 2 empty_graph with_inputs
      (tensor [] OperandLifeTime.subgraph_input) refl refl refl refl

-- a graph of a RELU, and an operation that is not known
abbrev two_operations : Model
two_operations = record model { operations = relu ∷ relu ∷ [] }

abbrev creator : NgraphNetworkCreator
creator =
    with_operations ngraph (λ a. 0) (record plain_info { model = two_operations })
      IntelDeviceType.cpu (some (unconditional create_relu) ∷ none ∷ [])

validate_operations_lem_example : validate_operations creator ≡ ok (all_true (true ∷ false ∷ []))
unfolding get_supported_operations is_supported
validate_operations_lem_example =
    validate_operations_lem creator (true ∷ true ∷ []) (true ∷ false ∷ []) refl refl

-- the name of the first input, and then the removal of its parameter
abbrev asked : NgraphNodes
asked = put_name with_inputs 0 "node"

abbrev removed : NgraphNodes
removed = remove_input_parameter ngraph asked "node" 0

get_node_name_again_example :
    (get_node_name ngraph removed 0 ≡ ok ("node", removed))
    ⊎ (get_node_name ngraph removed 0 ≡ ok ("", removed))
unfolding get_node_name
get_node_name_again_example =
    get_node_name_again ngraph with_inputs asked removed 0 "node" refl
      (then_call none (removes "node" 0 refl))

remove_input_parameter_lem_example :
    let t = remove_input_parameter ngraph with_inputs "node" 0 in
    (t.input_params ≡ without_name ngraph "node" with_inputs.input_params)
    × ((j : ℕ)
        → t.node_names j ≡ (
            if 0 == j
            then (if has_name ngraph "node" with_inputs.input_params
                then some ""
                else with_inputs.node_names j)
            else with_inputs.node_names j))
    × (t.output_at_operand_index ≡ with_inputs.output_at_operand_index)
    × (t.result_nodes ≡ with_inputs.result_nodes)
remove_input_parameter_lem_example = remove_input_parameter_lem ngraph with_inputs "node" 0 (tt, tt)
