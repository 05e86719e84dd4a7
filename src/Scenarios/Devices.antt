-- ===== src/Scenarios/Devices.antt =====
-- Tests of the theorems on Driver.cpp.
use nn_hal.NgraphNodes.{
  set_result_node, get_operation_output as node_at, ngraph_nodes, set_invalid_node, add_input_param,
  set_output_at_operand_index,
}
use nn_hal.Graph.{make_node}
use nn_hal.ModelInfo.Memory.{
  is_operand_life_time_const, get_operation_input, get_operation_output, get_operand,
}
use nn_hal.PreparedModel.{load_network, load_plugin, cpu_initialize, base_prepared_model}
use nn_hal.Operations.Inputs.{get_input_node_or_raw, connect_operation_to_graph}
use nn_hal.NetworkCreator.{
  param_element, generate_graph, validate_operations, ngraph_network_creator, is_supported,
  get_supported_operations, operation_node,
}
use nn_hal.ModelInfo.Runtime.{
  initial_shapes, runtime_operand, runtime_operands, initialize_run_time_operand_info, map_pools,
  init_runtime_info,
}
use nn_hal.ModelInfo.Model.{nnapi_model_info}
use nn_hal.Operations.Factory.{get_operation}
use nn_hal.Prelude.{
  arith, ℕ, ◌≡◌, ◌⊎◌, refl, true, false, List, [], ◌∷◌, none, ok, fault, undefined, Result, length,
  All,
}
use nn_hal.Types.{ErrorStatus, invalid_argument, IntelDeviceType, OperandType}
use nn_hal.Driver.{
  Prepared, Notification, model_factory, prepare_model_1_1, prepare_model_1_2, prepare_model_1_3,
  get_supported_operations_1_2, sized, initialize,
}
use nn_hal.Driver.Contract.{
  NotifiesOnce, prepare_model_1_3-NotifiesOnce, prepare_model_1_2-NotifiesOnce,
  prepare_model_1_3_lem,
}
use nn_hal.Driver.Supported.{length-get_supported_operations_1_2, IsAnswered}
use nn_hal.Driver.Capabilities.{
  non_extension_operand_performance, performance, get_capabilities_1_3,
}
use nn_hal.Driver.Capabilities.Order.{IsSorted, IsEntry, non_extension_operand_performance-IsSorted}
use nn_hal.Driver.Capabilities.Versions.{get_capabilities_1_2}
use nn_hal.Driver.Capabilities.Versions.Agreement.{
  older as older_capabilities, get_capabilities_1_2-get_capabilities_1_3,
}
use nn_hal.Scenarios.Sample.{model, platform}

abbrev prepared_of : Result Prepared → Prepared
prepared_of (ok r) = r
prepared_of (fault e) = (invalid_argument, [], [])

abbrev prepared : Prepared
prepared =
    prepared_of (prepare_model_1_3 platform IntelDeviceType.cpu (λ m. true) model true true true [])

prepare_model_1_3-NotifiesOnce_example : NotifiesOnce prepared.1
unfolding prepare_model_1_3 initialize base_prepared_model cpu_initialize init_runtime_info
    map_pools nnapi_model_info initialize_run_time_operand_info runtime_operands runtime_operand
    initial_shapes ngraph_network_creator operation_node get_operation validate_operations
    is_supported generate_graph get_operand param_element set_output_at_operand_index
    connect_operation_to_graph get_input_node_or_raw load_plugin load_network add_input_param
    set_invalid_node ngraph_nodes get_operation_output get_operation_input
    is_operand_life_time_const node_at make_node set_result_node
prepare_model_1_3-NotifiesOnce_example =
    prepare_model_1_3-NotifiesOnce platform IntelDeviceType.cpu (λ m. true) model true true []
      prepared refl

-- a device that has no prepared model
prepare_model_1_2-NotifiesOnce_example :
    NotifiesOnce []
    ⊎ ((invalid_argument ≡ invalid_argument)
        × (◌≡◌ {A = List Notification} [] [])
        × ((true ≡ false) ⊎ (model_factory IntelDeviceType.vpu model ≡ none)))
unfolding prepare_model_1_2
prepare_model_1_2-NotifiesOnce_example =
    prepare_model_1_2-NotifiesOnce platform IntelDeviceType.vpu (λ m. true) (λ m. m) model true true
      [] (invalid_argument, [], []) refl

-- a model of an older version, as its number
abbrev newer : Result Prepared
newer = prepare_model_1_3 platform IntelDeviceType.gpu (λ m. true) model true true true []

abbrev older : Result Prepared
older = prepare_model_1_2 platform IntelDeviceType.gpu (λ (n : ℕ). true) (λ n. model) 5 true true []

prepare_model_1_3_lem_example :
    (prepare_model_1_1 platform IntelDeviceType.gpu (λ (n : ℕ). true) (λ n. model) 5 true true []
      ≡ older)
    × ((newer ≡ older)
        ⊎ ((true ≡ true)
            × (true ≡ true)
            × (true ≡ true)
            × (model_factory IntelDeviceType.gpu model ≡ none)
            × (older ≡ ok (invalid_argument, [], []))
            × (newer ≡ fault undefined)))
prepare_model_1_3_lem_example =
    prepare_model_1_3_lem platform IntelDeviceType.gpu (λ n. true) (λ m. true) (λ n. model) 5 true
      true true [] refl

length-get_supported_operations_1_2_example :
    (length (true ∷ []) ≡ length model.operations)
    × IsAnswered platform IntelDeviceType.cpu
        (λ m. true)
        (λ m. m)
        model
        ErrorStatus.none
        (true ∷ [])
unfolding get_supported_operations_1_2 sized ngraph_network_creator nnapi_model_info operation_node
    get_operation get_supported_operations is_supported
length-get_supported_operations_1_2_example =
    length-get_supported_operations_1_2 platform IntelDeviceType.cpu (λ m. true) (λ m. m) model
      ErrorStatus.none (true ∷ []) (omega arith) refl

abbrev number : OperandType → ℕ
number OperandType.float32 = 0
number OperandType.int32 = 1
number type = 9

non_extension_operand_performance-IsSorted_example :
    IsSorted number (
      non_extension_operand_performance number
        (OperandType.int32 ∷ OperandType.subgraph ∷ OperandType.float32 ∷ [])
        (performance 90 90))
    × All (IsEntry (performance 90 90)) (
        non_extension_operand_performance number
          (OperandType.int32 ∷ OperandType.subgraph ∷ OperandType.float32 ∷ [])
          (performance 90 90))
non_extension_operand_performance-IsSorted_example =
    non_extension_operand_performance-IsSorted number
      (OperandType.int32 ∷ OperandType.subgraph ∷ OperandType.float32 ∷ []) (performance 90 90)

abbrev all_types : List OperandType
all_types = OperandType.int32 ∷ OperandType.subgraph ∷ OperandType.float32 ∷ []

get_capabilities_1_2-get_capabilities_1_3_example :
    get_capabilities_1_2 number (OperandType.int32 ∷ OperandType.float32 ∷ []) IntelDeviceType.gpu
    ≡ (
      (get_capabilities_1_3 number all_types IntelDeviceType.gpu).0,
      older_capabilities (get_capabilities_1_3 number all_types IntelDeviceType.gpu).1,
    )
get_capabilities_1_2-get_capabilities_1_3_example =
    get_capabilities_1_2-get_capabilities_1_3 number all_types IntelDeviceType.gpu
