-- ===== src/Scenarios/Requests.antt =====
-- Tests of the theorems on BasePreparedModel.cpp.
use nn_hal.ModelInfo.Runtime.{map_pools}
use nn_hal.Prelude.{
  ◌≡◌, refl, arith, ◌*◌, ◌^◌, ◌<◌, true, List, [], ◌∷◌, ok, fault, Result, String, map,
}
use nn_hal.Types.{ErrorStatus, invalid_argument}
use nn_hal.ModelInfo.Memory.{get_operand_type}
use nn_hal.ModelInfo.Requests.{
  get_blob_from_memory_pool_in, get_blob_from_memory_pool_out, update_outputshapes,
  set_run_time_pool_infos, update_request_pool_infos,
}
use nn_hal.Utils.Pools.{set, update}
use nn_hal.NgraphNodes.{get_node_name}
use nn_hal.PreparedModel.Execution.{
  Run, conversion, size, Blob, Transfer, infer_request, shape_dims, actual_length,
}
use nn_hal.PreparedModel.Execution.Areas.{IsContained}
use nn_hal.PreparedModel.Execution.Stores.{infer_request-IsContained}
use nn_hal.PreparedModel.Calls.{Outcome, failed, execute_synchronously, execute_alone}
use nn_hal.PreparedModel.Calls.Agreement.{execute_base-execute_synchronously}
use nn_hal.Prelude.Int.{pos}
use nn_hal.Prelude.Floats.{float_of_int, binary32}
use nn_hal.PreparedModel.Casts.{float_to_uint8, float_to_int8, cast_values}
use nn_hal.PreparedModel.Casts.Bytes.{int8, cast_values-bytes}
use nn_hal.Scenarios.Sample.{ngraph, engine, request, run, pool, os}

abbrev run_of : Result (Run × ErrorStatus) → Run
run_of (ok (s, status)) = s
run_of (fault e) = run

abbrev run_after : Run
run_after = run_of (infer_request ngraph engine true run request)

sample_floats :
    (ts : List Transfer) (name : String) (b : Blob)
    → engine.blob ts name ≡ ok b
    → (b.byte_size ≡ 4 * size b) × (b.byte_size < 2 ^ 32)
sample_floats ts name b e = ground arith

infer_request-IsContained_example : IsContained (pool ∷ []) request run_after
unfolding infer_request get_blob_from_memory_pool_in get_blob_from_memory_pool_out
    update_outputshapes get_operand_type get_node_name IsContained shape_dims actual_length
    conversion
infer_request-IsContained_example =
    infer_request-IsContained ngraph engine (pool ∷ []) request sample_floats true run run_after
      ErrorStatus.none (refl, tt) refl

abbrev outcome_of : Result (Run × Outcome) → Run × Outcome
outcome_of (ok r) = r
outcome_of (fault e) = (run, failed invalid_argument)

abbrev synchronous : Run × Outcome
synchronous = outcome_of (execute_synchronously os ngraph engine true true run request)

execute_base-execute_synchronously_example :
    execute_alone os ngraph engine true true true run request
    ≡ ok (synchronous.0, ErrorStatus.none, synchronous.1 ∷ [])
unfolding execute_synchronously infer_request get_blob_from_memory_pool_in
    get_blob_from_memory_pool_out update_outputshapes get_operand_type get_node_name shape_dims
    actual_length set_run_time_pool_infos set update_request_pool_infos update map_pools conversion
execute_base-execute_synchronously_example =
    execute_base-execute_synchronously os ngraph engine true true run synchronous.0 request
      synchronous.1 refl

cast_values-bytes_example :
    (cast_values float_to_uint8 (map (λ b. float_of_int binary32 (pos b)) (0 ∷ 200 ∷ []))
      ≡ ok (0 ∷ 200 ∷ []))
    × (cast_values float_to_int8 (map (λ b. float_of_int binary32 (int8 b)) (0 ∷ 200 ∷ []))
        ≡ ok (0 ∷ 200 ∷ []))
cast_values-bytes_example = cast_values-bytes (0 ∷ 200 ∷ []) (omega arith, (omega arith, tt))
