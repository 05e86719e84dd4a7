-- ===== src/Scenarios/Sessions.antt =====
-- Tests of the theorems on the requests that a client makes of a prepared model.
use nn_hal.ModelInfo.Runtime.{map_pools}
use nn_hal.Prelude.{
  if◌then◌else◌, Option, none, ◌>>=◌, ℕ, some, List, String, ◌≡◌, refl, true, [], ◌∷◌, ok, fault,
  Result, ◌⊎◌, ◌==◌, All, false,
}
use nn_hal.Types.{ErrorStatus, invalid_argument, general_failure}
use nn_hal.ModelInfo.Memory.{get_operand_type}
use nn_hal.ModelInfo.Requests.{
  get_blob_from_memory_pool_in, get_blob_from_memory_pool_out, update_outputshapes,
  set_run_time_pool_infos, update_request_pool_infos,
}
use nn_hal.Utils.Pools.{set, update}
use nn_hal.NgraphNodes.{get_node_name}
use nn_hal.PreparedModel.Execution.{
  load_inputs, run_inference, store_outputs, Transfer, conversion, Run, infer_request, shape_dims,
  actual_length,
}
use nn_hal.PreparedModel.Calls.{
  Outcome, failed, execute_synchronously, Fence, execute_fenced, wait_for,
}
use nn_hal.PreparedModel.Session.{
  Phase, phase, loading, Reachable, here, next, executes_synchronously,
}
use nn_hal.PreparedModel.Session.Frame.{fixed}
use nn_hal.PreparedModel.Session.Inference.{IsAccepted}
use nn_hal.PreparedModel.Session.Order.{Reachable-IsAccepted}
use nn_hal.PreparedModel.Calls.Fences.{IsSignaled, execute_fenced_lem}
use nn_hal.Scenarios.Sample.{ngraph, engine, request, run, os}

abbrev outcome_of : Result (Run × Outcome) → Run × Outcome
outcome_of (ok r) = r
outcome_of (fault e) = (run, failed invalid_argument)

abbrev after_one : Run × Outcome
after_one = outcome_of (execute_synchronously os ngraph engine true true run request)

one_request : Reachable os ngraph engine run after_one.0
unfolding execute_synchronously infer_request get_blob_from_memory_pool_in
    get_blob_from_memory_pool_out update_outputshapes get_operand_type get_node_name shape_dims
    actual_length set_run_time_pool_infos set update_request_pool_infos update map_pools conversion
one_request = next here (executes_synchronously true true request after_one.1 refl)

Reachable-IsAccepted_example :
    (fixed after_one.0.info ≡ fixed run.info) × IsAccepted after_one.0.transfers
Reachable-IsAccepted_example =
    Reachable-IsAccepted os ngraph engine run after_one.0 (λ ts. refl) refl one_request

abbrev called : ℕ → String
called i = if i == 0 then "input" else if i == 1 then "output" else ""

abbrev fences : List Fence
fences = some 5 ∷ some 6 ∷ []

-- the second fence is not signaled
execute_fenced_lem_example :
    ((true ≡ true) × (false ≡ false) × All (IsSignaled (λ fd. fd == 5)) fences)
    ⊎ ((run ≡ run) × ¬ (general_failure ≡ ErrorStatus.none))
unfolding execute_fenced wait_for
execute_fenced_lem_example =
    execute_fenced_lem os ngraph engine true false (λ fd. fd == 5) fences run run request []
      general_failure refl

-- The steps of two threads of execute that overlap: the second loads its inputs after the inference of
-- the first, and before the first has stored its outputs.
abbrev overlapped : Result (List Transfer)
overlapped = do
  s1 ← load_inputs ngraph engine run request 0 request.inputs
  (s2, done) ← run_inference ngraph engine s1 none
  s3 ← load_inputs ngraph engine s2 request 0 request.inputs
  (s4, stored) ← store_outputs ngraph engine true s3 request 0 request.outputs
  ok s4.transfers

abbrev phase_of : Result (List Transfer) → Option Phase
phase_of (ok ts) = phase ts
phase_of (fault e) = some loading

overlapped_lem : phase_of overlapped ≡ none
unfolding phase load_inputs run_inference store_outputs get_blob_from_memory_pool_in
    get_blob_from_memory_pool_out update_outputshapes get_operand_type get_node_name shape_dims
    actual_length conversion
overlapped_lem = refl
