-- ===== src/PreparedModel/Calls.antt =====
-- BasePreparedModel.cpp: execute, executeSynchronously and executeFenced, for every version. Whether a
-- request is valid, and what the deadline and the fences say, are parameters. A timing is known or not.
pub mod Agreement
pub mod Fences
pub mod Versions
use nn_hal.Prelude.{
  ℕ, Bool, true, false, not, List, [], ◌∷◌, ◌++◌, Option, none, some, ◌>>=◌, ok, fault, undefined,
  Result, if◌then◌else◌,
}
use nn_hal.Types.{
  ErrorStatus, general_failure, invalid_argument, output_insufficient_size,
  missed_deadline_persistent,
}
use nn_hal.Utils.Pools.{Os, History}
use nn_hal.ModelInfo.Model.{NnapiModelInfo, Request, OutputShape}
use nn_hal.ModelInfo.Requests.{
  MemoryPool, set_run_time_pool_infos, set_run_time_pool_infos_1_3, update_request_pool_infos,
}
use nn_hal.Graph.{Ngraph}
use nn_hal.PreparedModel.Execution.{Engine, Run, infer_request}

-- What a call reports: the status, the shapes, and whether the timing is measured (kNoTiming is not).
pub record Outcome : Type 0 where
  pub status : ErrorStatus
  pub output_shapes : List OutputShape
  pub timing : Bool

abbrev pub failed : ErrorStatus → Outcome
failed status = record { status = status; output_shapes = []; timing = false }

-- what a fence is: a null handle, or a descriptor
abbrev pub Fence : Type 0
Fence = Option ℕ

-- the loop over the fences; `signaled` is what syncWait says
unfoldable pub wait_for : (ℕ → Bool) → List Fence → ErrorStatus
wait_for signaled [] = ErrorStatus.none
wait_for signaled (none ∷ fences) = invalid_argument
wait_for signaled (some fd ∷ fences) =
    if signaled fd then wait_for signaled fences else general_failure

module _ (os : Os) where
  -- the end of executeSynchronouslyBase, by the status of the inference
  unfoldable pub finish_synchronously : Bool → Run → ErrorStatus → Result (Run × Outcome)
  finish_synchronously measure s ErrorStatus.none = do
    (updated, h) ← update_request_pool_infos os s.info.request_pool_infos s.history
    let s' = record s { history = h }
    if updated
        then ok (
          s',
          record {
            status = ErrorStatus.none;
            output_shapes = s.info.output_shapes;
            timing = measure;
          },
        )
        else ok (s', failed general_failure)
  finish_synchronously measure s output_insufficient_size = ok (
    s,
    record {
      status = output_insufficient_size;
      output_shapes = s.info.output_shapes;
      timing = false;
    },
  )
  finish_synchronously measure s status = ok (s, failed general_failure)

  -- the end of asyncExecute: a failed update is logged
  unfoldable pub finish_asynchronously : Bool → Run → ErrorStatus → Result (Run × List Outcome)
  finish_asynchronously measure s ErrorStatus.none = do
    (updated, h) ← update_request_pool_infos os s.info.request_pool_infos s.history
    ok (
      record s { history = h },
      record { status = ErrorStatus.none; output_shapes = s.info.output_shapes; timing = measure }
          ∷ [],
    )
  finish_asynchronously measure s output_insufficient_size = ok (
    s,
    record {
      status = output_insufficient_size;
      output_shapes = s.info.output_shapes;
      timing = false;
    }
        ∷ [],
  )
  finish_asynchronously measure s status = ok (s, failed general_failure ∷ [])

  -- the end of executeFenced: the status that the callback is given
  unfoldable pub finish_fenced : Run → ErrorStatus → Result (Run × ErrorStatus)
  finish_fenced s ErrorStatus.none = do
    (updated, h) ← update_request_pool_infos os s.info.request_pool_infos s.history
    ok (record s { history = h }, ErrorStatus.none)
  finish_fenced s status = ok (s, status)

-- what a thread that execute starts is given, for asyncExecute
pub record Thread : Type 0 where
  pub measure : Bool
  pub request : Request

-- executeBase: the status that is returned, the notifications until then, and the detached thread.
unfoldable pub execute_base :
    Bool → Bool → Bool → Request → ErrorStatus × List Outcome × Option Thread
execute_base callback valid measure request =
    if not callback
    then (invalid_argument, [], none)
    else if not valid
    then (invalid_argument, failed invalid_argument ∷ [], none)
    else (ErrorStatus.none, [], some (record { measure = measure; request = request }))

-- execute of 1.0 measures nothing
unfoldable pub execute : Bool → Bool → Request → ErrorStatus × List Outcome × Option Thread
unfolding execute_base
execute callback valid request = execute_base callback valid false request

module _ (os : Os) (g : Ngraph) (engine : Engine) where
  -- what follows the mapping of the pools, by its status
  unfoldable pub run_synchronously : Bool → Run → Request → ErrorStatus → Result (Run × Outcome)
  unfolding finish_synchronously
  run_synchronously measure s request ErrorStatus.none = do
    (s', inferred) ← infer_request g engine true s request
    finish_synchronously os measure s' inferred
  run_synchronously measure s request status = ok (s, failed general_failure)

  unfoldable pub execute_synchronously_base : Bool → Run → Request → Result (Run × Outcome)
  unfolding run_synchronously
  execute_synchronously_base measure s request = do
    (info, status, h) ← set_run_time_pool_infos os s.info request.pools s.history
    run_synchronously measure (record s { info = info; history = h }) request status

  -- executeSynchronously; `valid` is validateRequest
  unfoldable pub execute_synchronously : Bool → Bool → Run → Request → Result (Run × Outcome)
  unfolding execute_synchronously_base
  execute_synchronously valid measure s request =
      if not valid
      then ok (s, failed invalid_argument)
      else execute_synchronously_base measure s request

  -- what follows the mapping of the pools, by its status
  unfoldable pub run_asynchronously :
      Bool → Run → Request → ErrorStatus → Result (Run × List Outcome)
  unfolding finish_asynchronously
  run_asynchronously measure s request ErrorStatus.none = do
    (s', inferred) ← infer_request g engine true s request
    finish_asynchronously os measure s' inferred
  run_asynchronously measure s request status = ok (s, failed general_failure ∷ [])

  -- The list holds the notifications of the callback.
  unfoldable pub async_execute : Bool → Run → Request → Result (Run × List Outcome)
  unfolding run_asynchronously
  async_execute measure s request = do
    (info, status, h) ← set_run_time_pool_infos os s.info request.pools s.history
    run_asynchronously measure (record s { info = info; history = h }) request status

  -- What comes of a call of execute, with what it returned, if nothing else uses the prepared model
  -- until its thread has ended.
  unfoldable pub with_thread :
      Run → ErrorStatus × List Outcome × Option Thread → Result (Run × ErrorStatus × List Outcome)
  with_thread s (status, notified, none) = ok (s, status, notified)
  with_thread s (status, notified, some thread) = do
    (s', more) ← async_execute thread.measure s thread.request
    ok (s', status, notified ++ more)

  unfoldable pub execute_alone :
      Bool → Bool → Bool → Run → Request → Result (Run × ErrorStatus × List Outcome)
  unfolding execute_base with_thread
  execute_alone callback valid measure s request =
      with_thread s (execute_base callback valid measure request)

  -- from the pools of the V1_3 request on
  unfoldable pub fenced_request : Run → Request → List MemoryPool → Result (Run × ErrorStatus)
  unfolding finish_fenced
  fenced_request s request pools = do
    (info, status, h) ← set_run_time_pool_infos_1_3 os s.info pools s.history
    let s' = record s { info = info; history = h }
    elim status [
      | ErrorStatus.none ↦ (do
        (s'', inferred) ← infer_request g engine false s' request
        finish_fenced os s'' inferred)
      | e ↦ ok (s', e)
    ]

  -- `missed` is hasDeadlinePassed
  unfoldable pub execute_fenced :
      Bool
      → Bool
      → (ℕ → Bool)
      → List Fence
      → Run
      → Request
      → List MemoryPool
      → Result (Run × ErrorStatus)
  unfolding wait_for fenced_request
  execute_fenced valid missed signaled fences s request pools =
      if not valid
      then ok (s, invalid_argument)
      else if missed
      then ok (s, missed_deadline_persistent)
      else elim (wait_for signaled fences) [
        | ErrorStatus.none ↦ fenced_request s request pools
        | e ↦ ok (s, e)
      ]
