-- ===== src/PreparedModel/Session/Order.antt =====
-- BasePreparedModel.cpp: what every call of a client keeps, and the inference request with it.
use nn_hal.Prelude.{
  ℕ, Bool, true, false, not, List, [], ◌≡◌, refl, ◌∙◌, ap, ok, Result, Ends, ok-Ends, if-Ends,
  then-Ends, after-Ends,
}
use nn_hal.Types.{ErrorStatus, output_insufficient_size}
use nn_hal.Utils.Pools.{Os}
use nn_hal.ModelInfo.Model.{Model, Request}
use nn_hal.ModelInfo.Requests.{
  MemoryPool, set_run_time_pool_infos, set_run_time_pool_infos_1_3, update_request_pool_infos,
}
use nn_hal.Graph.{Ngraph}
use nn_hal.PreparedModel.Execution.{Transfer, Engine, Run, infer_request}
use nn_hal.PreparedModel.Calls.{
  Fence, finish_synchronously, finish_asynchronously, finish_fenced, run_synchronously,
  run_asynchronously, execute_synchronously_base, execute_synchronously, async_execute,
  execute_base, with_thread, execute_alone, fenced_request, wait_for, execute_fenced,
}
use nn_hal.PreparedModel.Session.{
  Step, executes, executes_synchronously, executes_fenced, Reachable, here, next, phase, loading,
}
use nn_hal.PreparedModel.Session.Frame.{
  frame, fixed, set_run_time_pool_infos-fixed, set_run_time_pool_infos_1_3-fixed,
}
use nn_hal.PreparedModel.Session.Inference.{IsAccepted, infer_request-IsServing}

none-Ends {ℓ κ} :
    {A : Type ℓ} {P : A → Type κ} (status : ErrorStatus) (m : Result A) (n : ErrorStatus → Result A)
    → Ends P m
    → ((e : ErrorStatus) → Ends P (n e))
    → Ends P (elim status [ ErrorStatus.none ↦ m | e ↦ n e ])
none-Ends ErrorStatus.none m n hm hn = hm
none-Ends status m n hm hn = hn status

module _ (os : Os) (g : Ngraph) (engine : Engine) (x : Model × ℕ × ℕ)
    (in_time : (ts : List Transfer) → engine.ends_in_time ts ≡ true) where
  -- The model and the sizes are `x`, and the inference request was used in its order.
  abbrev IsSteady : Run → Type 0
  IsSteady s = (fixed s.info ≡ x) × IsAccepted s.transfers

  finish_synchronously-IsSteady :
      (measure : Bool) (s : Run) (status : ErrorStatus)
      → IsSteady s
      → Ends (λ r. IsSteady r.0) (finish_synchronously os measure s status)
  unfolding finish_synchronously
  finish_synchronously-IsSteady measure s ErrorStatus.none h =
      after-Ends (update_request_pool_infos os s.info.request_pool_infos s.history)
        λ (done, l) _. if-Ends done _ _ (λ _. ok-Ends _ h) (λ _. ok-Ends _ h)
  finish_synchronously-IsSteady measure s output_insufficient_size h = ok-Ends _ h
  finish_synchronously-IsSteady measure s status h = ok-Ends _ h

  finish_asynchronously-IsSteady :
      (measure : Bool) (s : Run) (status : ErrorStatus)
      → IsSteady s
      → Ends (λ r. IsSteady r.0) (finish_asynchronously os measure s status)
  unfolding finish_asynchronously
  finish_asynchronously-IsSteady measure s ErrorStatus.none h =
      after-Ends (update_request_pool_infos os s.info.request_pool_infos s.history)
        λ (done, l) _. ok-Ends _ h
  finish_asynchronously-IsSteady measure s output_insufficient_size h = ok-Ends _ h
  finish_asynchronously-IsSteady measure s status h = ok-Ends _ h

  finish_fenced-IsSteady :
      (s : Run) (status : ErrorStatus)
      → IsSteady s
      → Ends (λ r. IsSteady r.0) (finish_fenced os s status)
  unfolding finish_fenced
  finish_fenced-IsSteady s ErrorStatus.none h =
      after-Ends (update_request_pool_infos os s.info.request_pool_infos s.history)
        λ (done, l) _. ok-Ends _ h
  finish_fenced-IsSteady s status h = ok-Ends _ h

  infer_request-IsSteady :
      (with_test : Bool) (s : Run) (request : Request)
      → IsSteady s
      → Ends (λ r. IsSteady r.0) (infer_request g engine with_test s request)
  infer_request-IsSteady with_test s request (e, order) = record {
    at_end = λ r er.
        let (same, order') =
          (infer_request-IsServing g engine (frame s.info) in_time with_test s request
              (refl, order)).at_end
            r er in
        (ap (λ y. (y.0, y.1, y.2)) same ∙ e, order');
  }

  run_synchronously-IsSteady :
      (measure : Bool) (s : Run) (request : Request) (status : ErrorStatus)
      → IsSteady s
      → Ends (λ r. IsSteady r.0) (run_synchronously os g engine measure s request status)
  unfolding run_synchronously
  run_synchronously-IsSteady measure s request ErrorStatus.none h =
      then-Ends (infer_request g engine true s request) (infer_request-IsSteady true s request h)
        λ (s', status) h'. finish_synchronously-IsSteady measure s' status h'
  run_synchronously-IsSteady measure s request status h = ok-Ends _ h

  run_asynchronously-IsSteady :
      (measure : Bool) (s : Run) (request : Request) (status : ErrorStatus)
      → IsSteady s
      → Ends (λ r. IsSteady r.0) (run_asynchronously os g engine measure s request status)
  unfolding run_asynchronously
  run_asynchronously-IsSteady measure s request ErrorStatus.none h =
      then-Ends (infer_request g engine true s request) (infer_request-IsSteady true s request h)
        λ (s', status) h'. finish_asynchronously-IsSteady measure s' status h'
  run_asynchronously-IsSteady measure s request status h = ok-Ends _ h

  execute_synchronously-IsSteady :
      (valid measure : Bool) (s : Run) (request : Request)
      → IsSteady s
      → Ends (λ r. IsSteady r.0) (execute_synchronously os g engine valid measure s request)
  unfolding execute_synchronously execute_synchronously_base
  execute_synchronously-IsSteady valid measure s request (e, order) =
      if-Ends (not valid) _ _ (λ _. ok-Ends _ (e, order))
        (λ _.
          then-Ends (set_run_time_pool_infos os s.info request.pools s.history)
            (set_run_time_pool_infos-fixed os s.info request.pools s.history)
            λ (info, status, l) same.
              run_synchronously-IsSteady measure (record s { info = info; history = l }) request
                status (same ∙ e, order))

  async_execute-IsSteady :
      (measure : Bool) (s : Run) (request : Request)
      → IsSteady s
      → Ends (λ r. IsSteady r.0) (async_execute os g engine measure s request)
  unfolding async_execute
  async_execute-IsSteady measure s request (e, order) =
      then-Ends (set_run_time_pool_infos os s.info request.pools s.history)
        (set_run_time_pool_infos-fixed os s.info request.pools s.history)
        λ (info, status, l) same.
          run_asynchronously-IsSteady measure (record s { info = info; history = l }) request status
            (same ∙ e, order)

  execute_alone-IsSteady :
      (callback valid measure : Bool) (s : Run) (request : Request)
      → IsSteady s
      → Ends (λ r. IsSteady r.0) (execute_alone os g engine callback valid measure s request)
  unfolding execute_alone with_thread execute_base
  execute_alone-IsSteady false valid measure s request h = ok-Ends _ h
  execute_alone-IsSteady true false measure s request h = ok-Ends _ h
  execute_alone-IsSteady true true measure s request h =
      then-Ends (async_execute os g engine measure s request)
        (async_execute-IsSteady measure s request h) λ (s', more) h'. ok-Ends _ h'

  fenced_request-IsSteady :
      (s : Run) (request : Request) (pools : List MemoryPool)
      → IsSteady s
      → Ends (λ r. IsSteady r.0) (fenced_request os g engine s request pools)
  unfolding fenced_request
  fenced_request-IsSteady s request pools (e, order) =
      then-Ends (set_run_time_pool_infos_1_3 os s.info pools s.history)
        (set_run_time_pool_infos_1_3-fixed os s.info pools s.history)
        λ (info, status, l) same.
          let s' = record s { info = info; history = l } in
          none-Ends status _ (λ why. ok (s', why))
            (then-Ends (infer_request g engine false s' request)
              (infer_request-IsSteady false s' request (same ∙ e, order))
              λ (s'', inferred) h. finish_fenced-IsSteady s'' inferred h)
            (λ why. ok-Ends _ (same ∙ e, order))

  execute_fenced-IsSteady :
      (valid missed : Bool) (signaled : ℕ → Bool) (fences : List Fence) (s : Run)
      (request : Request) (pools : List MemoryPool)
      → IsSteady s
      → Ends
          (λ r. IsSteady r.0)
          (execute_fenced os g engine valid missed signaled fences s request pools)
  unfolding execute_fenced
  execute_fenced-IsSteady valid missed signaled fences s request pools h =
      if-Ends (not valid) _ _ (λ _. ok-Ends _ h)
        (λ _.
          if-Ends missed _ _ (λ _. ok-Ends _ h)
            (λ _.
              none-Ends (wait_for signaled fences) _ (λ why. ok (s, why))
                (fenced_request-IsSteady s request pools h) (λ why. ok-Ends _ h)))

  Step-IsSteady : {s s' : Run} → Step os g engine s s' → IsSteady s → IsSteady s'
  Step-IsSteady {s = s} (executes callback valid measure request status notified e) h =
      (execute_alone-IsSteady callback valid measure s request h).at_end _ e
  Step-IsSteady {s = s} (executes_synchronously valid measure request o e) h =
      (execute_synchronously-IsSteady valid measure s request h).at_end _ e
  Step-IsSteady {s = s} (executes_fenced valid missed signaled fences request pools status e) h =
      (execute_fenced-IsSteady valid missed signaled fences s request pools h).at_end _ e

  Reachable-IsSteady : {s s' : Run} → Reachable os g engine s s' → IsSteady s → IsSteady s'
  Reachable-IsSteady here h = h
  Reachable-IsSteady (next r step) h = Step-IsSteady step (Reachable-IsSteady r h)

-- For a client that waits, after each call of execute, until its thread has ended, and a plugin whose
-- inferences end in the time that Wait has: after any sequence of calls, synchronous, asynchronous and
-- fenced, whatever their arguments and their statuses, the model, and the numbers of the run-time
-- operands and of the output shapes, are those that the prepared model began with, and the inference
-- request was used in its order, so that every output was read after an inference that had ended, with
-- no change of an input in between.
pub Reachable-IsAccepted :
    (os : Os) (g : Ngraph) (engine : Engine) (s s' : Run)
    → ((ts : List Transfer) → engine.ends_in_time ts ≡ true)
    → s.transfers ≡ []
    → Reachable os g engine s s'
    → (fixed s'.info ≡ fixed s.info) × IsAccepted s'.transfers
unfolding phase
Reachable-IsAccepted os g engine s s' in_time e r =
    Reachable-IsSteady os g engine (fixed s.info) in_time r (refl, (loading, ap phase e))
