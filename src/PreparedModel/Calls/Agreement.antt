-- ===== src/PreparedModel/Calls/Agreement.antt =====
-- BasePreparedModel.cpp: what execute reports through its callback against executeSynchronously.
use nn_hal.Prelude.{
  Bool, true, false, List, [], ◌∷◌, ◌≡◌, refl, arith, ◌>>=◌, >>=-eq-ok, ok, fault, Result, Fault,
  if◌then◌else◌, ◌⊎◌, inl, inr,
}
use nn_hal.Types.{ErrorStatus, invalid_argument}
use nn_hal.Utils.Pools.{Os, History, RunTimePoolInfo, update}
use nn_hal.ModelInfo.Model.{Request}
use nn_hal.ModelInfo.Requests.{update_request_pool_infos, set_run_time_pool_infos}
use nn_hal.Graph.{Ngraph}
use nn_hal.PreparedModel.Execution.{Engine, Run, infer_request}
use nn_hal.PreparedModel.Calls.{
  Outcome, finish_synchronously, finish_asynchronously, run_synchronously, run_asynchronously,
  execute_synchronously_base, async_execute, execute_base, with_thread, execute_alone,
  execute_synchronously,
}

-- The loop returns true, or faults.
abbrev IsTrueOrFault : Result (Bool × History) → Type 0
IsTrueOrFault m = ((h : History) × (m ≡ ok (true, h))) ⊎ ((f : Fault) × (m ≡ fault f))

after_update :
    (os : Os) (rs : List RunTimePoolInfo) (m : Result (Bool × History))
    → ((h : History) → IsTrueOrFault (update_request_pool_infos os rs h))
    → IsTrueOrFault (m >>= λ (done, h'). update_request_pool_infos os rs h')
after_update os rs (ok (done, h')) rest = rest h'
after_update os rs (fault f) rest = inr (f, refl)

update_cases :
    (os : Os) (rs : List RunTimePoolInfo) (h : History)
    → IsTrueOrFault (update_request_pool_infos os rs h)
unfolding update_request_pool_infos
update_cases os [] h = inl (h, refl)
update_cases os (r ∷ rs) h = after_update os rs (update os r h) (update_cases os rs)

finish_lem :
    (os : Os) (measure : Bool) (s s' : Run) (status : ErrorStatus) (o : Outcome)
    → finish_synchronously os measure s status ≡ ok (s', o)
    → finish_asynchronously os measure s status ≡ ok (s', o ∷ [])
unfolding finish_synchronously finish_asynchronously
finish_lem os measure s s' ErrorStatus.none o e =
    elim (update_cases os s.info.request_pool_infos s.history) [
      | inl (h', hu) ↦ ground arith
      | inr (f, hf) ↦ ground arith
    ]
finish_lem os measure s s' ErrorStatus.output_insufficient_size o e = ground arith
finish_lem os measure s s' status o e = ground arith

run_lem :
    (os : Os) (g : Ngraph) (engine : Engine) (measure : Bool) (s s' : Run) (request : Request)
    (status : ErrorStatus) (o : Outcome)
    → run_synchronously os g engine measure s request status ≡ ok (s', o)
    → run_asynchronously os g engine measure s request status ≡ ok (s', o ∷ [])
unfolding run_synchronously run_asynchronously
run_lem os g engine measure s s' request ErrorStatus.none o e =
    let ((s'', inferred), hi, hf) =
      >>=-eq-ok (infer_request g engine true s request)
        (λ (x, inferred). finish_synchronously os measure x inferred) e in
    let finished = finish_lem os measure s'' s' inferred o hf in ground (arith, hi, finished)
run_lem os g engine measure s s' request status o e = ground arith

async_execute_lem :
    (os : Os) (g : Ngraph) (engine : Engine) (measure : Bool) (s s' : Run) (request : Request)
    (o : Outcome)
    → execute_synchronously_base os g engine measure s request ≡ ok (s', o)
    → async_execute os g engine measure s request ≡ ok (s', o ∷ [])
unfolding execute_synchronously_base async_execute
async_execute_lem os g engine measure s s' request o e =
    let ((info, status, h), hp, hr) =
      >>=-eq-ok (set_run_time_pool_infos os s.info request.pools s.history)
        (λ (info, status, h).
          run_synchronously os g engine measure (record s { info = info; history = h }) request
            status)
        e in
    let ran =
      run_lem os g engine measure (record s { info = info; history = h }) s' request status o hr in
    ground (arith, hp, ran)

-- Where nothing else uses the prepared model until execute's thread has ended: what
-- executeSynchronously reports is what execute notifies of, once, with the same effects; execute returns
-- NONE for a valid request, and INVALID_ARGUMENT for another.
pub execute_base-execute_synchronously :
    (os : Os) (g : Ngraph) (engine : Engine) (valid measure : Bool) (s s' : Run) (request : Request)
    (o : Outcome)
    → execute_synchronously os g engine valid measure s request ≡ ok (s', o)
    → execute_alone os g engine true valid measure s request
      ≡ ok (s', if valid then ErrorStatus.none else invalid_argument, o ∷ [])
unfolding execute_synchronously execute_alone with_thread execute_base
execute_base-execute_synchronously os g engine true measure s s' request o e =
    let same = async_execute_lem os g engine measure s s' request o e in ground (arith, same)
execute_base-execute_synchronously os g engine false measure s s' request o e = ground arith
