-- ===== src/PreparedModel/Session.antt =====
-- BasePreparedModel.cpp: the requests that a client makes of one prepared model, one after the other: it
-- waits for the notification of execute before its next call.
-- A request that ends in a fault ends the process.
pub mod Frame
pub mod Inference
pub mod Order
pub mod Pools
pub mod Answers
pub mod Liveness
use nn_hal.Prelude.{ℕ, Bool, true, false, List, [], ◌∷◌, ◌≡◌, Option, none, some, ok}
use nn_hal.Types.{ErrorStatus}
use nn_hal.Utils.Pools.{Os}
use nn_hal.ModelInfo.Model.{Request}
use nn_hal.ModelInfo.Requests.{MemoryPool}
use nn_hal.Graph.{Ngraph}
use nn_hal.PreparedModel.Execution.{Transfer, load, infer, store, Engine, Run}
use nn_hal.PreparedModel.Calls.{
  Outcome, Fence, execute_alone, execute_synchronously, execute_fenced,
}

-- What an inference request is ready for: more inputs, or also to give its outputs.
pub data Phase : Type 0 where
  loading inferred : Phase

abbrev pub after_load : Option Phase → Option Phase
after_load none = none
after_load (some p) = some loading

abbrev pub after_infer : Option Phase → Option Phase
after_infer none = none
after_infer (some p) = some inferred

abbrev pub after_store : Option Phase → Option Phase
after_store (some inferred) = some inferred
after_store p = none

-- The use of an inference request that makes sense, the last transfer first: an output is read after
-- an inference that has ended, with no change of an input in between.
unfoldable pub phase : List Transfer → Option Phase
phase [] = some loading
phase (load name address len wide ∷ ts) = after_load (phase ts)
phase (infer true ∷ ts) = after_infer (phase ts)
phase (infer false ∷ ts) = none
phase (store name address how len ∷ ts) = after_store (phase ts)

module _ (os : Os) (g : Ngraph) (engine : Engine) where
  -- one call of the client, whatever its arguments
  pub data Step (s s' : Run) : Type 0 where
    executes :
        (callback valid measure : Bool) (request : Request) (status : ErrorStatus)
        (notified : List Outcome)
        → execute_alone os g engine callback valid measure s request ≡ ok (s', status, notified)
        → Step s s'
    executes_synchronously :
        (valid measure : Bool) (request : Request) (o : Outcome)
        → execute_synchronously os g engine valid measure s request ≡ ok (s', o)
        → Step s s'
    executes_fenced :
        (valid missed : Bool) (signaled : ℕ → Bool) (fences : List Fence) (request : Request)
        (pools : List MemoryPool) (status : ErrorStatus)
        → execute_fenced os g engine valid missed signaled fences s request pools ≡ ok (s', status)
        → Step s s'

  pub data Reachable (s : Run) : Run → Type 0 where
    here : Reachable s s
    next : {t u : Run} → Reachable s t → Step t u → Reachable s u
