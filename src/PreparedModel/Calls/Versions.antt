-- ===== src/PreparedModel/Calls/Versions.antt =====
-- BasePreparedModel.cpp: the versions of execute and executeSynchronously, what each version of the
-- callback is told, and configureExecutionBurst. The conversions between the versions are parameters.
use nn_hal.Prelude.{Bool, not, if◌then◌else◌, List, map, Option, none, some, ◌>>=◌, ok, Result}
use nn_hal.Types.{ErrorStatus, general_failure, invalid_argument}
use nn_hal.Utils.Pools.{Os}
use nn_hal.Graph.{Ngraph}
use nn_hal.ModelInfo.Model.{Request}
use nn_hal.PreparedModel.Execution.{Engine, Run}
use nn_hal.PreparedModel.Calls.{Outcome, Thread, failed, execute_base, execute_synchronously_base}

-- notify of a callback of V1_0, which is told the status alone
unfoldable pub told_1_0 : Outcome → ErrorStatus
told_1_0 outcome = outcome.status

-- notify of a callback of V1_3
unfoldable pub told_1_3 : (ErrorStatus → ErrorStatus) → Outcome → Outcome
told_1_3 convert_status outcome = record outcome { status = convert_status outcome.status }

unfoldable pub execute_1_2 :
    Bool → Bool → Bool → Request → ErrorStatus × List Outcome × Option Thread
unfolding execute_base
execute_1_2 callback valid measure request = execute_base callback valid measure request

-- The thread notifies the callback, which is of V1_3, by told_1_3.
unfoldable pub execute_1_3 :
    {Request13 : Type 0}
    → (Request13 → Request)
    → (ErrorStatus → ErrorStatus)
    → Bool
    → Bool
    → Bool
    → Request13
    → ErrorStatus × List Outcome × Option Thread
unfolding execute_base told_1_3
execute_1_3 convert convert_status callback valid measure request =
    let (status, notified, thread) = execute_base callback valid measure (convert request) in
    (convert_status status, map (told_1_3 convert_status) notified, thread)

module _ (os : Os) (g : Ngraph) (engine : Engine) where
  module _ {Request13 : Type 0} (convert : Request13 → Request)
      (convert_status : ErrorStatus → ErrorStatus) where
    -- `valid` is validateRequest of the converted request
    unfoldable pub execute_synchronously_1_3 :
        Bool → Bool → Run → Request13 → Result (Run × Outcome)
    unfolding execute_synchronously_base told_1_3
    execute_synchronously_1_3 valid measure s request =
        if not valid then ok (s, failed invalid_argument) else (do
          (s', outcome) ← execute_synchronously_base os g engine measure s (convert request)
          ok (s', told_1_3 convert_status outcome))

-- configureExecutionBurst; `burst` is what ExecutionBurstServer::create returns
unfoldable pub configure_execution_burst : {B : Type 0} → Option B → ErrorStatus × Option B
configure_execution_burst none = (general_failure, none)
configure_execution_burst (some burst) = (ErrorStatus.none, some burst)
