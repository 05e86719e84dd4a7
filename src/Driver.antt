-- ===== src/Driver.antt =====
-- Driver.cpp: the device that the client calls. The HIDL models of each version, their validation and
-- their conversion are parameters. Notifications of the callback are listed in the order of calls.
pub mod Contract
pub mod Capabilities
pub mod Supported
use nn_hal.Prelude.{
  ℕ, Bool, true, false, not, ◌&&◌, ◌||◌, List, [], ◌∷◌, Option, none, some, Result, ok, fault,
  undefined, ◌>>=◌, length, replicate, if◌then◌else◌, ltb, exception, ◌%◌, ◌^◌,
}
use nn_hal.Types.{IntelDeviceType, ErrorStatus, invalid_argument, general_failure}
use nn_hal.Utils.Pools.{History}
use nn_hal.ModelInfo.Model.{Model, nnapi_model_info}
use nn_hal.NetworkCreator.{ngraph_network_creator, get_supported_operations}
use nn_hal.PreparedModel.{
  Platform, PreparedModel, base_prepared_model, cpu_initialize, gna_initialize,
}

pub record Notification : Type 0 where
  pub status : ErrorStatus
  pub prepared : Option PreparedModel

-- ModelFactory; `none` is NULL
unfoldable pub model_factory : IntelDeviceType → Model → Option PreparedModel
model_factory IntelDeviceType.cpu model = some (base_prepared_model IntelDeviceType.cpu model)
model_factory IntelDeviceType.gna model = some (base_prepared_model IntelDeviceType.gna model)
model_factory device model = none

-- the virtual `initialize`
unfoldable pub initialize :
    Platform → PreparedModel → History → Result (PreparedModel × Bool × History)
initialize p s h = elim s.target_device [
  | IntelDeviceType.gna ↦ gna_initialize p s h
  | _ ↦ cpu_initialize p s h
]

-- What a call of prepareModel does: the status, the notifications and the system's calls.
abbrev pub Prepared : Type 0
Prepared = ErrorStatus × List Notification × History

-- the notification after `initialize`, by what it returned
unfoldable pub notified : PreparedModel → Bool → History → Prepared
notified s true h =
    (ErrorStatus.none, record { status = ErrorStatus.none; prepared = some s } ∷ [], h)
notified s false h =
    (ErrorStatus.none, record { status = invalid_argument; prepared = none } ∷ [], h)

unfoldable pub initialize_and_notify : Platform → PreparedModel → History → Result Prepared
unfolding notified
initialize_and_notify p s h = do (s', done, h') ← initialize p s h; ok (notified s' done h')

abbrev pub rejected : List Notification
rejected = record { status = invalid_argument; prepared = none } ∷ []

-- without a prepared model the callback is not notified
unfoldable pub prepare_with : Platform → Option PreparedModel → History → Result Prepared
unfolding initialize_and_notify
prepare_with p none h = ok (invalid_argument, [], h)
prepare_with p (some s) h = initialize_and_notify p s h

-- `driverPreparedModel->initialize()` without a test
unfoldable pub prepare_with_1_3 : Platform → Option PreparedModel → History → Result Prepared
unfolding initialize_and_notify
prepare_with_1_3 p none h = fault undefined
prepare_with_1_3 p (some s) h = initialize_and_notify p s h

-- `int count = size; std::vector<bool> supported(count, true)`: a negative count is no size of a vector
unfoldable pub sized : ℕ → Result (List Bool)
sized size =
    let count = size % 2 ^ 32 in
    if ltb count (2 ^ 31) then ok (replicate count true) else fault exception

-- A device of type M models: `callback` holds where the callback is not null.
module _ {M : Type 0} (p : Platform) (device : IntelDeviceType) (validate_model : M → Bool)
    (convert : M → Model) where
  unfoldable pub prepare_model : M → Bool → History → Result Prepared
  unfolding prepare_with model_factory
  prepare_model model callback h =
      if not callback
      then ok (invalid_argument, [], h)
      else if not (validate_model model)
      then ok (invalid_argument, rejected, h)
      else prepare_with p (model_factory device (convert model)) h

  -- `preference` holds where validateExecutionPreference does
  unfoldable pub prepare_model_1_1 : M → Bool → Bool → History → Result Prepared
  unfolding prepare_with model_factory
  prepare_model_1_1 model preference callback h =
      if not callback
      then ok (invalid_argument, [], h)
      else if not (validate_model model) || not preference
      then ok (invalid_argument, rejected, h)
      else prepare_with p (model_factory device (convert model)) h

  unfoldable pub prepare_model_1_2 : M → Bool → Bool → History → Result Prepared
  unfolding prepare_with model_factory
  prepare_model_1_2 model preference callback h =
      if not callback
      then ok (invalid_argument, [], h)
      else if not (validate_model model) || not preference
      then ok (invalid_argument, rejected, h)
      else prepare_with p (model_factory device (convert model)) h

  -- The statuses of getSupportedOperations_1_2 and _1_3, with what the callback is given.
  unfoldable pub get_supported_operations_1_2 : M → Result (ErrorStatus × List Bool)
  unfolding sized
  get_supported_operations_1_2 model = do
    supported ← sized (length (convert model).operations)
    if not (validate_model model) then ok (invalid_argument, supported) else (do
      creator ← ngraph_network_creator p.ngraph p.memory (nnapi_model_info (convert model)) device
      written ← get_supported_operations creator supported
      ok (ErrorStatus.none, written))

unfoldable pub prepare_model_1_3 :
    Platform
    → IntelDeviceType
    → (Model → Bool)
    → Model
    → Bool
    → Bool
    → Bool
    → History
    → Result Prepared
unfolding prepare_with_1_3 model_factory
prepare_model_1_3 p device validate_model model preference priority callback h =
    if not callback
    then ok (invalid_argument, [], h)
    else if not (validate_model model) || not preference || not priority
    then ok (invalid_argument, rejected, h)
    else prepare_with_1_3 p (model_factory device model) h

unfoldable pub get_supported_operations_1_3 :
    Platform → IntelDeviceType → (Model → Bool) → Model → Result (ErrorStatus × List Bool)
unfolding get_supported_operations_1_2
get_supported_operations_1_3 p device validate_model model =
    get_supported_operations_1_2 p device validate_model (λ m. m) model

-- getSupportedOperations, and getSupportedOperations_1_1 below: an own test, then the call of 1.3, which
-- tests the converted model
unfoldable pub get_supported_operations_1_0 :
    {M : Type 0}
    → Platform
    → IntelDeviceType
    → (M → Bool)
    → (Model → Bool)
    → (M → Model)
    → M
    → Result (ErrorStatus × List Bool)
unfolding get_supported_operations_1_3
get_supported_operations_1_0 p device validate_model validate_model_1_3 convert model =
    if not (validate_model model)
    then ok (invalid_argument, [])
    else get_supported_operations_1_3 p device validate_model_1_3 (convert model)

unfoldable pub get_supported_operations_1_1 :
    {M : Type 0}
    → Platform
    → IntelDeviceType
    → (M → Bool)
    → (Model → Bool)
    → (M → Model)
    → M
    → Result (ErrorStatus × List Bool)
unfolding get_supported_operations_1_3
get_supported_operations_1_1 p device validate_model validate_model_1_3 convert model =
    if not (validate_model model)
    then ok (invalid_argument, [])
    else get_supported_operations_1_3 p device validate_model_1_3 (convert model)

-- prepareModelFromCache: the callback is not tested
pub prepare_model_from_cache : Bool → Result (ErrorStatus × List Notification)
prepare_model_from_cache callback =
    if callback
    then ok (general_failure, record { status = general_failure; prepared = none } ∷ [])
    else fault undefined

pub prepare_model_from_cache_1_3 : Bool → Result (ErrorStatus × List Notification)
prepare_model_from_cache_1_3 callback =
    if callback
    then ok (general_failure, record { status = general_failure; prepared = none } ∷ [])
    else ok (invalid_argument, [])

-- allocate: the status, a null buffer and the token 0
pub allocate : ErrorStatus × ℕ
allocate = (general_failure, 0)
