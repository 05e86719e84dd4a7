-- ===== src/Driver/Contract.antt =====
-- Driver.cpp: what the client of prepareModel and getSupportedOperations can rely on.
use nn_hal.Prelude.{
  Bool, true, false, ◌&&◌, List, [], ◌∷◌, Option, none, some, ok, fault, undefined, ◌≡◌, refl,
  arith, ◌⊎◌, inl, inr, >>=-eq-ok,
}
use mathlib.Core.Path.{subst}
use nn_hal.Types.{IntelDeviceType, ErrorStatus, invalid_argument}
use nn_hal.Utils.Pools.{History}
use nn_hal.ModelInfo.Model.{Model}
use nn_hal.PreparedModel.{Platform, PreparedModel}
use nn_hal.Driver.{
  Notification, model_factory, notified, initialize, initialize_and_notify, prepare_with,
  prepare_with_1_3, prepare_model_1_1, prepare_model_1_2, prepare_model_1_3, rejected, Prepared,
}

-- A prepared model is handed over with NONE, and INVALID_ARGUMENT comes with none.
unfoldable pub IsConsistent : Notification → Type 0
IsConsistent n =
    ((n.status ≡ ErrorStatus.none) × (s : PreparedModel) × (n.prepared ≡ some s))
    ⊎ ((n.status ≡ invalid_argument) × (n.prepared ≡ none))

-- The callback is notified once, consistently.
unfoldable pub NotifiesOnce : List Notification → Type 0
unfolding IsConsistent
NotifiesOnce notes = (n : Notification) × (notes ≡ n ∷ []) × IsConsistent n

notified_lem :
    (s : PreparedModel) (done : Bool) (h : History)
    → ((notified s done h).0 ≡ ErrorStatus.none) × NotifiesOnce (notified s done h).1
unfolding notified NotifiesOnce IsConsistent
notified_lem s true h =
    (refl, (record { status = ErrorStatus.none; prepared = some s }, refl, inl (refl, s, refl)))
notified_lem s false h =
    (refl, (record { status = invalid_argument; prepared = none }, refl, inr (refl, refl)))

initialize_and_notify_lem :
    (p : Platform) (s : PreparedModel) (h : History) (r : Prepared)
    → initialize_and_notify p s h ≡ ok r
    → (r.0 ≡ ErrorStatus.none) × NotifiesOnce r.1
unfolding initialize_and_notify
initialize_and_notify_lem p s h r e =
    let ((s', done, h'), hi, hn) =
      >>=-eq-ok (initialize p s h) (λ (s', done, h'). ok (notified s' done h')) e in
    let er : notified s' done h' ≡ r = ground arith in
    subst (λ x. (x.0 ≡ ErrorStatus.none) × NotifiesOnce x.1) er (notified_lem s' done h')

rejected_lem : NotifiesOnce rejected
unfolding NotifiesOnce IsConsistent
rejected_lem = (record { status = invalid_argument; prepared = none }, refl, inr (refl, refl))

prepare_with_1_3_lem :
    (p : Platform) (o : Option PreparedModel) (h : History) (r : Prepared)
    → prepare_with_1_3 p o h ≡ ok r
    → NotifiesOnce r.1
unfolding prepare_with_1_3
prepare_with_1_3_lem p none h r e = ground arith
prepare_with_1_3_lem p (some s) h r e = (initialize_and_notify_lem p s h r e).1

prepare_with_lem :
    (p : Platform) (o : Option PreparedModel) (h : History) (r : Prepared)
    → prepare_with p o h ≡ ok r
    → NotifiesOnce r.1 ⊎ ((r.0 ≡ invalid_argument) × (r.1 ≡ []) × (o ≡ none))
unfolding prepare_with
prepare_with_lem p none h r e = inr (ground arith)
prepare_with_lem p (some s) h r e = inl (initialize_and_notify_lem p s h r e).1

-- Where prepareModel_1_3 of a callback that is not null returns, the callback was notified once, with
-- a prepared model and NONE, or with none and INVALID_ARGUMENT.
pub prepare_model_1_3-NotifiesOnce :
    (p : Platform) (device : IntelDeviceType) (validate_model : Model → Bool) (model : Model)
    (preference priority : Bool) (h : History) (r : Prepared)
    → prepare_model_1_3 p device validate_model model preference priority true h ≡ ok r
    → NotifiesOnce r.1
unfolding prepare_model_1_3
prepare_model_1_3-NotifiesOnce p device validate_model model preference priority h r e =
    ground (arith, rejected_lem, prepare_with_1_3_lem p (model_factory device model) h r)

-- Where prepareModel_1_2 returns, the callback was notified once, with a prepared model and NONE or
-- with none and INVALID_ARGUMENT; or it was not notified, INVALID_ARGUMENT is returned, and the
-- callback is null or the device has no prepared model.
pub prepare_model_1_2-NotifiesOnce :
    {M : Type 0} (p : Platform) (device : IntelDeviceType) (validate_model : M → Bool)
    (convert : M → Model) (model : M) (preference callback : Bool) (h : History) (r : Prepared)
    → prepare_model_1_2 p device validate_model convert model preference callback h ≡ ok r
    → NotifiesOnce r.1
      ⊎ ((r.0 ≡ invalid_argument)
          × (r.1 ≡ [])
          × ((callback ≡ false) ⊎ (model_factory device (convert model) ≡ none)))
unfolding prepare_model_1_2
prepare_model_1_2-NotifiesOnce p device validate_model convert model preference callback h r e =
    ground (arith, rejected_lem, prepare_with_lem p (model_factory device (convert model)) h r)

-- Where validateModel says of the converted model what it says of the model, for all arguments: the
-- call of prepareModel_1_3 on the converted model does what prepareModel_1_1 and prepareModel_1_2 do on
-- the model with a preference that is valid where the preference and the priority of 1.3 are; unless
-- the arguments are valid and the device has no prepared model: then the older two return
-- INVALID_ARGUMENT without a notification and prepareModel_1_3 is undefined.
pub prepare_model_1_3_lem :
    {M : Type 0} (p : Platform) (device : IntelDeviceType) (validate_model : M → Bool)
    (validate_model_1_3 : Model → Bool) (convert : M → Model) (model : M)
    (preference priority callback : Bool) (h : History)
    → validate_model_1_3 (convert model) ≡ validate_model model
    → let newer =
        prepare_model_1_3 p device validate_model_1_3
          (convert model)
          preference
          priority
          callback
          h in
      let older =
        prepare_model_1_2 p device validate_model convert model
          (preference && priority)
          callback
          h in
      (prepare_model_1_1 p device validate_model convert model (preference && priority) callback h
        ≡ older)
      × ((newer ≡ older)
          ⊎ ((callback ≡ true)
              × (validate_model model ≡ true)
              × (preference && priority ≡ true)
              × (model_factory device (convert model) ≡ none)
              × (older ≡ ok (invalid_argument, [], h))
              × (newer ≡ fault undefined)))
unfolding prepare_model_1_3 prepare_model_1_2 prepare_model_1_1 prepare_with prepare_with_1_3
prepare_model_1_3_lem p device validate_model validate_model_1_3 convert model preference priority
      callback h v =
    (refl, ground (arith, v))
