-- ===== src/Driver/Supported.antt =====
-- Driver.cpp: the list that getSupportedOperations hands to the callback.
use mathlib.Core.Path.{subst}
use nn_hal.Prelude.{
  ℕ, zero, suc, ◌<◌, ◌^◌, ◌%◌, Bool, true, false, List, ◌∷◌, ok, ◌≡◌, ◌⊎◌, refl, arith, inl, inr,
  ◌>>=◌, >>=-eq-ok, length, not, if◌then◌else◌, length-replicate, replicate, Bool-cases, ap, sym,
  ◌∙◌, Result, ltb,
}
use nn_hal.Types.{IntelDeviceType, ErrorStatus, invalid_argument}
use nn_hal.ModelInfo.Model.{Model, nnapi_model_info}
use nn_hal.ModelInfo.Memory.{Memory}
use nn_hal.Graph.{Ngraph}
use nn_hal.NetworkCreator.{
  NgraphNetworkCreator, supports, operations_of, with_operations, ngraph_network_creator,
  get_supported_operations,
}
use nn_hal.NetworkCreator.Support.{answers, get_supported_operations_lem}
use nn_hal.PreparedModel.{Platform}
use nn_hal.Driver.{sized, get_supported_operations_1_2}

length-answers :
    (c : NgraphNetworkCreator) (i count : ℕ) (bs : List Bool)
    → answers c i count ≡ ok bs
    → length bs ≡ count
unfolding answers
length-answers c i zero bs h = ground arith
length-answers c i (suc count) bs h =
    let (b, hs, h') =
      >>=-eq-ok (supports c i) (λ b. answers c (suc i) count >>= λ rest. ok (b ∷ rest)) h in
    let (rest, hr, hb) = >>=-eq-ok (answers c (suc i) count) (λ rest. ok (b ∷ rest)) h' in
    let ih = length-answers c (suc i) count rest hr in ground (arith, ih, hb)

creator_operations :
    (g : Ngraph) (memory : Memory) (model : Model) (device : IntelDeviceType)
    (c : NgraphNetworkCreator)
    → ngraph_network_creator g memory (nnapi_model_info model) device ≡ ok c
    → length c.info.model.operations ≡ length model.operations
unfolding ngraph_network_creator nnapi_model_info
creator_operations g memory model device c h =
    let (ops, ho, hc) =
      >>=-eq-ok (operations_of model.operations)
        (λ ops. ok (with_operations g memory (nnapi_model_info model) device ops)) h in
    let same : with_operations g memory (nnapi_model_info model) device ops ≡ c = ground arith in
    sym (ap (λ x. length x.info.model.operations) same)

sized_lem : (n : ℕ) → n < 2 ^ 31 → sized n ≡ ok (replicate n true)
unfolding sized
sized_lem n h =
    let count : n % 2 ^ 32 ≡ n = ground arith in
    let fits : ltb n (2 ^ 31) ≡ true = ground arith in rw (count, fits) refl

-- the two components of what is returned
pair_lem :
    {a b : ErrorStatus} {v w : List Bool}
    → ◌≡◌ {A = Result (ErrorStatus × List Bool)} (ok (a, v)) (ok (b, w))
    → (a ≡ b) × (v ≡ w)
pair_lem e = (ground (arith, e), ground (arith, e))

module _ {M : Type 0} (p : Platform) (device : IntelDeviceType) (validate_model : M → Bool)
    (convert : M → Model) (model : M) where
  abbrev operations : ℕ
  operations = length (convert model).operations

  -- What the callback is given: the operations' answers, or, for an invalid model, all true.
  abbrev pub IsAnswered : ErrorStatus → List Bool → Type 0
  IsAnswered status supported =
      ((status ≡ invalid_argument)
        × (supported ≡ replicate (length (convert model).operations) true))
      ⊎ ((status ≡ ErrorStatus.none)
          × (c : NgraphNetworkCreator) × (ngraph_network_creator p.ngraph p.memory
                (nnapi_model_info (convert model)) device
              ≡ ok c)
          × (answers c 0 (length (convert model).operations) ≡ ok supported))

  abbrev made : List Bool → Result (ErrorStatus × List Bool)
  made vector =
      ngraph_network_creator p.ngraph p.memory (nnapi_model_info (convert model)) device >>= λ c.
      get_supported_operations c vector >>= λ written. ok (ErrorStatus.none, written)

  -- For a model of less than 2 ^ 31 operations: the callback of getSupportedOperations_1_2 is given one
  -- element for each operation, whatever the status; for a valid model the element of an operation is
  -- what the creator's operation at its place answers, and for an invalid one all elements are true.
  pub length-get_supported_operations_1_2 :
      (status : ErrorStatus) (supported : List Bool)
      → length (convert model).operations < 2 ^ 31
      → get_supported_operations_1_2 p device validate_model convert model ≡ ok (status, supported)
      → (length supported ≡ length (convert model).operations) × IsAnswered status supported
  unfolding get_supported_operations_1_2
  length-get_supported_operations_1_2 status supported small h =
      elim (Bool-cases (validate_model model)) [
        | inr invalid ↦ invalid_lem invalid
        | inl valid ↦ valid_lem valid
      ]
    where
      count : ℕ
      count = length (convert model).operations

      known :
          (if not (validate_model model)
            then ok (invalid_argument, replicate count true)
            else made (replicate count true))
          ≡ ok (status, supported)
      known = rw (sized_lem count small) at h

      invalid_lem :
          validate_model model ≡ false → (length supported ≡ count) × IsAnswered status supported
      invalid_lem e =
          let h1 : ◌≡◌ {A = Result (ErrorStatus × List Bool)}
              (ok (invalid_argument, replicate count true)) (ok (status, supported)) =
            rw e at known in
          let same = pair_lem h1 in
          (sym (ap length same.1) ∙ length-replicate count true, inl (sym same.0, sym same.1))

      valid_lem :
          validate_model model ≡ true → (length supported ≡ count) × IsAnswered status supported
      valid_lem e =
          let h0 : made (replicate count true) ≡ ok (status, supported) = rw e at known in
          let (c, hc, h1) =
            >>=-eq-ok
              (ngraph_network_creator p.ngraph p.memory (nnapi_model_info (convert model)) device)
              (λ c. get_supported_operations c (replicate count true) >>= λ written.
                ok (ErrorStatus.none, written))
              h0 in
          let (written, hw, h2) =
            >>=-eq-ok (get_supported_operations c (replicate count true))
              (λ written. ok (ErrorStatus.none, written)) h1 in
          let counted : length c.info.model.operations ≡ count =
            creator_operations p.ngraph p.memory (convert model) device c hc in
          let found =
            get_supported_operations_lem c (replicate count true) written
              (length-replicate count true ∙ sym counted) hw in
          let same = pair_lem h2 in
          let answered : answers c 0 count ≡ ok supported =
            subst (λ n. answers c 0 n ≡ ok supported) counted (found ∙ ap ok same.1) in
          (length-answers c 0 count supported answered, inr (sym same.0, c, hc, answered))
