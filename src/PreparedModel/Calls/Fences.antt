-- ===== src/PreparedModel/Calls/Fences.antt =====
-- BasePreparedModel.cpp: what executeFenced asks for before it does anything.
use nn_hal.Prelude.{
  ℕ, Bool, true, false, List, [], ◌∷◌, none, some, ◌≡◌, ◌⊎◌, refl, inl, inr, All, Bool-cases,
  Result, ok, arith, ok-Ends, Ends,
}
use nn_hal.Types.{ErrorStatus}
use nn_hal.Utils.Pools.{Os}
use nn_hal.Graph.{Ngraph}
use nn_hal.ModelInfo.Model.{Request}
use nn_hal.ModelInfo.Requests.{MemoryPool}
use nn_hal.PreparedModel.Execution.{Engine, Run}
use nn_hal.PreparedModel.Calls.{Fence, wait_for, fenced_request, execute_fenced}

-- A fence that has a handle, and whose descriptor is signaled.
abbrev pub IsSignaled : (ℕ → Bool) → Fence → Type 0
IsSignaled signaled fence = (fd : ℕ) × (fence ≡ some fd) × (signaled fd ≡ true)

wait_for-IsSignaled :
    (signaled : ℕ → Bool) (fences : List Fence)
    → wait_for signaled fences ≡ ErrorStatus.none
    → All (IsSignaled signaled) fences
unfolding wait_for
wait_for-IsSignaled signaled [] e = tt
wait_for-IsSignaled signaled (none ∷ fences) e = absurd cc
wait_for-IsSignaled signaled (some fd ∷ fences) e = elim (Bool-cases (signaled fd)) [
  | inl set ↦
      (let more : wait_for signaled fences ≡ ErrorStatus.none = ground arith in
        ((fd, refl, set), wait_for-IsSignaled signaled fences more))
  | inr clear ↦ absurd (ground arith)
]

-- The end of the call by what the wait says.
waited-Ends {ℓ} :
    {A : Type ℓ} (m : Result (A × ErrorStatus)) (a : A) (why : ErrorStatus)
    → Ends
        (λ r. (why ≡ ErrorStatus.none) ⊎ ((r.0 ≡ a) × ¬ (r.1 ≡ ErrorStatus.none)))
        (elim why [ ErrorStatus.none ↦ m | e ↦ ok (a, e) ])
waited-Ends m a ErrorStatus.none = record { at_end = λ r e. inl refl }
waited-Ends m a why = ok-Ends _ (inr (refl, λ e. cc))

ok-pair {ℓ} :
    {A : Type ℓ} {a b : A} {why status : ErrorStatus}
    → ◌≡◌ {A = Result (A × ErrorStatus)} (ok (a, why)) (ok (b, status))
    → ¬ (why ≡ ErrorStatus.none)
    → (b ≡ a) × ¬ (status ≡ ErrorStatus.none)
ok-pair {a = a} {b = b} {why = why} e h =
    (ok-Ends {P = λ r. (r.0 ≡ a) × ¬ (r.1 ≡ ErrorStatus.none)} _ (refl, h)).at_end _ e

-- Where executeFenced returns, either the request was valid, its deadline had not passed, and every
-- fence has a handle and is signaled; or the status is not NONE and nothing was done: the model's
-- run-time tables, the inference request and the calls of the system are as before.
pub execute_fenced_lem :
    (os : Os) (g : Ngraph) (engine : Engine) (valid missed : Bool) (signaled : ℕ → Bool)
    (fences : List Fence) (s s' : Run) (request : Request) (pools : List MemoryPool)
    (status : ErrorStatus)
    → execute_fenced os g engine valid missed signaled fences s request pools ≡ ok (s', status)
    → ((valid ≡ true) × (missed ≡ false) × All (IsSignaled signaled) fences)
      ⊎ ((s' ≡ s) × ¬ (status ≡ ErrorStatus.none))
unfolding execute_fenced
execute_fenced_lem os g engine false missed signaled fences s s' request pools status e =
    inr (ok-pair e λ none. cc)
execute_fenced_lem os g engine true true signaled fences s s' request pools status e =
    inr (ok-pair e λ none. cc)
execute_fenced_lem os g engine true false signaled fences s s' request pools status e =
    elim ((waited-Ends (fenced_request os g engine s request pools) s
        (wait_for signaled fences)).at_end
      (s', status) e) [
        | inl waited ↦ inl (refl, refl, wait_for-IsSignaled signaled fences waited)
        | inr left ↦ inr left
      ]
