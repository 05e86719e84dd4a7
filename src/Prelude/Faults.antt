-- ===== src/Prelude/Faults.antt =====
-- How a call can end, beside by a value: a thrown `std::exception`, `abort()` of a failed
-- `nnAssert`, or behaviour that C++ leaves undefined (an index out of range, a null pointer).
use Prim.Native.Nat.{ℕ, zero, suc, ◌<◌}
use mathlib.Core.Path.{◌≡◌, refl, subst}
use mathlib.Core.Logic.{◌⊎◌, inl, inr}
use mathlib.Core.Bool.{Bool, true, false}
use mathlib.Core.Option.{Option, none, some}
use mathlib.Core.List.{List, [], ◌∷◌}
use nn_hal.Prelude.Lists.{get_elem?, All, length}
use native.Mathlib.Omega.{arith}
use nn_hal.Prelude.Tests.{if◌then◌else◌}

pub data Fault : Type 0 where
  exception abort undefined : Fault

pub data Result {ℓ} (A : Type ℓ) : Type ℓ where
  ok : A → Result A
  fault : Fault → Result A

-- a fault ends the call, and what follows it does not run
infixl 5 ◌>>◌ ◌>>=◌
abbrev pub ◌>>=◌ {κ ℓ} : {X : Type κ} {Y : Type ℓ} → Result X → (X → Result Y) → Result Y
fault why >>= rest = fault why
ok x >>= rest = rest x

abbrev pub ◌>>◌ {ℓ} : {Y : Type ℓ} → Result (Unit {0}) → Result Y → Result Y
done >> rest = done >>= λ u. rest

-- nnAssert(v)
abbrev pub nn_assert : Bool → Result (Unit {0})
nn_assert true = ok tt
nn_assert false = fault abort

abbrev pub or_undefined {ℓ} : {A : Type ℓ} → Option A → Result A
or_undefined none = fault undefined
or_undefined (some a) = ok a

-- `v[i]`, undefined out of range
abbrev pub at {ℓ} : {A : Type ℓ} → List A → ℕ → Result A
at xs i = or_undefined (get_elem? xs i)

pub >>=-eq-ok {κ ℓ} :
    {X : Type κ} {Y : Type ℓ} (r : Result X) (rest : X → Result Y) {y : Y}
    → (r >>= rest) ≡ ok y
    → (x : X) × (r ≡ ok x) × (rest x ≡ ok y)
>>=-eq-ok (fault why) rest h = cc
>>=-eq-ok (ok x) rest h = (x, refl, h)

pub Result-cases {ℓ} :
    {A : Type ℓ} (r : Result A) → ((a : A) × (r ≡ ok a)) ⊎ ((e : Fault) × (r ≡ fault e))
Result-cases (ok a) = inl (a, refl)
Result-cases (fault e) = inr (e, refl)

-- What a call returns, where it returns, has the property.
pub record Ends {ℓ κ} {A : Type ℓ} (P : A → Type κ) (r : Result A) : Type (ℓ ⊔ κ) where
  pub at_end : (a : A) → r ≡ ok a → P a

-- The call returns, and what it returns has the property.
pub record Returns {ℓ κ} {A : Type ℓ} (P : A → Type κ) (r : Result A) : Type (ℓ ⊔ κ) where
  pub result : A
  pub returns : r ≡ ok result
  pub holds : P result

module _ {ℓ κ} {A : Type ℓ} {P : A → Type κ} where
  pub ok-Ends : (a : A) → P a → Ends P (ok a)
  ok-Ends a p = record { at_end = λ b e. let ab : a ≡ b = cc in subst P ab p }

  pub ok-Returns : (a : A) → P a → Returns P (ok a)
  ok-Returns a p = record { result = a; returns = refl; holds = p }

  pub if-Ends :
      (b : Bool) (m n : Result A)
      → (b ≡ true → Ends P m)
      → (b ≡ false → Ends P n)
      → Ends P (if b then m else n)
  if-Ends true m n hm hn = hm refl
  if-Ends false m n hm hn = hn refl

  pub elim-Ends :
      (b : Bool) (m n : Result A)
      → (b ≡ true → Ends P m)
      → (b ≡ false → Ends P n)
      → Ends P (elim b [ true ↦ m | false ↦ n ])
  elim-Ends true m n hm hn = hm refl
  elim-Ends false m n hm hn = hn refl

  pub if-Returns :
      (b : Bool) (m n : Result A)
      → (b ≡ true → Returns P m)
      → (b ≡ false → Returns P n)
      → Returns P (if b then m else n)
  if-Returns true m n hm hn = hm refl
  if-Returns false m n hm hn = hn refl

  pub elim-Returns :
      (b : Bool) (m n : Result A)
      → (b ≡ true → Returns P m)
      → (b ≡ false → Returns P n)
      → Returns P (elim b [ true ↦ m | false ↦ n ])
  elim-Returns true m n hm hn = hm refl
  elim-Returns false m n hm hn = hn refl

module _ {κ ℓ μ} {X : Type κ} {Y : Type ℓ} {Q : Y → Type μ} where
  pub then-Ends {ν} :
      {P : X → Type ν} (r : Result X) {rest : X → Result Y}
      → Ends P r
      → ((x : X) → P x → Ends Q (rest x))
      → Ends Q (r >>= rest)
  then-Ends r {rest = rest} p h = record {
    at_end = λ y e. let (x, ex, er) = >>=-eq-ok r rest e in (h x (p.at_end x ex)).at_end y er;
  }

  -- what follows may use the result itself
  pub after-Ends :
      (r : Result X) {rest : X → Result Y}
      → ((x : X) → r ≡ ok x → Ends Q (rest x))
      → Ends Q (r >>= rest)
  after-Ends r {rest = rest} h = record {
    at_end = λ y e. let (x, ex, er) = >>=-eq-ok r rest e in (h x ex).at_end y er;
  }

  pub then-Returns {ν} :
      {P : X → Type ν} (r : Result X) {rest : X → Result Y}
      → Returns P r
      → ((x : X) → P x → Returns Q (rest x))
      → Returns Q (r >>= rest)
  then-Returns r {rest = rest} p h =
      let next = h p.result p.holds in
      record { result = next.result; returns = rw p.returns next.returns; holds = next.holds }

-- A call that returns, with what is known of its result.
pub Ends-Returns {ℓ κ} :
    {A : Type ℓ} {P : A → Type κ} {r : Result A}
    → Returns (λ a. Unit {0}) r
    → Ends P r
    → Returns P r
Ends-Returns answer end = record {
  result = answer.result;
  returns = answer.returns;
  holds = end.at_end answer.result answer.returns;
}

pub and-Returns {ℓ κ μ} :
    {A : Type ℓ} {P : A → Type κ} {Q : A → Type μ} {r : Result A}
    → Returns P r
    → Ends Q r
    → Returns (λ a. P a × Q a) r
and-Returns answer end = record {
  result = answer.result;
  returns = answer.returns;
  holds = (answer.holds, end.at_end answer.result answer.returns);
}

pub All-at {ℓ κ} :
    {A : Type ℓ} {P : A → Type κ} (xs : List A) (i : ℕ)
    → All P xs
    → i < length xs
    → Returns P (at xs i)
All-at [] i h lt = absurd (omega arith)
All-at (x ∷ xs) zero (p, ps) lt = ok-Returns x p
All-at (x ∷ xs) (suc i) (p, ps) lt = All-at xs i ps (omega arith)

pub at-Returns {ℓ} :
    {A : Type ℓ} (xs : List A) (i : ℕ) → i < length xs → Returns (λ a. Unit {0}) (at xs i)
at-Returns [] i lt = absurd (omega arith)
at-Returns (x ∷ xs) zero lt = ok-Returns x tt
at-Returns (x ∷ xs) (suc i) lt = at-Returns xs i (omega arith)

pub All-at_both {ℓ κ μ} :
    {A : Type ℓ} {P : A → Type κ} {Q : A → Type μ} (xs : List A) (i : ℕ)
    → All P xs
    → All Q xs
    → i < length xs
    → Returns (λ x. P x × Q x) (at xs i)
All-at_both [] i ps qs lt = absurd (omega arith)
All-at_both (x ∷ xs) zero (p, ps) (q, qs) lt = ok-Returns x (p, q)
All-at_both (x ∷ xs) (suc i) (p, ps) (q, qs) lt = All-at_both xs i ps qs (omega arith)
