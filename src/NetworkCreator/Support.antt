-- ===== src/NetworkCreator/Support.antt =====
-- NgraphNetworkCreator.cpp: getSupportedOperations against validateOperations.
use mathlib.Core.Path.{subst}
use nn_hal.Prelude.{
  ℕ, zero, suc, ◌+◌, ◌<◌, Bool, true, ◌&&◌, List, [], ◌∷◌, ◌++◌, ok, >>=-eq-ok, ◌>>=◌, ◌≡◌, refl,
  ap, sym, ◌∙◌, arith, length, set, length-set, take, ltb, Bool-cases, inl, inr, Result,
  append_assoc,
}
use nn_hal.NetworkCreator.{
  NgraphNetworkCreator, supports, write, supported_from, valid_from, get_supported_operations,
  validate_operations,
}

abbrev pub all_true : List Bool → Bool
all_true [] = true
all_true (b ∷ bs) = b && all_true bs

-- What the operations from `i` on, `count` of them, answer, one after the other.
unfoldable pub answers : NgraphNetworkCreator → ℕ → ℕ → Result (List Bool)
answers c i zero = ok []
answers c i (suc count) = do b ← supports c i; rest ← answers c (suc i) count; ok (b ∷ rest)

answers_step :
    (c : NgraphNetworkCreator) (i count : ℕ) (b : Bool) (rest : List Bool)
    → supports c i ≡ ok b
    → answers c (suc i) count ≡ ok rest
    → answers c i (suc count) ≡ ok (b ∷ rest)
unfolding answers
answers_step c i count b rest hs hr = rw (hs, hr) refl

valid_from_lem :
    (c : NgraphNetworkCreator) (i count : ℕ) (bs : List Bool)
    → answers c i count ≡ ok bs
    → valid_from c i count ≡ ok (all_true bs)
unfolding answers valid_from
valid_from_lem c i zero bs h = ground arith
valid_from_lem c i (suc count) bs h =
    let (b, hs, h') =
      >>=-eq-ok (supports c i) (λ b. answers c (suc i) count >>= λ rest. ok (b ∷ rest)) h in
    let (rest, hr, hb) = >>=-eq-ok (answers c (suc i) count) (λ rest. ok (b ∷ rest)) h' in
    let ih = valid_from_lem c (suc i) count rest hr in ground (arith, ih, hs, hb)

write_lem :
    (v w : List Bool) (i : ℕ) (b : Bool) → write v i b ≡ ok w → (i < length v) × (w ≡ set v i b)
unfolding write
write_lem v w i b h = elim (Bool-cases (ltb i (length v))) [
  | inl e ↦ (ground arith, ground arith)
  | inr e ↦ absurd (ground arith)
]

-- A write adds its value to what the loop has written.
take-set :
    (v : List Bool) (i : ℕ) (b : Bool)
    → i < length v
    → take (suc i) (set v i b) ≡ take i v ++ b ∷ []
take-set [] i b h = absurd (omega arith)
take-set (x ∷ v) zero b h = refl
take-set (x ∷ v) (suc i) b h = ap (λ t. x ∷ t) (take-set v i b (omega arith))

take-length : (v : List Bool) → v ≡ take (length v) v ++ []
take-length [] = refl
take-length (x ∷ v) = ap (λ t. x ∷ t) (take-length v)

-- The loop over the rest of a vector leaves the first `i` elements and writes the answers.
supported_from_lem :
    (c : NgraphNetworkCreator) (i count : ℕ) (v bs : List Bool)
    → i + count ≡ length v
    → supported_from c i count v ≡ ok bs
    → (rest : List Bool) × (answers c i count ≡ ok rest) × (bs ≡ take i v ++ rest)
unfolding supported_from answers
supported_from_lem c i zero v bs e h =
    let same : v ≡ bs = ground arith in
    let all : i ≡ length v = omega (arith, e) in
    ([], refl, sym same ∙ subst (λ k. v ≡ take k v ++ []) (sym all) (take-length v))
supported_from_lem c i (suc count) v bs e h =
    let (b, hs, h1) =
      >>=-eq-ok (supports c i) (λ b. write v i b >>= λ w. supported_from c (suc i) count w) h in
    let (w, hw, h2) = >>=-eq-ok (write v i b) (λ w. supported_from c (suc i) count w) h1 in
    let (bound, written) = write_lem v w i b hw in
    let long : suc i + count ≡ length w = omega (arith, e, ap length written, length-set v i b) in
    let (rest, hr, done) = supported_from_lem c (suc i) count w bs long h2 in
    (
      b ∷ rest,
      answers_step c i count b rest hs hr,
      done
          ∙ ap (λ x. take (suc i) x ++ rest) written
          ∙ ap (λ x. x ++ rest) (take-set v i b bound)
          ∙ append_assoc (take i v) (b ∷ []) rest,
    )

-- A vector with a place for every operation is left with the operations' answers.
pub get_supported_operations_lem :
    (c : NgraphNetworkCreator) (v bs : List Bool)
    → length v ≡ length c.info.model.operations
    → get_supported_operations c v ≡ ok bs
    → answers c 0 (length c.info.model.operations) ≡ ok bs
unfolding get_supported_operations
get_supported_operations_lem c v bs e h =
    let (rest, hr, same) =
      supported_from_lem c 0 (length c.info.model.operations) v bs (omega (arith, e)) h in
    rw same hr

-- Where getSupportedOperations answers, into a vector with a place for every operation,
-- validateOperations answers whether all of the operations are supported.
pub validate_operations_lem :
    (c : NgraphNetworkCreator) (v bs : List Bool)
    → length v ≡ length c.info.model.operations
    → get_supported_operations c v ≡ ok bs
    → validate_operations c ≡ ok (all_true bs)
unfolding validate_operations
validate_operations_lem c v bs e h =
    valid_from_lem c 0 (length c.info.model.operations) bs (get_supported_operations_lem c v bs e h)
