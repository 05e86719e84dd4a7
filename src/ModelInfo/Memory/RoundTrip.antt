-- ===== src/ModelInfo/Memory/RoundTrip.antt =====
-- ModelManager.h: the constants of a model, from operandValues to GetConstVecOperand.
use native.Mathlib.Nat.{pow-suc, mul-div_left}
use nn_hal.Prelude.{
  ℕ, zero, suc, ◌+◌, ◌*◌, ◌/◌, ◌%◌, ◌^◌, ◌<◌, ◌≡◌, refl, ap, ◌∙◌, arith, List, [], ◌∷◌, ◌++◌, ok,
  at, length, All,
}
use nn_hal.Types.{OperandLifeTime}
use nn_hal.ModelInfo.Model.{Operand, NnapiModelInfo, in_values}
use nn_hal.ModelInfo.Memory.{
  Memory, get_operand, get_operand_memory, read_list, read_value, read_values,
  get_const_vec_operand, get_const_vec_from_buffer,
}

-- The `n` bytes of a value, the lowest first.
abbrev pub encode : ℕ → ℕ → List ℕ
encode zero v = []
encode (suc n) v = (v % 256) ∷ encode n (v / 256)

abbrev pub encode_all : ℕ → List ℕ → List ℕ
encode_all n [] = []
encode_all n (v ∷ vs) = encode n v ++ encode_all n vs

-- The given bytes stand in `bytes` from the offset on.
abbrev pub Holds : List ℕ → ℕ → List ℕ → Type 0
Holds bytes o [] = Unit
Holds bytes o (x ∷ xs) = (at bytes o ≡ ok x) × Holds bytes (suc o) xs

Holds-append :
    (bytes : List ℕ) (o : ℕ) (xs ys : List ℕ)
    → Holds bytes o (xs ++ ys)
    → Holds bytes o xs × Holds bytes (o + length xs) ys
Holds-append bytes o [] ys h = let e : o + 0 ≡ o = omega arith in rw e (tt, h)
Holds-append bytes o (x ∷ xs) ys h =
    let rest = Holds-append bytes (suc o) xs ys h.1 in
    let e : o + suc (length xs) ≡ suc o + length xs = omega arith in rw e ((h.0, rest.0), rest.1)

length-encode : (n v : ℕ) → length (encode n v) ≡ n
length-encode zero v = refl
length-encode (suc n) v = ap suc (length-encode n (v / 256))

read_list-encode :
    (bytes : List ℕ) (o n v : ℕ)
    → v < 256 ^ n
    → Holds bytes o (encode n v)
    → read_list bytes o n ≡ ok v
unfolding read_list
read_list-encode bytes o zero v lt h = ap ok (omega arith)
read_list-encode bytes o (suc n) v lt h =
    ground (arith, pow-suc 256 n, read_list-encode bytes (suc o) n (v / 256))

read_values-encode :
    (s : NnapiModelInfo) (memory : Memory) (n : ℕ) (vs : List ℕ) (o : ℕ)
    → All (λ v. v < 256 ^ n) vs
    → Holds s.model.operand_values o (encode_all n vs)
    → read_values s memory n (length vs) (in_values o) ≡ ok vs
unfolding read_values read_value
read_values-encode s memory n [] o small h = refl
read_values-encode s memory n (v ∷ vs) o small h =
    let split = Holds-append s.model.operand_values o (encode n v) (encode_all n vs) h in
    let rest = rw (length-encode n v) at split.1 in
    rw (
      read_list-encode s.model.operand_values o n v small.0 split.0,
      read_values-encode s memory n vs (o + n) small.1 rest,
    )

-- A constant of the model: CONSTANT_COPY, its pool index 0.
pub record IsCopied (s : NnapiModelInfo) (index : ℕ) (op : Operand) : Type 0 where
  pub found : get_operand s index ≡ ok op
  pub copied : op.lifetime ≡ OperandLifeTime.constant_copy
  pub first_pool : op.location.pool_index ≡ 0

module _ (s : NnapiModelInfo) (memory : Memory) (n index : ℕ) (op : Operand)
    (c : IsCopied s index op) where
  memory_of_copied :
      get_operand_memory s index ≡ ok (in_values op.location.offset, op.location.length)
  unfolding get_operand_memory get_operand
  memory_of_copied = ground (arith, c.found, c.copied, c.first_pool)

  -- The values that stand little-endian at a constant operand's place in operandValues, as many as
  -- fill its length, are what GetConstVecOperand returns, for every width of the value type.
  pub get_const_vec_operand-encode_all :
      (vs : List ℕ)
      → 0 < n
      → op.location.length ≡ length vs * n
      → length vs < 2 ^ 31
      → All (λ v. v < 256 ^ n) vs
      → Holds s.model.operand_values op.location.offset (encode_all n vs)
      → get_const_vec_operand s memory n index ≡ ok vs
  unfolding get_const_vec_operand get_const_vec_from_buffer
  get_const_vec_operand-encode_all vs pos len count small h =
      let div : op.location.length / n ≡ length vs =
        ap (λ (t : ℕ). t / n) len ∙ mul-div_left (length vs) pos in
      rw (memory_of_copied, div)
        (ground (arith, read_values-encode s memory n vs op.location.offset small h))
