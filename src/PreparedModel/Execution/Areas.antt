-- ===== src/PreparedModel/Execution/Areas.antt =====
-- BasePreparedModel.cpp: the memory that the loops over the inputs and the outputs touch.
use nn_hal.Prelude.{
  ℕ, ◌+◌, ◌*◌, ◌%◌, ◌^◌, ◌<◌, Bool, List, some, ◌≡◌, refl, arith, ◌>>=◌, >>=-eq-ok, ok, fault,
  undefined, get_elem?, Option-cases, inl, inr, ◌⊎◌, nn_assert, at, All, ltb, length,
}
use nn_hal.Types.{OperandType}
use nn_hal.Utils.Pools.{RunTimePoolInfo, address, Pointer}
use nn_hal.ModelInfo.Model.{NnapiModelInfo, Request, RequestArgument, RunTimeOperandInfo, offset_by}
use nn_hal.ModelInfo.Requests.{
  blob_in, blob_of, get_blob_from_memory_pool_in, get_blob_from_memory_pool_out,
  update_outputshapes,
}
use nn_hal.PreparedModel.Execution.{
  Transfer, load, infer, store, Blob, Run, actual_length, conversion, written, size,
}

-- The bytes that one of the arguments names in a mapped pool.
unfoldable pub IsArea : List RunTimePoolInfo → List RequestArgument → ℕ → ℕ → Type 0
IsArea pools args a len =
    (i : ℕ) × (arg : RequestArgument) × (pool : RunTimePoolInfo) × (base : ℕ) × (get_elem? args i
      ≡ some arg)
    × (get_elem? pools arg.location.pool_index ≡ some pool)
    × (pool.buffer ≡ address base)
    × (a ≡ base + arg.location.offset)
    × (len ≡ arg.location.length)

-- An input is read from an area of the inputs, an output is written to one of the outputs.
unfoldable pub IsWithin : List RunTimePoolInfo → Request → Transfer → Type 0
unfolding IsArea
IsWithin pools request (load name a len halves) = IsArea pools request.inputs a len
IsWithin pools request (infer ended) = Unit
IsWithin pools request (store name a c bytes) = IsArea pools request.outputs a bytes

-- The pools are those of the request, and all that moved was within them.
unfoldable pub IsContained : List RunTimePoolInfo → Request → Run → Type 0
IsContained pools request s =
    (s.info.request_pool_infos ≡ pools) × All (IsWithin pools request) s.transfers

at-eq-ok {ℓ} : {A : Type ℓ} (xs : List A) (i : ℕ) {a : A} → at xs i ≡ ok a → get_elem? xs i ≡ some a
at-eq-ok xs i h = elim (Option-cases (get_elem? xs i)) [
  | inl e ↦ ground arith
  | inr (b, e) ↦ ground arith
]

pointer_cases :
    (p : Pointer) (o : ℕ)
    → ((base : ℕ) × (p ≡ address base) × (offset_by p o ≡ ok (base + o)))
      ⊎ (offset_by p o ≡ fault undefined)
pointer_cases (address base) o = inl (base, refl, refl)
pointer_cases Pointer.null o = inr refl
pointer_cases Pointer.map_failed o = inr refl

-- What blob_in finds in its pool, and blob_of for its argument.
blob_in_lem :
    (info info' : NnapiModelInfo) (operand_index : ℕ) (operand : RunTimeOperandInfo)
    (arg : RequestArgument) (pool : RunTimePoolInfo) (a len : ℕ)
    → blob_in info operand_index operand arg pool ≡ ok (info', a, len)
    → (base : ℕ) × (pool.buffer ≡ address base)
      × (a ≡ base + arg.location.offset)
      × (len ≡ arg.location.length)
      × (info'.request_pool_infos ≡ info.request_pool_infos)
unfolding blob_in
blob_in_lem info info' operand_index operand arg pool a len h =
    elim (pointer_cases pool.buffer arg.location.offset) [
      | inl (base, hb, ho) ↦ (base, hb, ground arith, ground arith, ground arith)
      | inr ho ↦ ground arith
    ]

blob_of_lem :
    (info info' : NnapiModelInfo) (operand_index : ℕ) (arg : RequestArgument) (a len : ℕ)
    → blob_of info operand_index arg ≡ ok (info', a, len)
    → (pool : RunTimePoolInfo) × (base : ℕ) × (get_elem? info.request_pool_infos
          arg.location.pool_index
        ≡ some pool)
      × (pool.buffer ≡ address base)
      × (a ≡ base + arg.location.offset)
      × (len ≡ arg.location.length)
      × (info'.request_pool_infos ≡ info.request_pool_infos)
unfolding blob_of
blob_of_lem info info' operand_index arg a len h =
    let i = arg.location.pool_index in
    let pools = info.request_pool_infos in
    let (operand, ho, h1) =
      >>=-eq-ok (at info.operands operand_index)
        (λ operand. nn_assert (ltb i (length pools)) >>= λ u.
          at pools i >>= λ r. blob_in info operand_index operand arg r)
        h in
    let (u, hu, h2) =
      >>=-eq-ok (nn_assert (ltb i (length pools)))
        (λ u. at pools i >>= λ r. blob_in info operand_index operand arg r) h1 in
    let (r, hr, h3) = >>=-eq-ok (at pools i) (λ r. blob_in info operand_index operand arg r) h2 in
    let (base, hb, haddr, hl, hk) = blob_in_lem info info' operand_index operand arg r a len h3 in
    (r, base, at-eq-ok pools i hr, hb, haddr, hl, hk)

pub get_blob_in_lem :
    (info info' : NnapiModelInfo) (request : Request) (i a len : ℕ)
    → get_blob_from_memory_pool_in info request i ≡ ok (info', a, len)
    → IsArea info.request_pool_infos request.inputs a len
      × (info'.request_pool_infos ≡ info.request_pool_infos)
unfolding get_blob_from_memory_pool_in IsArea
get_blob_in_lem info info' request i a len h =
    let (oi, ho, h1) =
      >>=-eq-ok (at info.model.input_indexes i)
        (λ oi. at request.inputs i >>= λ arg. blob_of info oi arg) h in
    let (arg, ha, h2) = >>=-eq-ok (at request.inputs i) (λ arg. blob_of info oi arg) h1 in
    let (pool, base, hp, hb, haddr, hl, hk) = blob_of_lem info info' oi arg a len h2 in
    ((i, arg, pool, base, at-eq-ok request.inputs i ha, hp, hb, haddr, hl), hk)

pub get_blob_out_lem :
    (info info' : NnapiModelInfo) (request : Request) (i a len : ℕ)
    → get_blob_from_memory_pool_out info request i ≡ ok (info', a, len)
    → IsArea info.request_pool_infos request.outputs a len
      × (info'.request_pool_infos ≡ info.request_pool_infos)
unfolding get_blob_from_memory_pool_out IsArea
get_blob_out_lem info info' request i a len h =
    let (oi, ho, h1) =
      >>=-eq-ok (at info.model.output_indexes i)
        (λ oi. at request.outputs i >>= λ arg. blob_of info oi arg) h in
    let (arg, ha, h2) = >>=-eq-ok (at request.outputs i) (λ arg. blob_of info oi arg) h1 in
    let (pool, base, hp, hb, haddr, hl, hk) = blob_of_lem info info' oi arg a len h2 in
    ((i, arg, pool, base, at-eq-ok request.outputs i ha, hp, hb, haddr, hl), hk)

pub update_outputshapes-pools :
    (s s' : NnapiModelInfo) (i : ℕ) (dims : List ℕ) (b c : Bool)
    → update_outputshapes s i dims b ≡ ok (s', c)
    → s'.request_pool_infos ≡ s.request_pool_infos
unfolding update_outputshapes
update_outputshapes-pools s s' i dims b c h = ground arith

-- For a blob of floats, the bytes that are written are those that the test compares.
pub written-actual_length :
    (type : OperandType) (b : Blob)
    → b.byte_size ≡ 4 * size b
    → b.byte_size < 2 ^ 32
    → written (conversion type) b ≡ actual_length type (b.byte_size % 2 ^ 32)
unfolding written conversion actual_length
written-actual_length type b h4 h32 = ground arith
