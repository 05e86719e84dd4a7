-- ===== src/ModelInfo/Requests.antt =====
-- ModelManager.cpp and ModelManager.h: the memory and the output shapes of a request.
pub mod Shapes
use nn_hal.Prelude.{
  ℕ, ◌%◌, ◌^◌, Bool, true, false, List, [], ◌∷◌, ◌==◌, ltb, ◌>>=◌, ◌>>◌, ok, fault, undefined,
  Result, at, nn_assert, if◌then◌else◌, length,
}
use nn_hal.Prelude.{set as set_elem}
use nn_hal.Types.{ErrorStatus, general_failure, invalid_argument}
use nn_hal.Utils.Pools.{HidlMemory, RunTimePoolInfo, Os, History, set, unmap_mem, update}
use nn_hal.ModelInfo.Model.{
  NnapiModelInfo, RequestArgument, Request, RunTimeOperandInfo, in_pool, offset_by,
}
use nn_hal.ModelInfo.Runtime.{fresh_pool, map_pools, resize}

-- The loop of updateOutputshapes over the dimensions of the shape, which are uint32_t: a size_t is
-- compared with them as it is, and narrowed where it is assigned.
unfoldable pub copy_dims : List ℕ → List ℕ → Result (List ℕ)
copy_dims [] new = ok []
copy_dims (d ∷ ds) [] = fault undefined
copy_dims (d ∷ ds) (n ∷ ns) = do
  rest ← copy_dims ds ns
  ok ((if d == n then d else n % 2 ^ 32) ∷ rest)

-- The dimensions stay as they are where the new ones are fewer, and false is returned.
unfoldable pub update_outputshapes :
    NnapiModelInfo → ℕ → List ℕ → Bool → Result (NnapiModelInfo × Bool)
unfolding copy_dims
update_outputshapes s output_index output_dims is_length_sufficient = do
  shape ← at s.output_shapes output_index
  let marked = record shape { is_sufficient = is_length_sufficient }
  if ltb (length output_dims) (length shape.dimensions)
      then ok (record s { output_shapes = set_elem s.output_shapes output_index marked }, false)
      else (do
        dims ← copy_dims shape.dimensions output_dims
        ok (
          record s {
            output_shapes =
                set_elem s.output_shapes output_index (record marked { dimensions = dims });
          },
          true,
        ))

-- setRunTimePoolInfosFromHidlMemories, for the pools of a V1_0 request
unfoldable pub set_run_time_pool_infos :
    Os
    → NnapiModelInfo
    → List HidlMemory
    → History
    → Result (NnapiModelInfo × ErrorStatus × History)
set_run_time_pool_infos os s pools h = do
  (infos, done, h') ← map_pools os (resize fresh_pool (length pools) s.request_pool_infos) pools h
  ok (
    record s { request_pool_infos = infos },
    if done then ErrorStatus.none else general_failure,
    h',
  )

-- a V1_3 memory pool: hidl_memory, or the token of a driver buffer
pub data MemoryPool : Type 0 where
  hidl_memory : HidlMemory → MemoryPool
  token : MemoryPool

-- the loop of the V1_3 overload, with what it returns
pub map_request_pools :
    Os
    → List RunTimePoolInfo
    → List MemoryPool
    → History
    → Result (List RunTimePoolInfo × ErrorStatus × History)
map_request_pools os (old ∷ olds) (hidl_memory m ∷ ms) h = do
  (pool, done, h') ← set os old m h
  elim done [
    | true ↦ (do
      (pools, status, h'') ← map_request_pools os olds ms h'
      ok (pool ∷ pools, status, h''))
    | false ↦ ok (pool ∷ olds, general_failure, h')
  ]
map_request_pools os (old ∷ olds) (token ∷ ms) h = ok (old ∷ olds, invalid_argument, h)
map_request_pools os olds ms h = ok (olds, ErrorStatus.none, h)

unfoldable pub set_run_time_pool_infos_1_3 :
    Os
    → NnapiModelInfo
    → List MemoryPool
    → History
    → Result (NnapiModelInfo × ErrorStatus × History)
unfolding map_request_pools
set_run_time_pool_infos_1_3 os s pools h = do
  (infos, status, h') ←
      map_request_pools os (resize fresh_pool (length pools) s.request_pool_infos) pools h
  ok (record s { request_pool_infos = infos }, status, h')

-- if (arg.dimensions.size() > 0) operand.dimensions = arg.dimensions;
abbrev pub given_dims : List ℕ → List ℕ → List ℕ
given_dims old [] = old
given_dims old (d ∷ ds) = d ∷ ds

-- the end of getBlobFromMemoryPoolIn and getBlobFromMemoryPoolOut, in the pool `r`
unfoldable pub blob_in :
    NnapiModelInfo
    → ℕ
    → RunTimeOperandInfo
    → RequestArgument
    → RunTimePoolInfo
    → Result (NnapiModelInfo × ℕ × ℕ)
blob_in s operand_index operand arg r = do
  a ← offset_by r.buffer arg.location.offset
  ok (
    record s {
      operands = set_elem s.operands operand_index (record operand {
        dimensions = given_dims operand.dimensions arg.dimensions;
        buffer = in_pool a;
        length = arg.location.length;
      });
    },
    a,
    arg.location.length,
  )

-- What the two do with the operand and the argument; the results are the pointer and
-- `rBufferLength`.
unfoldable pub blob_of : NnapiModelInfo → ℕ → RequestArgument → Result (NnapiModelInfo × ℕ × ℕ)
unfolding blob_in
blob_of s operand_index arg = do
  operand ← at s.operands operand_index
  nn_assert (ltb arg.location.pool_index (length s.request_pool_infos))
  r ← at s.request_pool_infos arg.location.pool_index
  blob_in s operand_index operand arg r

unfoldable pub get_blob_from_memory_pool_in :
    NnapiModelInfo → Request → ℕ → Result (NnapiModelInfo × ℕ × ℕ)
unfolding blob_of
get_blob_from_memory_pool_in s request index = do
  operand_index ← at s.model.input_indexes index
  arg ← at request.inputs index
  blob_of s operand_index arg

unfoldable pub get_blob_from_memory_pool_out :
    NnapiModelInfo → Request → ℕ → Result (NnapiModelInfo × ℕ × ℕ)
unfolding blob_of
get_blob_from_memory_pool_out s request index = do
  operand_index ← at s.model.output_indexes index
  arg ← at request.outputs index
  blob_of s operand_index arg

-- the loop works on copies, ignores what `update` returns, and then returns true
unfoldable pub update_request_pool_infos :
    Os → List RunTimePoolInfo → History → Result (Bool × History)
update_request_pool_infos os [] h = ok (true, h)
update_request_pool_infos os (r ∷ rs) h = do
  (done, h') ← update os r h
  update_request_pool_infos os rs h'

-- Each `runtimeInfo` is a copy: only the calls to the system are left.
unfoldable pub unmap_copies : Os → List RunTimePoolInfo → History → History
unmap_copies os [] h = h
unmap_copies os (r ∷ rs) h = unmap_copies os rs (unmap_mem os r h).2

unfoldable pub unmap_runtime_mem_pools : Os → NnapiModelInfo → History → NnapiModelInfo × History
unfolding unmap_copies
unmap_runtime_mem_pools os s h = (s, unmap_copies os s.request_pool_infos h)
