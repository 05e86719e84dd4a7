-- ===== src/PreparedModel/Session/Frame.antt =====
-- ModelManager.cpp: what the operations of a request leave alone in NnapiModelInfo.
use nn_hal.Prelude.{
  ℕ, Bool, List, ◌≡◌, refl, length, length-set, Ends, ok-Ends, if-Ends, after-Ends, ltb, ap, at,
  set, nn_assert,
}
use nn_hal.Utils.Pools.{Os, History, RunTimePoolInfo, HidlMemory}
use nn_hal.ModelInfo.Model.{
  Model, NnapiModelInfo, Request, RequestArgument, RunTimeOperandInfo, offset_by, OutputShape,
}
use nn_hal.ModelInfo.Runtime.{map_pools, resize, fresh_pool}
use nn_hal.ModelInfo.Requests.{
  map_request_pools, MemoryPool, copy_dims, update_outputshapes, blob_in, blob_of,
  get_blob_from_memory_pool_in, get_blob_from_memory_pool_out, set_run_time_pool_infos,
  set_run_time_pool_infos_1_3,
}

-- The model, how many run-time operands and output shapes there are, and the pools.
abbrev pub frame : NnapiModelInfo → Model × ℕ × ℕ × List RunTimePoolInfo
frame s = (s.model, length s.operands, length s.output_shapes, s.request_pool_infos)

abbrev pub SameFrame : NnapiModelInfo → NnapiModelInfo → Type 0
SameFrame s info = frame info ≡ frame s

blob_in-SameFrame :
    (s : NnapiModelInfo) (i : ℕ) (operand : RunTimeOperandInfo) (arg : RequestArgument)
    (r : RunTimePoolInfo)
    → Ends (λ x. SameFrame s x.0) (blob_in s i operand arg r)
unfolding blob_in
blob_in-SameFrame s i operand arg r = after-Ends (offset_by r.buffer arg.location.offset) λ a _.
    ok-Ends _ (
      ap (λ n. (s.model, n, length s.output_shapes, s.request_pool_infos))
        (length-set s.operands i _))

blob_of-SameFrame :
    (s : NnapiModelInfo) (i : ℕ) (arg : RequestArgument)
    → Ends (λ x. SameFrame s x.0) (blob_of s i arg)
unfolding blob_of
blob_of-SameFrame s i arg = after-Ends (at s.operands i) λ operand _.
    after-Ends (nn_assert (ltb arg.location.pool_index (length s.request_pool_infos))) λ u _.
      after-Ends (at s.request_pool_infos arg.location.pool_index)
        λ r _. blob_in-SameFrame s i operand arg r

pub get_blob_in-SameFrame :
    (s : NnapiModelInfo) (request : Request) (i : ℕ)
    → Ends (λ x. SameFrame s x.0) (get_blob_from_memory_pool_in s request i)
unfolding get_blob_from_memory_pool_in
get_blob_in-SameFrame s request i =
    after-Ends (at s.model.input_indexes i)
      λ j _. after-Ends (at request.inputs i) λ arg _. blob_of-SameFrame s j arg

pub get_blob_out-SameFrame :
    (s : NnapiModelInfo) (request : Request) (i : ℕ)
    → Ends (λ x. SameFrame s x.0) (get_blob_from_memory_pool_out s request i)
unfolding get_blob_from_memory_pool_out
get_blob_out-SameFrame s request i =
    after-Ends (at s.model.output_indexes i)
      λ j _. after-Ends (at request.outputs i) λ arg _. blob_of-SameFrame s j arg

marked_shape :
    (s : NnapiModelInfo) (i : ℕ) (shape : OutputShape)
    → SameFrame s (record s { output_shapes = set s.output_shapes i shape })
marked_shape s i shape =
    ap (λ n. (s.model, length s.operands, n, s.request_pool_infos))
      (length-set s.output_shapes i shape)

pub update_outputshapes-SameFrame :
    (s : NnapiModelInfo) (i : ℕ) (dims : List ℕ) (sufficient : Bool)
    → Ends (λ x. SameFrame s x.0) (update_outputshapes s i dims sufficient)
unfolding update_outputshapes
update_outputshapes-SameFrame s i dims sufficient = after-Ends (at s.output_shapes i) λ shape _.
    if-Ends (ltb (length dims) (length shape.dimensions)) _ _ (λ _. ok-Ends _ (marked_shape s i _))
      (λ _. after-Ends (copy_dims shape.dimensions dims) λ ds _. ok-Ends _ (marked_shape s i _))

-- The pools aside.
abbrev pub fixed : NnapiModelInfo → Model × ℕ × ℕ
fixed s = (s.model, length s.operands, length s.output_shapes)

pub set_run_time_pool_infos-fixed :
    (os : Os) (s : NnapiModelInfo) (pools : List HidlMemory) (h : History)
    → Ends (λ x. fixed x.0 ≡ fixed s) (set_run_time_pool_infos os s pools h)
unfolding set_run_time_pool_infos
set_run_time_pool_infos-fixed os s pools h =
    after-Ends (map_pools os (resize fresh_pool (length pools) s.request_pool_infos) pools h)
      λ x _. ok-Ends _ refl

pub set_run_time_pool_infos_1_3-fixed :
    (os : Os) (s : NnapiModelInfo) (pools : List MemoryPool) (h : History)
    → Ends (λ x. fixed x.0 ≡ fixed s) (set_run_time_pool_infos_1_3 os s pools h)
unfolding set_run_time_pool_infos_1_3
set_run_time_pool_infos_1_3-fixed os s pools h =
    after-Ends
      (map_request_pools os (resize fresh_pool (length pools) s.request_pool_infos) pools h)
      λ x _. ok-Ends _ refl
