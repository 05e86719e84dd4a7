-- ===== src/ModelInfo/Runtime.antt =====
-- ModelManager.cpp and ModelManager.h: initRuntimeInfo and initializeRunTimeOperandInfo.
pub mod Mirrors
use nn_hal.Prelude.{
  ℕ, zero, suc, ◌+◌, ◌%◌, ◌^◌, Bool, true, false, ◌||◌, Option, none, some, List, [], ◌∷◌, ◌++◌,
  ◌==◌, ltb, ◌>>=◌, ◌>>◌, ok, fault, Result, at, nn_assert, if◌then◌else◌, length, replicate, map,
}
use nn_hal.Types.{OperandType, OperandLifeTime}
use nn_hal.Utils.Sizes.{size_of_data}
use nn_hal.Utils.Pools.{HidlMemory, RunTimePoolInfo, Os, History, null, set}
use nn_hal.ModelInfo.Model.{
  Operand, Model, RunTimeOperandInfo, OutputShape, NnapiModelInfo, no_buffer, in_values, in_pool,
  fresh_operand, offset_by,
}

-- scale == 0, as a float: both zeros
abbrev pub is_zero_scale : ℕ → Bool
is_zero_scale s = s == 0 || s == 2 ^ 31

-- switch (from.type): the type that `to` gets; `none` is the `default`, which returns false
abbrev pub runtime_type : OperandType → Option OperandType
runtime_type OperandType.tensor_float32 = some OperandType.tensor_float32
runtime_type OperandType.float32 = some OperandType.tensor_float32
runtime_type OperandType.subgraph = none
runtime_type OperandType.other = none
runtime_type t = some t

-- nnAssert(to.scale == 0), for the scalar types
abbrev pub scale_allowed : OperandType → ℕ → Bool
scale_allowed OperandType.int32 s = is_zero_scale s
scale_allowed OperandType.uint32 s = is_zero_scale s
scale_allowed OperandType.bool s = is_zero_scale s
scale_allowed t s = true

-- switch (from.lifetime)
place :
    List RunTimePoolInfo
    → Operand
    → RunTimeOperandInfo
    → OperandLifeTime
    → Result (RunTimeOperandInfo × Bool)
place pools from to OperandLifeTime.temporary_variable = ok (
  record to {
    buffer = no_buffer;
    length = size_of_data to.type to.dimensions;
    number_of_uses_left = from.number_of_consumers;
  },
  true,
)
place pools from to OperandLifeTime.constant_copy =
    ok (record to { buffer = in_values from.location.offset; number_of_uses_left = 0 }, true)
place pools from to OperandLifeTime.constant_reference = do
  nn_assert (ltb from.location.pool_index (length pools))
  r ← at pools from.location.pool_index
  a ← offset_by r.buffer from.location.offset
  ok (record to { buffer = in_pool a; number_of_uses_left = 0 }, true)
place pools from to OperandLifeTime.other = ok (to, false)
place pools from to lifetime = ok (record to { buffer = no_buffer; number_of_uses_left = 0 }, true)

-- the rest of the loop's body, once the type is known
typed :
    List RunTimePoolInfo
    → Operand
    → RunTimeOperandInfo
    → Option OperandType
    → Result (RunTimeOperandInfo × Bool)
unfolding place
typed pools from to none = ok (to, false)
typed pools from to (some t) = do
  nn_assert (scale_allowed from.type to.scale)
  place pools from
      (record to {
        type = t;
        length = from.location.length;
        lifetime = from.lifetime;
        zero_point = from.zero_point;
      })
      from.lifetime

-- One round of the loop over the operands; the flag is false where the source returns false.
unfoldable pub runtime_operand : List RunTimePoolInfo → Operand → Result (RunTimeOperandInfo × Bool)
unfolding typed
runtime_operand pools from =
    typed pools from (record fresh_operand { dimensions = from.dimensions; scale = from.scale })
      (runtime_type from.type)

-- `return false` leaves the operands that were not reached as `resize` made them.
unfoldable pub runtime_operands :
    List RunTimePoolInfo → List Operand → Result (List RunTimeOperandInfo × Bool)
runtime_operands pools [] = ok ([], true)
runtime_operands pools (from ∷ rest) = do
  (to, done) ← runtime_operand pools from
  elim done [
    | true ↦ (do (tos, all_done) ← runtime_operands pools rest; ok (to ∷ tos, all_done))
    | false ↦ ok (to ∷ replicate (length rest) fresh_operand, false)
  ]

-- mOutputShapes[i] from mOperands[mModel.main.outputIndexes[i]]
unfoldable pub initial_shapes : List RunTimeOperandInfo → List ℕ → Result (List OutputShape)
initial_shapes operands [] = ok []
initial_shapes operands (i ∷ is) = do
  from ← at operands i
  shapes ← initial_shapes operands is
  ok (record { dimensions = from.dimensions; is_sufficient = true } ∷ shapes)

abbrev empty_shape : OutputShape
empty_shape = record { dimensions = []; is_sufficient = false }

unfoldable pub initialize_run_time_operand_info : NnapiModelInfo → Result (NnapiModelInfo × Bool)
initialize_run_time_operand_info s = if length s.model.operands == 0 then ok (s, false) else (do
  (operands, done) ← runtime_operands s.pool_infos s.model.operands
  elim done [
    | true ↦ (do
      shapes ← initial_shapes operands s.model.output_indexes
      ok (record s { operands = operands; output_shapes = shapes }, true))
    | false ↦ ok (
      record s {
        operands = operands;
        output_shapes = replicate (length s.model.output_indexes) empty_shape;
      },
      false,
    )
  ])

abbrev pub fresh_pool : RunTimePoolInfo
fresh_pool = record {
  memory = none;
  hidl_memory = record { name = ""; size = 0; handle = [] };
  buffer = null;
}

-- mPoolInfos.resize(n), then a loop of `set` that stops at the first failure
unfoldable pub map_pools :
    Os
    → List RunTimePoolInfo
    → List HidlMemory
    → History
    → Result (List RunTimePoolInfo × Bool × History)
map_pools os (old ∷ olds) (m ∷ ms) h = do
  (pool, done, h') ← set os old m h
  elim done [
    | true ↦ (do (pools, all_done, h'') ← map_pools os olds ms h'; ok (pool ∷ pools, all_done, h''))
    | false ↦ ok (pool ∷ olds, false, h')
  ]
map_pools os olds ms h = ok (olds, true, h)

-- vector::resize
abbrev pub resize {ℓ} : {A : Type ℓ} → A → ℕ → List A → List A
resize a zero xs = []
resize a (suc n) [] = a ∷ resize a n []
resize a (suc n) (x ∷ xs) = x ∷ resize a n xs

unfoldable pub init_runtime_info :
    Os → NnapiModelInfo → History → Result (NnapiModelInfo × Bool × History)
init_runtime_info os s h = do
  (pools, mapped, h') ←
      map_pools os (resize fresh_pool (length s.model.pools) s.pool_infos) s.model.pools h
  elim mapped [
    | true ↦ (do
      (s', done) ← initialize_run_time_operand_info (record s { pool_infos = pools })
      ok (s', done, h'))
    | false ↦ ok (record s { pool_infos = pools }, false, h')
  ]
