-- ===== src/ModelInfo/Memory.antt =====
-- ModelManager.h and ModelManager.cpp: the getters of the model, and the constants of operands.
-- A value of type T is its bit pattern, read little-endian from `sizeof(T)` bytes.
pub mod RoundTrip
use nn_hal.Prelude.{
  ℕ, zero, suc, ◌+◌, ◌*◌, ◌/◌, ◌^◌, Bool, true, false, ◌&&◌, List, [], ◌∷◌, ◌==◌, ltb, ◌>>=◌, ◌>>◌,
  ok, fault, abort, undefined, Result, at, nn_assert, length,
}
use nn_hal.Types.{OperandType, OperationType, OperandLifeTime}
use nn_hal.Utils.Sizes.{size_of_data}
use nn_hal.ModelInfo.Model.{
  Operand, Operation, NnapiModelInfo, Buffer, no_buffer, in_values, in_pool, offset_by,
}

-- The bytes of the mapped pools, by their addresses.
abbrev pub Memory : Type 0
Memory = ℕ → ℕ

unfoldable pub get_operand : NnapiModelInfo → ℕ → Result Operand
get_operand s index = at s.model.operands index

pub get_operation : NnapiModelInfo → ℕ → Result Operation
get_operation s index = at s.model.operations index

unfoldable pub get_operation_input : NnapiModelInfo → ℕ → ℕ → Result ℕ
unfolding get_operation
get_operation_input s operation index = do op ← get_operation s operation; at op.inputs index

unfoldable pub get_operation_output : NnapiModelInfo → ℕ → ℕ → Result ℕ
unfolding get_operation
get_operation_output s operation index = do op ← get_operation s operation; at op.outputs index

pub get_operation_inputs_size : NnapiModelInfo → ℕ → Result ℕ
unfolding get_operation
get_operation_inputs_size s operation = do op ← get_operation s operation; ok (length op.inputs)

pub get_operation_outputs_size : NnapiModelInfo → ℕ → Result ℕ
unfolding get_operation
get_operation_outputs_size s operation = do op ← get_operation s operation; ok (length op.outputs)

pub get_operation_type : NnapiModelInfo → ℕ → Result OperationType
unfolding get_operation
get_operation_type s operation = do op ← get_operation s operation; ok op.type

unfoldable pub get_operand_type : NnapiModelInfo → ℕ → Result OperandType
unfolding get_operand
get_operand_type s index = do op ← get_operand s index; ok op.type

abbrev pub is_const_lifetime : OperandLifeTime → Bool
is_const_lifetime OperandLifeTime.constant_copy = true
is_const_lifetime OperandLifeTime.constant_reference = true
is_const_lifetime lifetime = false

abbrev pub is_no_value : OperandLifeTime → Bool
is_no_value OperandLifeTime.no_value = true
is_no_value lifetime = false

-- isOperandLifeTimeConst, and isConstOperand
unfoldable pub is_operand_life_time_const : NnapiModelInfo → ℕ → Result Bool
unfolding get_operand
is_operand_life_time_const s index = do op ← get_operand s index; ok (is_const_lifetime op.lifetime)

pub is_omitted_input : NnapiModelInfo → ℕ → ℕ → Result Bool
unfolding get_operand get_operation_input
is_omitted_input s operation index = do
  i ← get_operation_input s operation index
  op ← get_operand s i
  ok (is_no_value op.lifetime)

-- the branches of GetOperandMemory, by the lifetime; the result is the pointer and `lenOut`
memory_of : NnapiModelInfo → Operand → OperandLifeTime → Result (Buffer × ℕ)
memory_of s op OperandLifeTime.constant_copy = do
  nn_assert (op.location.pool_index == 0)
  ok (in_values op.location.offset, op.location.length)
memory_of s op OperandLifeTime.constant_reference = do
  r ← at s.pool_infos op.location.pool_index
  a ← offset_by r.buffer op.location.offset
  ok (in_pool a, op.location.length)
memory_of s op OperandLifeTime.other = fault abort
memory_of s op lifetime = ok (no_buffer, size_of_data op.type op.dimensions)

pub get_operand_memory : NnapiModelInfo → ℕ → Result (Buffer × ℕ)
unfolding get_operand memory_of
get_operand_memory s index = do op ← get_operand s index; memory_of s op op.lifetime

-- The number that `n` bytes stand for, the lowest byte first.
read_list : List ℕ → ℕ → ℕ → Result ℕ
read_list bytes offset zero = ok 0
read_list bytes offset (suc n) = do
  b ← at bytes offset
  rest ← read_list bytes (suc offset) n
  ok (b + 256 * rest)

read_memory : Memory → ℕ → ℕ → ℕ
read_memory memory a zero = 0
read_memory memory a (suc n) = memory a + 256 * read_memory memory (suc a) n

-- *(T*)(buf), where T has `n` bytes
pub read_value : NnapiModelInfo → Memory → ℕ → Buffer → Result ℕ
unfolding read_list read_memory
read_value s memory n no_buffer = fault undefined
read_value s memory n (in_values o) = read_list s.model.operand_values o n
read_value s memory n (in_pool a) = ok (read_memory memory a n)

-- buf += n
advance : ℕ → Buffer → Buffer
advance n no_buffer = no_buffer
advance n (in_values o) = in_values (o + n)
advance n (in_pool a) = in_pool (a + n)

pub get_const_from_buffer : NnapiModelInfo → Memory → ℕ → Buffer → ℕ → Result ℕ
unfolding read_value
get_const_from_buffer s memory n buf len = do nn_assert (len == n); read_value s memory n buf

pub get_const_operand : NnapiModelInfo → Memory → ℕ → ℕ → Result ℕ
unfolding get_operand_memory get_const_from_buffer
get_const_operand s memory n index = do
  (buf, len) ← get_operand_memory s index
  get_const_from_buffer s memory n buf len

-- the loop of GetConstVecFromBuffer, over the values left
pub read_values : NnapiModelInfo → Memory → ℕ → ℕ → Buffer → Result (List ℕ)
unfolding advance
read_values s memory n zero buf = ok []
read_values s memory n (suc count) buf = do
  v ← read_value s memory n buf
  rest ← read_values s memory n count (advance n buf)
  ok (v ∷ rest)

-- `int n = len / sizeof(T)`, and a count that does not fit an `int` fails the test too
pub get_const_vec_from_buffer : NnapiModelInfo → Memory → ℕ → Buffer → ℕ → Result (List ℕ)
unfolding read_values
get_const_vec_from_buffer s memory n buf len = do
  nn_assert (ltb (len / n) (2 ^ 31) && len / n * n == len)
  read_values s memory n (len / n) buf

pub get_const_vec_operand : NnapiModelInfo → Memory → ℕ → ℕ → Result (List ℕ)
unfolding get_operand_memory get_const_vec_from_buffer
get_const_vec_operand s memory n index = do
  (buf, len) ← get_operand_memory s index
  get_const_vec_from_buffer s memory n buf len

-- ParseOperationInput, for a T of `n` bytes
pub parse_operation_input : NnapiModelInfo → Memory → ℕ → ℕ → ℕ → Result ℕ
unfolding get_operation_input get_operand get_const_operand
parse_operation_input s memory n operation index = do
  i ← get_operation_input s operation index
  operand ← get_operand s i
  get_const_operand s memory n i
