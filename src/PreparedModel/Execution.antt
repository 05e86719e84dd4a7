-- ===== src/PreparedModel/Execution.antt =====
-- BasePreparedModel.cpp: a request from its memory pools to the inference and back. The blobs of the
-- inference engine and its inference are parameters.
pub mod Areas
pub mod Loops
pub mod Stores
use text.Mathlib.Text.{◌==◌ as str_eq}
use nn_hal.Prelude.{
  ℕ, suc, ◌*◌, ◌/◌, ◌%◌, ◌^◌, Bool, true, false, not, ◌&&◌, List, [], ◌∷◌, Option, none, some,
  String, ◌==◌, ◌>>=◌, ok, fault, exception, undefined, Result, Fault, at, leb, length,
  if◌then◌else◌,
}
use nn_hal.Types.{
  OperandType, ErrorStatus, general_failure, output_insufficient_size, invalid_argument,
  missed_deadline_persistent,
}
use nn_hal.Utils.Pools.{Os, History}
use nn_hal.ModelInfo.Model.{NnapiModelInfo, Request, RequestArgument, OutputShape}
use nn_hal.ModelInfo.Memory.{get_operand_type}
use nn_hal.ModelInfo.Requests.{
  MemoryPool, set_run_time_pool_infos, set_run_time_pool_infos_1_3, get_blob_from_memory_pool_in,
  get_blob_from_memory_pool_out, update_outputshapes, update_request_pool_infos,
}
use nn_hal.PreparedModel.Casts.{
  Conversion, memcpy, float_to_uint8, float_to_int8, float_to_float16, float_to_int16,
  float_to_uint16, cast_values,
}
use nn_hal.Graph.{Ngraph}
use nn_hal.NgraphNodes.{NgraphNodes, get_node_name}

-- What moves between the request's memory and the blobs: an input of `len` bytes at an address, its
-- halves widened or not; the inference, which has ended or not when it is waited for no longer; an
-- output, with the number of bytes that are written.
pub data Transfer : Type 0 where
  load : String → ℕ → ℕ → Bool → Transfer
  infer : Bool → Transfer
  store : String → ℕ → Conversion → ℕ → Transfer

-- A TBlob<float>: byteSize(), the dimensions, and the size() floats, as bit patterns.
pub record Blob : Type 0 where
  pub byte_size : ℕ
  pub dims : List ℕ
  pub floats : List ℕ

abbrev pub size : Blob → ℕ
size b = length b.floats

-- The network that is loaded, by what was moved before, the last first: what GetBlob gives, what
-- StartAsync or Wait throw, and whether the inference ends in the 10000 ms that Wait has.
pub record Engine : Type 0 where
  pub blob : List Transfer → String → Result Blob
  pub infer_fault : List Transfer → Option Fault
  pub ends_in_time : List Transfer → Bool

-- mModelInfo, the nodes of mNgraphNetCreator, and what has happened
pub record Run : Type 0 where
  pub info : NnapiModelInfo
  pub graph : NgraphNodes
  pub history : History
  pub transfers : List Transfer

abbrev pub is_float16 : OperandType → Bool
is_float16 OperandType.tensor_float16 = true
is_float16 type = false

-- the length of the operand's values, from the length of as many floats
unfoldable pub actual_length : OperandType → ℕ → ℕ
actual_length OperandType.tensor_bool8 n = n / 4
actual_length OperandType.tensor_quant8_asymm n = n / 4
actual_length OperandType.tensor_quant8_symm n = n / 4
actual_length OperandType.tensor_quant8_symm_per_channel n = n / 4
actual_length OperandType.tensor_quant8_asymm_signed n = n / 4
actual_length OperandType.tensor_float16 n = n / 2
actual_length OperandType.tensor_quant16_symm n = n / 2
actual_length OperandType.tensor_quant16_asymm n = n / 2
actual_length type n = n

unfoldable pub conversion : OperandType → Conversion
conversion OperandType.tensor_bool8 = float_to_uint8
conversion OperandType.tensor_quant8_asymm = float_to_uint8
conversion OperandType.tensor_quant8_symm = float_to_int8
conversion OperandType.tensor_quant8_symm_per_channel = float_to_int8
conversion OperandType.tensor_quant8_asymm_signed = float_to_int8
conversion OperandType.tensor_float16 = float_to_float16
conversion OperandType.tensor_quant16_symm = float_to_int16
conversion OperandType.tensor_quant16_asymm = float_to_uint16
conversion type = memcpy

-- the bytes that a conversion writes
unfoldable pub written : Conversion → Blob → ℕ
written memcpy b = b.byte_size
written float_to_uint8 b = size b
written float_to_int8 b = size b
written float_to_float16 b = 2 * size b
written float_to_int16 b = 2 * size b
written float_to_uint16 b = 2 * size b

-- the bytes of the blob that an input of `len` bytes takes: a float for each half, or the bytes
unfoldable pub taken : OperandType → ℕ → ℕ
taken type len = if is_float16 type then 4 * (len / 2) else len

-- `if ((outputBlobDims.size() == 0) && (actualLength != 0)) rdims = {1}`; executeFenced has no such
-- test
unfoldable pub shape_dims : Bool → List ℕ → ℕ → List ℕ
shape_dims true [] actual = if actual == 0 then [] else 1 ∷ []
shape_dims with_test dims actual = dims

module _ (g : Ngraph) (engine : Engine) where
  -- The copy of one input to its blob, by the name of its node. Nothing tests that the blob has the
  -- room: beyond its end the copy is undefined.
  unfoldable pub load_blob : Run → String → ℕ → ℕ → ℕ → Result Run
  unfolding taken
  load_blob s name in_index address len = if str_eq name "" then ok s else (do
    dest ← engine.blob s.transfers name
    type ← get_operand_type s.info in_index
    if leb (taken type len) dest.byte_size
        then ok (record s { transfers = load name address len (is_float16 type) ∷ s.transfers })
        else fault undefined)

  unfoldable pub load_input : Run → Request → ℕ → Result Run
  unfolding load_blob
  load_input s request i = do
    in_index ← at s.info.model.input_indexes i
    (info, address, len) ← get_blob_from_memory_pool_in s.info request i
    (name, graph) ← get_node_name g s.graph in_index
    load_blob (record s { info = info; graph = graph }) name in_index address len

  -- the loop over the inputs, of which the first `i` are done
  unfoldable pub load_inputs : Run → Request → ℕ → List RequestArgument → Result Run
  unfolding load_input
  load_inputs s request i [] = ok s
  load_inputs s request i (arg ∷ args) = do
    s' ← load_input s request i
    load_inputs s' request (suc i) args

  -- The values of an output: a cast of a float that is undefined leaves nothing defined.
  unfoldable pub store_values : Run → String → ℕ → OperandType → Blob → Result Run
  unfolding cast_values
  store_values s name address type src = do
    values ← cast_values (conversion type) src.floats
    ok (record s {
      transfers =
          store name address (conversion type) (written (conversion type) src) ∷ s.transfers;
    })

  -- The end of the round for one output: its shape, and its values where the lengths agree.
  unfoldable pub store_blob :
      Bool → Run → String → ℕ → OperandType → Blob → ℕ → ℕ → Result (Run × Bool)
  unfolding store_values
  store_blob with_test s name i type src address expected =
      let actual = actual_length type (src.byte_size % 2 ^ 32) in
      do
        (info, updated) ←
            update_outputshapes s.info i (shape_dims with_test src.dims actual) (actual == expected)
        if actual == expected
            then (do
              s' ← store_values (record s { info = info }) name address type src
              ok (s', true))
            else ok (record s { info = info }, false)

  -- The blob is looked up, and then the place of the output.
  unfoldable pub store_named : Bool → Run → Request → String → ℕ → ℕ → Result (Run × Bool)
  unfolding store_blob
  store_named with_test s request name i out_index = if str_eq name "" then ok (s, true) else (do
    src ← engine.blob s.transfers name
    type ← get_operand_type s.info out_index
    (info, address, expected) ← get_blob_from_memory_pool_out s.info request i
    store_blob with_test (record s { info = info }) name i type src address expected)

  unfoldable pub store_output : Bool → Run → Request → ℕ → Result (Run × Bool)
  unfolding store_named
  store_output with_test s request i = do
    out_index ← at s.info.model.output_indexes i
    (name, graph) ← get_node_name g s.graph out_index
    store_named with_test (record s { graph = graph }) request name i out_index

  -- the loop over the outputs, which ends at the first length that does not agree
  unfoldable pub store_outputs :
      Bool → Run → Request → ℕ → List RequestArgument → Result (Run × Bool)
  unfolding store_output
  store_outputs with_test s request i [] = ok (s, true)
  store_outputs with_test s request i (arg ∷ args) = do
    (s', stored) ← store_output with_test s request i
    elim stored [ true ↦ store_outputs with_test s' request (suc i) args | false ↦ ok (s', false) ]

  -- plugin->infer(), with what is caught: `false` is an exception. What Wait returns is not read, so
  -- that the code goes on where the time is over and the inference has not ended.
  unfoldable pub run_inference : Run → Option Fault → Result (Run × Bool)
  run_inference s none =
      ok (record s { transfers = infer (engine.ends_in_time s.transfers) ∷ s.transfers }, true)
  run_inference s (some exception) = ok (s, false)
  run_inference s (some e) = fault e

  -- From the mapped pools to the outputs, with the status.
  unfoldable pub infer_request : Bool → Run → Request → Result (Run × ErrorStatus)
  unfolding load_inputs store_outputs run_inference
  infer_request with_test s request = do
    s1 ← load_inputs s request 0 request.inputs
    (s2, inferred) ← run_inference s1 (engine.infer_fault s1.transfers)
    elim inferred [
      | false ↦ ok (s2, general_failure)
      | true ↦ (do
        (s3, stored) ← store_outputs with_test s2 request 0 request.outputs
        ok (s3, if stored then ErrorStatus.none else output_insufficient_size))
    ]
