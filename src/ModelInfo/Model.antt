-- ===== src/ModelInfo/Model.antt =====
-- The parts of a HIDL V1_3 Model and Request that ModelManager.cpp reads, RunTimeOperandInfo of
-- utils.h, and the fields of NnapiModelInfo. A float is its bit pattern, as is an `int32_t`.
use nn_hal.Prelude.{ℕ, ◌+◌, Bool, List, [], Result, ok, fault, undefined}
use nn_hal.Types.{OperandType, OperandLifeTime, OperationType}
use nn_hal.Utils.Pools.{Pointer, null, map_failed, address, HidlMemory, RunTimePoolInfo}

pub record DataLocation : Type 0 where
  pub pool_index : ℕ
  pub offset : ℕ
  pub length : ℕ

-- extraParams.channelQuant()
pub record ChannelQuant : Type 0 where
  pub scales : List ℕ
  pub channel_dim : ℕ

pub record Operand : Type 0 where
  pub type : OperandType
  pub dimensions : List ℕ
  pub number_of_consumers : ℕ
  pub scale : ℕ
  pub zero_point : ℕ
  pub lifetime : OperandLifeTime
  pub location : DataLocation
  pub channel_quant : ChannelQuant

pub record Operation : Type 0 where
  pub type : OperationType
  pub inputs : List ℕ
  pub outputs : List ℕ

pub record Model : Type 0 where
  pub operands : List Operand
  pub operations : List Operation
  pub input_indexes : List ℕ
  pub output_indexes : List ℕ
  pub operand_values : List ℕ
  pub pools : List HidlMemory

-- A pointer to constant data: into mModel.operandValues, or into a mapped pool.
pub data Buffer : Type 0 where
  no_buffer : Buffer
  in_values : ℕ → Buffer
  in_pool : ℕ → Buffer

pub record RunTimeOperandInfo : Type 0 where
  pub type : OperandType
  pub dimensions : List ℕ
  pub scale : ℕ
  pub zero_point : ℕ
  pub buffer : Buffer
  pub length : ℕ
  pub lifetime : OperandLifeTime
  pub number_of_uses_left : ℕ

-- What `resize` puts into a vector of RunTimeOperandInfo.
abbrev pub fresh_operand : RunTimeOperandInfo
fresh_operand = record {
  type = OperandType.float32;
  dimensions = [];
  scale = 0;
  zero_point = 0;
  buffer = no_buffer;
  length = 0;
  lifetime = OperandLifeTime.temporary_variable;
  number_of_uses_left = 0;
}

pub record OutputShape : Type 0 where
  pub dimensions : List ℕ
  pub is_sufficient : Bool

pub record RequestArgument : Type 0 where
  pub location : DataLocation
  pub dimensions : List ℕ

pub record Request : Type 0 where
  pub inputs : List RequestArgument
  pub outputs : List RequestArgument
  pub pools : List HidlMemory

pub record NnapiModelInfo : Type 0 where
  pub model : Model
  pub pool_infos : List RunTimePoolInfo
  pub operands : List RunTimeOperandInfo
  pub request_pool_infos : List RunTimePoolInfo
  pub output_shapes : List OutputShape

-- the constructor copies the model; the vectors are empty
unfoldable pub nnapi_model_info : Model → NnapiModelInfo
nnapi_model_info m = record {
  model = m;
  pool_infos = [];
  operands = [];
  request_pool_infos = [];
  output_shapes = [];
}

-- `r.buffer + offset`, undefined for a pointer that was never mapped
abbrev pub offset_by : Pointer → ℕ → Result ℕ
offset_by (address a) o = ok (a + o)
offset_by null o = fault undefined
offset_by map_failed o = fault undefined
