-- ===== src/Types.antt =====
-- The enumerations of the HIDL interface that the source names (V1_3 OperandType, OperandLifeTime
-- and ErrorStatus), and IntelDeviceType of Driver.h. `other` stands for every enumerator that the
-- source does not name.
use Prim.Native.Nat.{ℕ}
use native.Mathlib.Decide.{ℕ_discrete}

pub data OperandType : Type 0 where
  float32 int32 uint32 tensor_float32 tensor_int32 tensor_quant8_asymm bool : OperandType
  tensor_quant16_symm tensor_float16 tensor_bool8 float16 : OperandType
  tensor_quant8_symm_per_channel tensor_quant16_asymm tensor_quant8_symm : OperandType
  tensor_quant8_asymm_signed subgraph other : OperandType

pub data OperandLifeTime : Type 0 where
  temporary_variable subgraph_input subgraph_output constant_copy constant_reference no_value :
      OperandLifeTime
  other : OperandLifeTime

pub data ErrorStatus : Type 0 where
  none device_unavailable general_failure output_insufficient_size invalid_argument : ErrorStatus
  missed_deadline_persistent : ErrorStatus

pub data IntelDeviceType : Type 0 where
  cpu gpu gna vpu other : IntelDeviceType

-- V1_3 OperationType: the operations that OperationsFactory knows, and any other, by its number.
pub data OperationType : Type 0 where
  abs add argmax argmin average_pool_2d batch_to_space_nd : OperationType
  bidirectional_sequence_rnn cast channel_shuffle concatenation conv_2d : OperationType
  depth_to_space depthwise_conv_2d dequantize div embedding_lookup equal exp : OperationType
  expand_dims fully_connected floor gather greater greater_equal : OperationType
  grouped_conv_2d hard_swish instance_normalization l2_pool_2d l2_normalization : OperationType
  lstm less less_equal log_softmax log logical_and logical_not logical_or : OperationType
  logistic maximum max_pool_2d mean minimum mul neg not_equal pad pad_v2 pow : OperationType
  prelu quantize reduce_all reduce_any reduce_max reduce_min reduce_prod : OperationType
  reduce_sum relu relu1 relu6 reshape rnn roi_align roi_pooling rsqrt : OperationType
  resize_bilinear resize_nearest_neighbor select softmax space_to_batch_nd : OperationType
  space_to_depth sqrt sin split strided_slice squeeze sub tanh topk_v2 : OperationType
  transpose_conv_2d transpose unidirectional_sequence_rnn : OperationType
  other : ℕ → OperationType

pub OperationType-discrete : Discrete OperationType
OperationType-discrete = hlevel (ℕ_discrete)
