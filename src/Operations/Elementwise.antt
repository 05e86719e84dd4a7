-- ===== src/Operations/Elementwise.antt =====
-- ngraph_creator/operations/src: the operations that make one node of their inputs, or a node and
-- a fused activation (Abs.cpp to Tanh.cpp, and Add, Sub, Mul, Div).
pub mod Frame
use nn_hal.Prelude.{Bool, not, [], ◌∷◌, ◌==◌, if◌then◌else◌}
use nn_hal.Prelude.Int.{pos, negsuc}
use nn_hal.Types.{IntelDeviceType, OperandType}
use nn_hal.Graph.{Node, Op}
use nn_hal.Graph.ElementType.{f16, f32}
use nn_hal.Build.{
  Build, ◌>>=◌, operation_input, is_const, parse, make, make_const, shape_of, plugin_type,
  get_operation_output,
}
use nn_hal.Operations.Base.{transpose, ConversionType, check_input_operand_type}
use nn_hal.Operations.Inputs.{get_input_node, apply_activation}

-- The nodes of inputs 0, 1 and 2, in this order.
abbrev pub unary : Op → Build Node
unary o = do input ← get_input_node 0; make o (input ∷ [])

abbrev pub binary : Op → Build Node
binary o = do input1 ← get_input_node 0; input2 ← get_input_node 1; make o (input1 ∷ input2 ∷ [])

abbrev pub activated : Op → Build Node
activated o = do
  input1 ← get_input_node 0
  input2 ← get_input_node 1
  activation_fn ← parse 4 2
  n ← make o (input1 ∷ input2 ∷ [])
  apply_activation n activation_fn

-- keep_dims is a uint8_t that is taken for a bool
abbrev pub reduced : (Bool → Op) → Build Node
reduced o = do
  input ← get_input_node 0
  reduction_axes ← get_input_node 1
  keep_dims ← parse 1 2
  make (o (not (keep_dims == 0))) (input ∷ reduction_axes ∷ [])

abbrev pub create_abs : Build Node
create_abs = unary Op.abs

abbrev pub create_exp : Build Node
create_exp = unary Op.exp

abbrev pub create_floor : Build Node
create_floor = unary Op.floor

abbrev pub create_hard_swish : Build Node
create_hard_swish = unary Op.h_swish

abbrev pub create_log : Build Node
create_log = unary Op.log

abbrev pub create_logical_not : Build Node
create_logical_not = unary Op.logical_not

abbrev pub create_logistic : Build Node
create_logistic = unary Op.sigmoid

abbrev pub create_neg : Build Node
create_neg = unary Op.negative

abbrev pub create_relu : Build Node
create_relu = unary Op.relu

abbrev pub create_relu1 : Build Node
create_relu1 = unary (Op.clamp (negsuc 0) (pos 1))

abbrev pub create_relu6 : Build Node
create_relu6 = unary (Op.clamp (pos 0) (pos 6))

abbrev pub create_sin : Build Node
create_sin = unary Op.sin

abbrev pub create_sqrt : Build Node
create_sqrt = unary Op.sqrt

abbrev pub create_tanh : Build Node
create_tanh = unary Op.tanh

abbrev pub create_equal : Build Node
create_equal = binary Op.equal

abbrev pub create_not_equal : Build Node
create_not_equal = binary Op.not_equal

abbrev pub create_greater : Build Node
create_greater = binary Op.greater

abbrev pub create_greater_equal : Build Node
create_greater_equal = binary Op.greater_equal

abbrev pub create_less : Build Node
create_less = binary Op.less

abbrev pub create_less_equal : Build Node
create_less_equal = binary Op.less_equal

abbrev pub create_logical_and : Build Node
create_logical_and = binary Op.logical_and

abbrev pub create_logical_or : Build Node
create_logical_or = binary Op.logical_or

abbrev pub create_maximum : Build Node
create_maximum = binary Op.maximum

abbrev pub create_minimum : Build Node
create_minimum = binary Op.minimum

abbrev pub create_pow : Build Node
create_pow = binary Op.power

abbrev pub create_prelu : Build Node
create_prelu = binary Op.p_relu

abbrev pub create_select : Build Node
create_select = do
  input1 ← get_input_node 0
  input2 ← get_input_node 1
  input3 ← get_input_node 2
  make Op.select (input1 ∷ input2 ∷ input3 ∷ [])

abbrev pub create_reduce_all : Build Node
create_reduce_all = reduced Op.reduce_and

abbrev pub create_reduce_any : Build Node
create_reduce_any = reduced Op.reduce_or

abbrev pub create_reduce_max : Build Node
create_reduce_max = reduced Op.reduce_max

abbrev pub create_reduce_min : Build Node
create_reduce_min = reduced Op.reduce_min

abbrev pub create_reduce_prod : Build Node
create_reduce_prod = reduced Op.reduce_prod

abbrev pub create_reduce_sum : Build Node
create_reduce_sum = reduced Op.reduce_sum

abbrev pub create_sub : Build Node
create_sub = activated Op.subtract

abbrev pub create_mul : Build Node
create_mul = activated Op.multiply

abbrev pub create_div : Build Node
create_div = activated Op.divide

-- the scalar that holds the activation must be a constant
abbrev pub validate_add : Build Bool
validate_add = do activation_index ← operation_input 2; is_const activation_index

-- The values of the VPU's constant are not set: it is made of a type and a shape alone.
add_for_vpu : Build Node
add_for_vpu = do
  index ← operation_input 0
  input ← get_operation_output index
  shape ← shape_of input
  constant_op ← make_const f32 shape []
  transposed_op ← transpose ConversionType.nhwc_nchw constant_op
  make Op.add (input ∷ transposed_op ∷ [])

unfoldable pub create_add : Build Node
unfolding add_for_vpu
create_add = do
  plugin ← plugin_type
  elim plugin [ IntelDeviceType.vpu ↦ add_for_vpu | _ ↦ activated Op.add ]

-- 1.0 as a half and as a float, over the root
unfoldable pub create_rsqrt : Build Node
create_rsqrt = do
  input ← get_input_node 0
  sqrt_node ← make Op.sqrt (input ∷ [])
  half ← check_input_operand_type 0 OperandType.tensor_float16
  const_node ←
      (if half
        then make_const f16 (1 ∷ []) (15360 ∷ [])
        else make_const f32 (1 ∷ []) (1065353216 ∷ []))
  make Op.divide (const_node ∷ sqrt_node ∷ [])
