-- ===== src/Operations/Inputs.antt =====
-- OperationsBase.hpp: getInputNode and removeInputNode; OperationsBase.cpp: the default
-- connectOperationToGraph; NgraphHelper.hpp: applyActivation.
pub mod Frame
use nn_hal.Prelude.{
  ℕ, Bool, true, false, ◌&&◌, [], ◌∷◌, Option, none, some, undefined, ok, ◌==◌, if◌then◌else◌,
  String,
}
use nn_hal.Prelude.Int.{pos, negsuc}
use nn_hal.Types.{OperandType, OperandLifeTime}
use nn_hal.ModelInfo.Model.{Operand}
use nn_hal.Graph.{Node, no_node, output, ElementType, Op}
use nn_hal.Graph.ElementType.{f32, f16, i8, u8, i16, u16, i32, boolean}
use nn_hal.NgraphNodes as N
use nn_hal.NgraphNodes.{NgraphNodes}
use nn_hal.Build.{
  Build, ◌>>=◌, ◌>>◌, pure, fails, operation_input, operation_output, operand, is_const, const_vec,
  make, make_const, get_operation_output, set_output, add_result_node,
}
use nn_hal.Operations.Base.{get_input_operand_dimensions, quantize_node, dequantize_node}

-- the element type of a constant and the bytes of its C++ type; `none` is the `default`
abbrev pub const_element : OperandType → Option (ElementType × ℕ)
const_element OperandType.tensor_float32 = some (f32, 4)
const_element OperandType.tensor_int32 = some (i32, 4)
const_element OperandType.tensor_bool8 = some (boolean, 1)
const_element OperandType.tensor_quant8_asymm = some (u8, 1)
const_element OperandType.tensor_quant8_symm = some (i8, 1)
const_element OperandType.tensor_quant8_symm_per_channel = some (i8, 1)
const_element OperandType.tensor_quant8_asymm_signed = some (i8, 1)
const_element OperandType.tensor_float16 = some (f16, 2)
const_element OperandType.tensor_quant16_symm = some (i16, 2)
const_element OperandType.tensor_quant16_asymm = some (u16, 2)
const_element type = none

abbrev pub is_quantized : OperandType → Bool
is_quantized OperandType.tensor_quant8_asymm = true
is_quantized OperandType.tensor_quant8_symm_per_channel = true
is_quantized OperandType.tensor_quant8_asymm_signed = true
is_quantized OperandType.tensor_quant8_symm = true
is_quantized OperandType.tensor_quant16_symm = true
is_quantized OperandType.tensor_quant16_asymm = true
is_quantized type = false

-- get_node_shared_ptr() of an output
abbrev pub node_of : Node → Node
node_of (output n i) = n
node_of n = n

maybe_dequantize : Node → ℕ → OperandType → Bool → Build Node
maybe_dequantize input index type dequantize =
    if dequantize && is_quantized type then dequantize_node input index f32 else pure input

-- The `default` of the switch returns the null node at once.
const_input : ℕ → ℕ → OperandType → Bool → Option (ElementType × ℕ) → Build Node
unfolding maybe_dequantize
const_input input_index index type dequantize none = pure no_node
const_input input_index index type dequantize (some (element, size)) = do
  dims ← get_input_operand_dimensions input_index
  values ← const_vec size index
  input ← make_const element dims values
  maybe_dequantize input index type dequantize

graph_input : ℕ → OperandType → Bool → Build Node
unfolding maybe_dequantize
graph_input index type dequantize = do
  out ← get_operation_output index
  maybe_dequantize (node_of out) index type dequantize

unfoldable pub get_input_node_or_raw : ℕ → Bool → Build Node
unfolding const_input graph_input
get_input_node_or_raw input_index dequantize = do
  index ← operation_input input_index
  op ← operand index
  constant_input ← is_const index
  if constant_input
      then const_input input_index index op.type dequantize (const_element op.type)
      else graph_input index op.type dequantize

-- getInputNode(i), with its default `dequantize = true`
abbrev pub get_input_node : ℕ → Build Node
get_input_node i = get_input_node_or_raw i true

abbrev name_of_node : ℕ → Build String
name_of_node i c s = N.get_node_name c.ngraph s i

abbrev remove_parameter : String → ℕ → Build (Unit {0})
remove_parameter name i c s = ok (tt, N.remove_input_parameter c.ngraph s name i)

pub remove_input_node : ℕ → Build (Unit {0})
remove_input_node input_index = do
  index ← operation_input input_index
  name ← name_of_node index
  remove_parameter name index

-- applyActivation; the codes are those of FusedActivationFunc: NONE, RELU, RELU1, RELU6
unfoldable pub apply_activation : Node → ℕ → Build Node
apply_activation input fn =
    if fn == 0
    then pure input
    else if fn == 1
    then make Op.relu (input ∷ [])
    else if fn == 3
    then make (Op.clamp (pos 0) (pos 6)) (input ∷ [])
    else if fn == 2
    then make (Op.clamp (negsuc 0) (pos 1)) (input ∷ [])
    else pure input

-- The conditions of the four tests in connectOperationToGraph exclude one another.
abbrev pub output_element : OperandType → Option ElementType
output_element OperandType.tensor_quant8_asymm = some u8
output_element OperandType.tensor_quant8_asymm_signed = some i8
output_element OperandType.tensor_quant8_symm = some i8
output_element OperandType.tensor_quant16_asymm = some u16
output_element OperandType.tensor_quant16_symm = some i16
output_element type = none

abbrev quantize_output : Node → ℕ → Option ElementType → Build Node
quantize_output n index none = pure n
quantize_output n index (some t) = quantize_node n index t

abbrev pub is_subgraph_output : OperandLifeTime → Bool
is_subgraph_output OperandLifeTime.subgraph_output = true
is_subgraph_output lifetime = false

-- addResultNode of a graph output
abbrev pub add_if_output : Operand → ℕ → Node → Build (Unit {0})
add_if_output op index n =
    if is_subgraph_output op.lifetime then add_result_node index n else pure tt

-- get_default_output() through a null pointer is undefined
abbrev set_default_output : ℕ → Node → Build (Unit {0})
set_default_output index no_node = fails undefined
set_default_output index n = set_output index n

-- connectOperationToGraph, for the node that createNodeForPlugin returns
unfoldable pub connect_operation_to_graph : Build Node → Build (Unit {0})
connect_operation_to_graph create_node_for_plugin = do
  index ← operation_output 0
  created ← create_node_for_plugin
  op ← operand index
  out ← quantize_output created index (output_element op.type)
  add_if_output op index out
  set_default_output index out
