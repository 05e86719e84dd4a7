-- ===== src/Operations/Cast.antt =====
-- ngraph_creator/operations/src/Cast.cpp. The two types that are compared are those of the operations
-- at the places of the operands: getOperationType, where getOperandType is meant.
pub mod Frame
use nn_hal.Prelude.{false, [], ◌∷◌, Option, none, some}
use nn_hal.Prelude.Int.{ℤ, pos, negsuc}
use nn_hal.Types.{OperandType, OperationType-discrete}
use nn_hal.Graph.{Node, Op, ElementType}
use nn_hal.Graph.ElementType.{f16, f32, i8, i16, i32, u8, u16, undefined_type}
use nn_hal.Build.{
  Build, ◌>>=◌, ◌>>◌, pure, operation_input, operation_output, operation_type, operand, make,
  set_output,
}
use nn_hal.Operations.Inputs.{get_input_node_or_raw, add_if_output}

-- What the type of the output asks for: the element type, and the bounds of a clamp before it. Of a
-- type that is not named the element type stays undefined.
pub cast_target : OperandType → ElementType × Option (ℤ × ℤ)
cast_target OperandType.tensor_float32 = (f32, none)
cast_target OperandType.tensor_float16 = (f16, none)
cast_target OperandType.tensor_int32 = (i32, none)
cast_target OperandType.tensor_quant8_asymm = (u8, some (pos 0, pos 255))
cast_target OperandType.tensor_quant8_asymm_signed = (i8, some (negsuc 127, pos 127))
cast_target OperandType.tensor_quant8_symm = (i8, some (negsuc 127, pos 127))
cast_target OperandType.tensor_quant16_asymm = (u16, some (pos 0, pos 65535))
cast_target OperandType.tensor_quant16_symm = (i16, some (negsuc 32767, pos 32767))
cast_target type = (undefined_type, none)

-- Convert to i32 and clamp
abbrev pub clamped : Option (ℤ × ℤ) → Node → Build Node
clamped none input = pure input
clamped (some (lo, hi)) input = do
  ints ← make (Op.convert i32) (input ∷ [])
  make (Op.clamp lo hi) (ints ∷ [])

abbrev pub converted : ElementType × Option (ℤ × ℤ) → Node → Build Node
converted (element, bounds) input = do
  input' ← clamped bounds input
  make (Op.convert element) (input' ∷ [])

pub connect_cast : Build (Unit {0})
unfolding cast_target
connect_cast = do
  input ← get_input_node_or_raw 0 false
  input_index ← operation_input 0
  output_index ← operation_output 0
  input_type ← operation_type input_index
  output_type ← operation_type output_index
  out_op ← operand output_index
  out ← elim (OperationType-discrete input_type output_type) [
    | yes same ↦ pure input
    | no differ ↦ converted (cast_target out_op.type) input
  ]
  set_output output_index out
  add_if_output out_op output_index out
