-- ===== src/Operations/Base/Frame.antt =====
-- OperationsBase.cpp: what the helpers of every operation leave alone.
use nn_hal.Prelude.{ℕ, Option, none, some}
use nn_hal.Prelude.Int.{ℤ}
use nn_hal.Types.{OperandType}
use nn_hal.ModelInfo.Model.{ChannelQuant, Operand}
use nn_hal.Graph.{Node, ElementType, Op}
use nn_hal.Graph.ElementType.{f32}
use nn_hal.Prelude.{[], ◌∷◌}
use nn_hal.Build.{Context, pure, make, element_type_of}
use nn_hal.Build.Frame.{Keeps, Keeps-bind, keeps_rules}
use nn_hal.Operations.Base.{
  ConversionType, transpose, check_input_operand_type, check_output_operand_type,
  get_input_operand_dimensions, is_valid_input_tensor, is_zero_sized_input, to_f32, clamp_to,
  quantize_node, dequantize_channels, dequantize_tensor, dequantize_node,
}

module _ {c : Context} where
  pub transpose-Keeps : (t : ConversionType) (n : Node) → Keeps c (transpose t n)
  unfolding transpose
  transpose-Keeps t n = search keeps_rules

  pub check_input_operand_type-Keeps :
      (i : ℕ) (t : OperandType) → Keeps c (check_input_operand_type i t)
  unfolding check_input_operand_type
  check_input_operand_type-Keeps i t = search keeps_rules

  pub check_output_operand_type-Keeps :
      (i : ℕ) (t : OperandType) → Keeps c (check_output_operand_type i t)
  unfolding check_output_operand_type
  check_output_operand_type-Keeps i t = search keeps_rules

  pub get_input_operand_dimensions-Keeps : (i : ℕ) → Keeps c (get_input_operand_dimensions i)
  unfolding get_input_operand_dimensions
  get_input_operand_dimensions-Keeps i = search keeps_rules

  pub is_valid_input_tensor-Keeps : (i : ℕ) → Keeps c (is_valid_input_tensor i)
  unfolding is_valid_input_tensor
  is_valid_input_tensor-Keeps i = search (keeps_rules, get_input_operand_dimensions-Keeps)

  pub is_zero_sized_input-Keeps : (i : ℕ) → Keeps c (is_zero_sized_input i)
  unfolding is_zero_sized_input
  is_zero_sized_input-Keeps i = search (keeps_rules, get_input_operand_dimensions-Keeps)

  pub to_f32-Keeps : (input : Node) → Keeps c (to_f32 input)
  to_f32-Keeps input = Keeps-bind (element_type_of input) _ (search keeps_rules) by_type
    where
      by_type :
          (t : ElementType)
          → Keeps c (elim t [ f32 ↦ pure input | _ ↦ make (Op.convert f32) (input ∷ []) ])
      by_type f32 = search keeps_rules
      by_type t = search keeps_rules

  clamp_to-Keeps : (range : Option (ℤ × ℤ)) (n : Node) → Keeps c (clamp_to range n)
  unfolding clamp_to
  clamp_to-Keeps none n = search keeps_rules
  clamp_to-Keeps (some (lo, hi)) n = search keeps_rules

  pub quantize_node-Keeps : (n : Node) (i : ℕ) (t : ElementType) → Keeps c (quantize_node n i t)
  unfolding quantize_node
  quantize_node-Keeps n i t = search (keeps_rules, to_f32-Keeps, clamp_to-Keeps) depth 16

  dequantize_channels-Keeps : (n : Node) (q : ChannelQuant) → Keeps c (dequantize_channels n q)
  unfolding dequantize_channels
  dequantize_channels-Keeps n q = search (keeps_rules, get_input_operand_dimensions-Keeps) depth 9

  dequantize_tensor-Keeps : (n : Node) (op : Operand) → Keeps c (dequantize_tensor n op)
  unfolding dequantize_tensor
  dequantize_tensor-Keeps n op = search keeps_rules depth 9

  pub dequantize_node-Keeps : (n : Node) (i : ℕ) (t : ElementType) → Keeps c (dequantize_node n i t)
  unfolding dequantize_node
  dequantize_node-Keeps n i t =
      search (keeps_rules, to_f32-Keeps, dequantize_channels-Keeps, dequantize_tensor-Keeps) depth 9

pub ruleset base_rules = (
  transpose-Keeps, check_input_operand_type-Keeps, check_output_operand_type-Keeps,
  get_input_operand_dimensions-Keeps, is_valid_input_tensor-Keeps, is_zero_sized_input-Keeps,
  to_f32-Keeps, quantize_node-Keeps, dequantize_node-Keeps,
)
