-- ===== src/Operations/Outputs.antt =====
-- ngraph_creator/operations/src: Split.cpp and TopkV2.cpp, which set their outputs
-- themselves: their createNode returns null and their connectOperationToGraph is it.
pub mod Frame
use nn_hal.Prelude.{ℕ, zero, suc, false, ◌||◌, [], ◌∷◌, if◌then◌else◌}
use nn_hal.Types.{OperandType}
use nn_hal.Graph.{Node, no_node, output, Op}
use nn_hal.Graph.ElementType.{f16, f32, i8, i32, u8}
use nn_hal.Build.{
  Build, pure, ◌>>=◌, ◌>>◌, operation_output, operand, parse, make, make_const, set_output,
}
use nn_hal.Operations.Base.{check_input_operand_type, check_output_operand_type, quantize_node}
use nn_hal.Operations.Inputs.{get_input_node, get_input_node_or_raw, add_if_output}

-- setOutputAtOperandIndex and, for a graph output, addResultNode
abbrev pub set_result : ℕ → Node → Build (Unit {0})
set_result index n = do set_output index n; op ← operand index; add_if_output op index n

-- Of another type the output is the null pointer.
abbrev pub split_output : Node → Build Node
split_output n = do
  single ← check_input_operand_type 0 OperandType.tensor_float32
  half ← check_input_operand_type 0 OperandType.tensor_float16
  int ← check_input_operand_type 0 OperandType.tensor_int32
  asymm ← check_input_operand_type 0 OperandType.tensor_quant8_asymm
  signed ← check_input_operand_type 0 OperandType.tensor_quant8_asymm_signed
  if single
      then make (Op.convert f32) (n ∷ [])
      else if half
      then make (Op.convert f16) (n ∷ [])
      else if int
      then make (Op.convert i32) (n ∷ [])
      else if asymm || signed
      then make (Op.convert u8) (n ∷ [])
      else pure no_node

-- the outputs `i` to `i + n - 1`
set_splits : Node → ℕ → ℕ → Build (Unit {0})
set_splits split i zero = pure tt
set_splits split i (suc n) = do
  index ← operation_output i
  part ← split_output (output split i)
  set_result index part
  set_splits split (suc i) n

pub connect_split : Build (Unit {0})
unfolding set_splits
connect_split = do
  input ← get_input_node_or_raw 0 false
  axis ← parse 4 1
  axis_node ← make_const i32 [] (axis ∷ [])
  num_splits ← parse 4 2
  split ← make (Op.split num_splits) (input ∷ axis_node ∷ [])
  set_splits split 0 num_splits

abbrev pub topk_output : Node → ℕ → ℕ → Build Node
topk_output n i index = do
  single ← check_output_operand_type i OperandType.tensor_float32
  half ← check_output_operand_type i OperandType.tensor_float16
  int ← check_output_operand_type i OperandType.tensor_int32
  asymm ← check_output_operand_type i OperandType.tensor_quant8_asymm
  signed ← check_output_operand_type i OperandType.tensor_quant8_asymm_signed
  if single
      then make (Op.convert f32) (n ∷ [])
      else if half
      then make (Op.convert f16) (n ∷ [])
      else if int
      then make (Op.convert i32) (n ∷ [])
      else if asymm
      then (do converted ← make (Op.convert f32) (n ∷ []); quantize_node converted index u8)
      else if signed
      then (do converted ← make (Op.convert f32) (n ∷ []); quantize_node converted index i8)
      else pure no_node

abbrev pub set_topk_output : Node → ℕ → Build (Unit {0})
set_topk_output topk i = do
  index ← operation_output i
  n ← topk_output (output topk i) i index
  set_result index n

-- the axis is an int -1
pub connect_topk_v2 : Build (Unit {0})
connect_topk_v2 = do
  input ← get_input_node 0
  k ← parse 4 1
  k_node ← make_const i32 [] (k ∷ [])
  topk ← make (Op.top_k_max_values 4294967295) (input ∷ k_node ∷ [])
  set_topk_output topk 0
  set_topk_output topk 1
