-- ===== src/Operations/Layout.antt =====
-- ngraph_creator/operations/src: the operations that move, select or gather elements, and Mean and
-- the normalisations (Concat, DepthToSpace, EmbeddingLookup, ExpandDims, Gather, L2Normalization,
-- LogSoftmax, Mean, Pad, PRelu, Softmax, SpaceToDepth, Squeeze, Transpose; Dequantize, Quantize).
pub mod Paddings
pub mod Frame
use nn_hal.Prelude.{
  ℕ, zero, suc, ◌^◌, Bool, true, false, not, ◌&&◌, ◌||◌, List, [], ◌∷◌, undefined, ◌==◌, ltb,
  length, if◌then◌else◌,
}
use nn_hal.Types.{OperandType}
use nn_hal.Graph.{Node, Op}
use nn_hal.Graph.ElementType.{f16, f32, i32, u8}
use nn_hal.Build.{
  Build, ◌>>=◌, ◌>>◌, pure, fails, operation_input, operation_output, operation_inputs_size,
  operand, is_const, is_omitted, parse, const_vec, make, make_const, set_output,
}
use nn_hal.Operations.Base.{
  transpose, ConversionType, check_input_operand_type, check_output_operand_type,
  get_input_operand_dimensions, is_valid_input_tensor, quantize_node, dequantize_node,
}
use nn_hal.Operations.Inputs.{get_input_node, get_input_node_or_raw, add_if_output}

-- an int32_t -1
abbrev pub minus_one : ℕ
minus_one = 4294967295

-- the inputs `i` to `i + n - 1`
all_valid : ℕ → ℕ → Build Bool
all_valid i zero = pure true
all_valid i (suc n) = do
  valid ← is_valid_input_tensor i
  if valid then all_valid (suc i) n else pure false

-- `n` is a size_t: without inputs it wraps, and the loop meets an input that is not there
pub validate_concat : Build Bool
unfolding all_valid
validate_concat = do
  size ← operation_inputs_size
  elim size [ zero ↦ fails undefined | suc n ↦ all_valid 0 n ]

-- the nodes of the inputs `i` to `i + n - 1`
input_nodes : ℕ → ℕ → Build (List Node)
input_nodes i zero = pure []
input_nodes i (suc n) = do
  index ← operation_input i
  input ← get_input_node i
  op ← operand index
  rest ← input_nodes (suc i) n
  pure (input ∷ rest)

pub create_concat : Build Node
unfolding input_nodes
create_concat = do
  size ← operation_inputs_size
  elim size [
    | zero ↦ fails undefined
    | suc n ↦ (do axis ← parse 4 n; inputs ← input_nodes 0 n; make (Op.concat axis) inputs)
  ]

-- the optional layout of DepthToSpace and SpaceToDepth: useNchw
abbrev pub use_nchw_of_three : Build Bool
use_nchw_of_three = do
  size ← operation_inputs_size
  if size == 3 then (do layout ← parse 1 2; pure (not (layout == 0))) else pure false

-- `input = transpose(...)`, unless the layout is NCHW already
abbrev pub unless_nchw : Bool → ConversionType → Node → Build Node
unless_nchw use_nchw type input = if use_nchw then pure input else transpose type input

abbrev pub blocks : (ℕ → Op) → Build Node
blocks o = do
  use_nchw ← use_nchw_of_three
  input ← get_input_node 0
  block_size ← parse 4 1
  input' ← unless_nchw use_nchw ConversionType.nhwc_nchw input
  n ← make (o block_size) (input' ∷ [])
  unless_nchw use_nchw ConversionType.nchw_nhwc n

abbrev pub create_depth_to_space : Build Node
create_depth_to_space = blocks Op.depth_to_space

abbrev pub create_space_to_depth : Build Node
create_space_to_depth = blocks Op.space_to_depth

abbrev pub validate_embedding_lookup : Build Bool
validate_embedding_lookup = do
  dims ← get_input_operand_dimensions 1
  pure (not (ltb (length dims) 2))

abbrev pub create_embedding_lookup : Build Node
create_embedding_lookup = do
  indices ← get_input_node 0
  input ← get_input_node 1
  axis ← make_const i32 [] (0 ∷ [])
  make Op.gather (input ∷ indices ∷ axis ∷ [])

abbrev pub validate_expand_dims : Build Bool
validate_expand_dims = do dims ← get_input_operand_dimensions 0; pure (not (ltb (length dims) 1))

abbrev pub create_expand_dims : Build Node
create_expand_dims = do
  input ← get_input_node 0
  index ← parse 4 1
  axes ← make_const i32 [] (index ∷ [])
  make Op.unsqueeze (input ∷ axes ∷ [])

abbrev pub create_gather : Build Node
create_gather = do
  gather_vals ← get_input_node 0
  axis ← parse 4 1
  axis_node ← make_const i32 [] (axis ∷ [])
  indices ← get_input_node 2
  make Op.gather (gather_vals ∷ indices ∷ axis_node ∷ [])

pub validate_l2_normalization : Build Bool
validate_l2_normalization = do
  dims ← get_input_operand_dimensions 0
  if ltb 4 (length dims) then pure false else is_valid_input_tensor 0

pub create_l2_normalization : Build Node
create_l2_normalization = do
  size ← operation_inputs_size
  input ← get_input_node 0
  axes ← (if size == 2 then parse 4 1 else pure minus_one)
  axes_node ← make_const i32 (1 ∷ []) (axes ∷ [])
  mul ← make Op.multiply (input ∷ input ∷ [])
  sum ← make (Op.reduce_sum true) (mul ∷ axes_node ∷ [])
  sqrt ← make Op.sqrt (sum ∷ [])
  make Op.divide (input ∷ sqrt ∷ [])

-- the constant of `beta`, a half or a float, of the given shape
abbrev pub beta_node : List ℕ → Build Node
beta_node shape = do
  half ← check_input_operand_type 0 OperandType.tensor_float16
  if half
      then (do beta ← parse 2 1; make_const f16 shape (beta ∷ []))
      else (do beta ← parse 4 1; make_const f32 shape (beta ∷ []))

-- the axis of Softmax and LogSoftmax
abbrev pub softmax_axis : Build Node
softmax_axis = do
  size ← operation_inputs_size
  axis ← (if size == 3 then parse 4 2 else pure minus_one)
  make_const i32 (1 ∷ []) (axis ∷ [])

pub create_softmax : Build Node
create_softmax = do
  input ← get_input_node 0
  beta ← beta_node (1 ∷ [])
  axis_node ← softmax_axis
  max ← make (Op.reduce_max true) (input ∷ axis_node ∷ [])
  sub ← make Op.subtract (input ∷ max ∷ [])
  mul ← make Op.multiply (sub ∷ beta ∷ [])
  exp ← make Op.exp (mul ∷ [])
  sum ← make (Op.reduce_sum true) (exp ∷ axis_node ∷ [])
  make Op.divide (exp ∷ sum ∷ [])

pub create_log_softmax : Build Node
create_log_softmax = do
  input ← get_input_node 0
  beta ← beta_node []
  axis_node ← softmax_axis
  mul ← make Op.multiply (input ∷ beta ∷ [])
  exp ← make Op.exp (mul ∷ [])
  sum ← make (Op.reduce_sum true) (exp ∷ axis_node ∷ [])
  log ← make Op.log (sum ∷ [])
  make Op.subtract (mul ∷ log ∷ [])

abbrev pub validate_mean : Build Bool
validate_mean = do axes_index ← operation_input 1; is_const axes_index

-- reduce_dims is an int32_t, by its pattern
abbrev pub create_mean : Build Node
create_mean = do
  input ← get_input_node 0
  reduction_axes ← get_input_node 1
  reduce_dims ← parse 4 2
  make (Op.reduce_mean (not (reduce_dims == 0) && ltb reduce_dims (2 ^ 31)))
      (input ∷ reduction_axes ∷ [])

-- Pad and PadV2
unfoldable pub validate_pad : Build Bool
validate_pad = do
  dims ← get_input_operand_dimensions 0
  if ltb 4 (length dims) || ltb (length dims) 2
      then pure false
      else (do pad_index ← operation_input 1; is_const pad_index)

-- The padding before and after each dimension: the elements at even and at odd places.
unfoldable pub deinterleave : List ℕ → List ℕ × List ℕ
deinterleave [] = ([], [])
deinterleave (a ∷ []) = ([], [])
deinterleave (a ∷ b ∷ rest) = let (begins, ends) = deinterleave rest in (a ∷ begins, b ∷ ends)

pub create_pad : Build Node
unfolding deinterleave
create_pad = do
  input ← get_input_node 0
  index ← operation_input 1
  paddings_2d ← const_vec 4 index
  let (paddings_0, paddings_1) = deinterleave paddings_2d
  pads_begin ← make_const i32 (length paddings_0 ∷ []) paddings_0
  pads_end ← make_const i32 (length paddings_1 ∷ []) paddings_1
  make Op.pad (input ∷ pads_begin ∷ pads_end ∷ [])

-- no dimension of alpha is above that of base, where the ranks agree
none_above : List ℕ → List ℕ → Bool
none_above (a ∷ alpha) (b ∷ base) = not (ltb b a) && none_above alpha base
none_above alpha base = true

pub validate_prelu : Build Bool
unfolding none_above
validate_prelu = do
  base_dims ← get_input_operand_dimensions 0
  alpha_dims ← get_input_operand_dimensions 1
  pure (
      if ltb (length base_dims) (length alpha_dims)
      then false
      else if length alpha_dims == length base_dims
      then none_above alpha_dims base_dims
      else true)

pub validate_squeeze : Build Bool
validate_squeeze = do
  dims_index ← operation_input 1
  omitted ← is_omitted 1
  if omitted then pure false else is_const dims_index

pub create_squeeze : Build Node
create_squeeze = do
  input ← get_input_node 0
  omitted ← is_omitted 1
  dims ← (if omitted then make_const i32 (0 ∷ []) [] else get_input_node 1)
  make Op.squeeze (input ∷ dims ∷ [])

-- !dims.empty() && dims[0] != 0
abbrev pub has_elements : List ℕ → Bool
has_elements [] = false
has_elements (d ∷ ds) = not (d == 0)

pub validate_transpose : Build Bool
validate_transpose = do
  dims_index ← operation_input 1
  dims ← get_input_operand_dimensions 1
  if has_elements dims then is_const dims_index else pure true

-- The order of no elements is given one value.
pub create_transpose : Build Node
create_transpose = do
  input ← get_input_node 0
  dims ← get_input_operand_dimensions 1
  order ← (if has_elements dims then get_input_node 1 else make_const i32 (0 ∷ []) (0 ∷ []))
  make Op.transpose (input ∷ order ∷ [])

pub create_dequantize : Build Node
create_dequantize = do
  input ← get_input_node_or_raw 0 false
  index ← operation_input 0
  half ← check_output_operand_type 0 OperandType.tensor_float16
  if half then dequantize_node input index f16 else dequantize_node input index f32

-- Quantize sets the output itself: its createNode returns null and connectOperationToGraph is it.
pub connect_quantize : Build (Unit {0})
connect_quantize = do
  default_index ← operation_output 0
  input ← get_input_node 0
  output_index ← operation_output 0
  n ← quantize_node input output_index u8
  set_output output_index n
  op ← operand output_index
  add_if_output op default_index n
