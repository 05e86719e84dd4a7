-- ===== src/Operations/Lstm.antt =====
-- ngraph_creator/operations/src/LSTM.cpp: the features that are used, and the cell.
pub mod Cell
pub mod Frame
use nn_hal.Prelude.{
  ℕ, Bool, true, false, not, ◌&&◌, ◌||◌, List, [], ◌∷◌, replicate, ◌==◌, if◌then◌else◌,
}
use nn_hal.Prelude.Int.{pos}
use nn_hal.Prelude.Floats.{binary32, float_eq, negate}
use nn_hal.Graph.{Node, no_node, Op, ElementType}
use nn_hal.Graph.ElementType.{f32, i32}
use nn_hal.Build.{
  Build, ◌>>=◌, ◌>>◌, pure, is_omitted, operation_inputs_size, operation_outputs_size, make,
  make_const, shape_of,
}
use nn_hal.Operations.Inputs.{get_input_node, remove_input_node}
use nn_hal.Operations.Recurrent.Bidirectional.{has_first_dimension}

pub validate_lstm : Build Bool
validate_lstm = do
  inputs_size ← operation_inputs_size
  outputs_size ← operation_outputs_size
  pure ((inputs_size == 23 || inputs_size == 27) && outputs_size == 4)

-- a conjunction of tests of inputs, which stops at the first that fails
pub all_inputs : (ℕ → Build Bool) → List ℕ → Build Bool
all_inputs test [] = pure true
all_inputs test (i ∷ is) = do
  passed ← test i
  let rest = all_inputs test is
  if passed then rest else pure false

abbrev pub all_omitted : List ℕ → Build Bool
all_omitted = all_inputs is_omitted

abbrev pub all_valid : List ℕ → Build Bool
all_valid = all_inputs has_first_dimension

-- isCIFGenabled, by the inputs of the input gate
pub is_cifg : Build Bool
unfolding all_inputs
is_cifg = do
  omitted ← all_omitted (1 ∷ 5 ∷ 12 ∷ [])
  if omitted then pure true else (do valid ← all_valid (1 ∷ 5 ∷ 12 ∷ []); pure (not valid))

-- isCIFGenabled, isCifgDimsEmpty and isPeepholeUsed
pub peephole_of : Bool → Build (Bool × Bool × Bool)
unfolding all_inputs
peephole_of cifg = do
  omitted ← all_omitted (9 ∷ 10 ∷ 11 ∷ [])
  if omitted then pure (cifg, true, false) else (do
    first ← has_first_dimension 9
    others ← all_valid (10 ∷ 11 ∷ [])
    let coupled = not cifg && not first && others
    pure (cifg || coupled, not coupled, if cifg || coupled then others else first && others))

abbrev pub is_projection : Build Bool
is_projection = do omitted ← is_omitted 16; if omitted then pure false else has_first_dimension 16

pub is_layer_norm : Bool → Build Bool
unfolding all_inputs
is_layer_norm cifg = do
  inputs_size ← operation_inputs_size
  if not (inputs_size == 27) then pure false else (do
    omitted ← all_omitted (23 ∷ 24 ∷ 25 ∷ 26 ∷ [])
    if omitted
        then pure false
        else (if cifg then all_valid (24 ∷ 25 ∷ 26 ∷ []) else all_valid (23 ∷ 24 ∷ 25 ∷ 26 ∷ [])))

pub record Features : Type 0 where
  pub cifg : Bool
  pub cifg_dims_empty : Bool
  pub peephole : Bool
  pub projection : Bool
  pub layer_norm : Bool

pub features : Build Features
unfolding is_cifg peephole_of is_layer_norm
features = do
  enabled ← is_cifg
  (cifg, cifg_dims_empty, peephole) ← peephole_of enabled
  projection ← is_projection
  layer_norm ← is_layer_norm cifg
  pure (record {
    cifg = cifg;
    cifg_dims_empty = cifg_dims_empty;
    peephole = peephole;
    projection = projection;
    layer_norm = layer_norm;
  })

-- add, sub, mul, and matMul of the transpose of the second
abbrev pub added : Node → Node → Build Node
added a b = make Op.add (a ∷ b ∷ [])

abbrev pub subtracted : Node → Node → Build Node
subtracted a b = make Op.subtract (a ∷ b ∷ [])

abbrev pub multiplied : Node → Node → Build Node
multiplied a b = make Op.multiply (a ∷ b ∷ [])

abbrev pub mat_mul_transposed : Node → Node → Build Node
mat_mul_transposed a b = make (Op.mat_mul false true) (a ∷ b ∷ [])

-- a limit of zero, of either sign, is none
pub clip : Node → ℕ → Build Node
clip input limit =
    if float_eq binary32 limit 0
    then pure input
    else make (Op.clamp_floats (negate binary32 limit) limit) (input ∷ [])

-- applyActivation of this class: RELU, RELU6, SIGMOID, and else TANH
pub lstm_activation : Node → ℕ → Build Node
lstm_activation n fn =
    if fn == 1
    then make Op.relu (n ∷ [])
    else if fn == 3
    then make (Op.clamp (pos 0) (pos 6)) (n ∷ [])
    else if fn == 6
    then make Op.sigmoid (n ∷ [])
    else make Op.tanh (n ∷ [])

-- LayerNorm; 0x322bcc77 is 1e-8f, and the axis is -1
pub layer_norm_of : Node → Node → Node → Build Node
layer_norm_of input weights bias = do
  normalization_constant ← make_const f32 [] (0x322bcc77 ∷ [])
  axis ← make_const i32 [] (4294967295 ∷ [])
  mean ← make (Op.reduce_mean true) (input ∷ axis ∷ [])
  diff ← subtracted input mean
  square ← multiplied diff diff
  var ← make (Op.reduce_mean true) (square ∷ axis ∷ [])
  add_var ← added var normalization_constant
  sqrt ← make Op.sqrt (add_var ∷ [])
  stddev_inv ← make Op.divide (diff ∷ sqrt ∷ [])
  scaled ← multiplied stddev_inv weights
  added scaled bias

-- An input of the input gate: not there if it is coupled with the forget gate, and then the
-- parameter of a tensor that is not empty is removed.
abbrev pub input_gate_node : Features → ℕ → Build Node
input_gate_node f i =
    if f.cifg
    then (if f.cifg_dims_empty then pure no_node else (do remove_input_node i; pure no_node))
    else get_input_node i

-- What a gate is made of: the weights of the input, of the state and of the cell, the bias, and the
-- weights of its layer normalisation.
pub record Gate : Type 0 where
  pub from_input : Node
  pub from_state : Node
  pub from_cell : Node
  pub bias : Node
  pub norm : Node

-- W_x x_t + W_h h_{t-1}
abbrev pub weighted : Gate → Node → Node → Build Node
weighted g input state = do
  a ← mat_mul_transposed input g.from_input
  b ← mat_mul_transposed state g.from_state
  added a b

-- the same, + W_c C_{t-1}
abbrev pub weighted_with_cell : Gate → Node → Node → Node → Build Node
weighted_with_cell g input state cell = do
  sum ← weighted g input state
  peephole ← multiplied g.from_cell cell
  added sum peephole

abbrev pub biased : Bool → Gate → Node → Build Node
biased layer_norm g n = if layer_norm then layer_norm_of n g.norm g.bias else added n g.bias

-- The scratch buffer: zeros of the gate's shape, multiplied by the gate, `copies` times.
pub scratch_buffer : ElementType → Node → ℕ → Build Node
scratch_buffer element gate copies = do
  shape ← shape_of gate
  zeros ← make_const element shape (0 ∷ [])
  scratch ← multiplied zeros gate
  make (Op.concat 1) (replicate copies scratch)
