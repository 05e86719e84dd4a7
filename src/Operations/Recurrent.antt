-- ===== src/Operations/Recurrent.antt =====
-- ngraph_creator/operations/src: RNN.cpp and UnidirectionalSequenceRNN.cpp.
pub mod Bidirectional
pub mod Frame
use nn_hal.Prelude.{
  ℕ, zero, suc, ◌+◌, ◌/◌, Bool, true, false, not, List, [], ◌∷◌, ◌++◌, fault, ok, undefined, ◌==◌,
  length, if◌then◌else◌,
}
use nn_hal.Graph.{Node, no_node, output, Op}
use nn_hal.Graph.ElementType.{i32}
use nn_hal.Build.{
  Build, ◌>>=◌, ◌>>◌, pure, asks, operation_output, operation_outputs_size, parse, index_of, make,
  make_const, element_type_of, shape_of,
}
use nn_hal.Operations.Base.{transpose, ConversionType, get_input_operand_dimensions}
use nn_hal.Operations.Inputs.{get_input_node, apply_activation}
use nn_hal.Operations.Outputs.{set_result}

-- The weights of one direction: of the inputs, of the state, and the bias.
pub record Weights : Type 0 where
  pub input_weights : Node
  pub recurrent_weights : Node
  pub bias : Node

-- inputs * input_weights, and (state * recurrent_weights) + bias
abbrev pub weighted_input : Weights → Node → Build Node
weighted_input w input = make (Op.mat_mul false true) (input ∷ w.input_weights ∷ [])

abbrev pub weighted_state : Weights → Node → Build Node
weighted_state w state = do
  product ← make (Op.mat_mul false true) (state ∷ w.recurrent_weights ∷ [])
  make Op.add (product ∷ w.bias ∷ [])

-- activation((inputs * input_weights) + (state * recurrent_weights) + bias)
unfoldable pub rnn_cell : Weights → ℕ → Node → Node → Build Node
rnn_cell w activation input state = do
  input_w ← weighted_input w input
  add ← weighted_state w state
  i_t ← make Op.add (input_w ∷ add ∷ [])
  apply_activation i_t activation

abbrev pub weights_at : ℕ → Build Weights
weights_at i = do
  w ← get_input_node i
  r ← get_input_node (i + 1)
  bias ← get_input_node (i + 2)
  pure (record { input_weights = w; recurrent_weights = r; bias = bias })

-- The first output is a product of zeros with the output, so that it is part of the graph.
pub connect_rnn : Build (Unit {0})
unfolding rnn_cell
connect_rnn = do
  input ← get_input_node 0
  w ← weights_at 1
  state ← get_input_node 4
  activation ← parse 4 5
  out ← rnn_cell w activation input state
  scratch_index ← operation_output 0
  element ← element_type_of out
  shape ← shape_of out
  zeros ← make_const element shape (0 ∷ [])
  scratch ← make Op.multiply (zeros ∷ out ∷ [])
  set_result scratch_index scratch
  state_index ← operation_output 1
  set_result state_index out

-- inputSplit[i] = Squeeze(inputSplit[i], {})
abbrev pub squeezed : Node → Build Node
squeezed n = do dims ← make_const i32 (0 ∷ []) []; make Op.squeeze (n ∷ dims ∷ [])

-- The loop over the time steps from `i` on, `count` of which are left: the outputs, and the last of
-- them, which stays null if there is none.
unfoldable pub steps_from : Weights → ℕ → Node → ℕ → ℕ → Node → Node → Build (List Node × Node)
unfolding rnn_cell
steps_from w activation split i zero state last = pure ([], last)
steps_from w activation split i (suc count) state last = do
  input ← squeezed (output split i)
  out ← rnn_cell w activation input state
  (rest, last') ← steps_from w activation split (suc i) count out out
  pure (out ∷ rest, last')

-- an unsigned division; by zero it is undefined
abbrev pub divided : ℕ → ℕ → Build ℕ
divided a b = asks λ c. if b == 0 then fault undefined else ok (a / b)

-- The outputs of the time steps, joined and given the shape {maxTime, batch, units}.
unfoldable pub sequence_of : List Node → ℕ → Node → Build Node
sequence_of outputs max_time input = do
  joined ← make (Op.concat 0) outputs
  shape ← shape_of joined
  rows ← index_of shape 0
  batch ← divided rows max_time
  units ← index_of shape 1
  input_shape ← shape_of input
  shape_node ← make_const i32 (length input_shape ∷ []) (max_time ∷ batch ∷ units ∷ [])
  make (Op.reshape false) (joined ∷ shape_node ∷ [])

abbrev pub unless_time_major : Bool → Node → Build Node
unless_time_major is_time_major n =
    if is_time_major then pure n else transpose ConversionType.bts_tbs n

abbrev pub max_time_of : Bool → Build ℕ
max_time_of is_time_major = do
  dims ← get_input_operand_dimensions 0
  index_of dims (if is_time_major then 0 else 1)

abbrev pub split_steps : Node → ℕ → Build Node
split_steps input max_time = do
  axis_node ← make_const i32 [] (0 ∷ [])
  make (Op.split max_time) (input ∷ axis_node ∷ [])

pub connect_unidirectional_sequence_rnn : Build (Unit {0})
unfolding steps_from sequence_of
connect_unidirectional_sequence_rnn = do
  input ← get_input_node 0
  w ← weights_at 1
  state ← get_input_node 4
  activation ← parse 4 5
  time_major ← parse 4 6
  let is_time_major = not (time_major == 0)
  input' ← unless_time_major is_time_major input
  max_time ← max_time_of is_time_major
  split ← split_steps input' max_time
  (outputs, last) ← steps_from w activation split 0 max_time state no_node
  joined ← sequence_of outputs max_time input'
  out ← unless_time_major is_time_major joined
  outputs_size ← operation_outputs_size
  index ← operation_output 0
  set_result index out
  if outputs_size == 2
      then (do state_index ← operation_output 1; set_result state_index last)
      else pure tt
