-- ===== src/Operations/Recurrent/Bidirectional.antt =====
-- ngraph_creator/operations/src/BidirectionalSequenceRNN.cpp.
pub mod Frame
pub mod Steps
use nn_hal.Prelude.{
  ℕ, zero, suc, Bool, true, false, not, ◌&&◌, ◌||◌, List, [], ◌∷◌, Option, none, some, ◌==◌, ltb,
  if◌then◌else◌, leb, ◌^◌, replicate,
}
use nn_hal.Graph.{Node, no_node, output, Op}
use nn_hal.Graph.ElementType.{i32}
use nn_hal.Build.{
  Build, ◌>>=◌, ◌>>◌, pure, operation_output, operation_outputs_size, parse, make, make_const,
  index_of,
}
use nn_hal.Operations.Base.{get_input_operand_dimensions}
use nn_hal.Operations.Inputs.{get_input_node, apply_activation, remove_input_node}
use nn_hal.Operations.Outputs.{set_result}
use nn_hal.Operations.Layout.{has_elements}
use nn_hal.Operations.Recurrent.{
  Weights, weights_at, weighted_input, weighted_state, sequence_of, unless_time_major, max_time_of,
}

-- hasAuxInputs with the weights of the two directions, or hasParallelLinking
pub data Linking : Type 0 where
  unlinked parallel : Linking
  auxiliary : Node → Node → Linking

-- isValidInputTensor of this class
abbrev pub has_first_dimension : ℕ → Build Bool
has_first_dimension i = do dims ← get_input_operand_dimensions i; pure (has_elements dims)

abbrev pub remove_auxiliary : Build Linking
remove_auxiliary = do remove_input_node 9; remove_input_node 10; remove_input_node 11; pure unlinked

abbrev pub linking_of : Node → Node → Build Linking
linking_of fw_weights bw_weights = do
  input ← has_first_dimension 9
  fw ← has_first_dimension 10
  bw ← has_first_dimension 11
  if input && not fw && not bw
      then pure parallel
      else if not input || not fw || not bw
      then remove_auxiliary
      else pure (auxiliary fw_weights bw_weights)

-- `dims`, the axes of a squeeze
abbrev pub no_axes : Build Node
no_axes = make_const i32 (0 ∷ []) []

-- The output of a time step, and the auxiliary input as it is squeezed on the way. `aux` is the
-- auxiliary input and its weights.
unfoldable pub linked_cell :
    Weights → ℕ → Node → Node → Node → Option (Node × Node) → Build (Node × Node)
linked_cell w activation dims input state none = do
  input_w ← weighted_input w input
  add ← weighted_state w state
  i_t ← make Op.add (input_w ∷ add ∷ [])
  out ← apply_activation i_t activation
  pure (out, no_node)
linked_cell w activation dims input state (some (aux, aux_weights)) = do
  input_w ← weighted_input w input
  add ← weighted_state w state
  aux' ← make Op.squeeze (aux ∷ dims ∷ [])
  aux_mul ← make (Op.mat_mul false true) (aux' ∷ aux_weights ∷ [])
  aux_add ← make Op.add (aux_mul ∷ add ∷ [])
  i_t ← make Op.add (input_w ∷ aux_add ∷ [])
  out ← apply_activation i_t activation
  pure (out, aux')

-- What the forward steps leave: their outputs, the last of them, and the inputs and auxiliary inputs
-- of each step as they are squeezed.
pub record Forward : Type 0 where
  pub outputs : List Node
  pub last : Node
  pub inputs : List Node
  pub aux_inputs : List Node

abbrev pub forward_aux : Linking → Node → ℕ → Option (Node × Node)
forward_aux (auxiliary fw_weights bw_weights) aux_split i = some (output aux_split i, fw_weights)
forward_aux linking aux_split i = none

-- the forward loop from step `i` on, `count` of them
unfoldable pub forward_from :
    Weights → Linking → ℕ → Node → Node → ℕ → ℕ → Node → Node → Build Forward
unfolding linked_cell
forward_from w linking activation split aux_split i zero state last =
    pure (record { outputs = []; last = last; inputs = []; aux_inputs = [] })
forward_from w linking activation split aux_split i (suc count) state last = do
  dims ← no_axes
  input ← make Op.squeeze (output split i ∷ dims ∷ [])
  (out, aux) ← linked_cell w activation dims input state (forward_aux linking aux_split i)
  rest ← forward_from w linking activation split aux_split (suc i) count out out
  pure (record {
    outputs = out ∷ rest.outputs;
    last = rest.last;
    inputs = input ∷ rest.inputs;
    aux_inputs = aux ∷ rest.aux_inputs;
  })

-- What a backward step reads: with parallel linking the auxiliary input, else the input that the
-- forward step squeezed.
abbrev pub backward_input : Linking → Node → Forward → ℕ → Build Node
backward_input parallel aux_split fw i = pure (output aux_split i)
backward_input linking aux_split fw i = index_of fw.inputs i

abbrev pub backward_aux : Linking → Forward → ℕ → Build (Option (Node × Node))
backward_aux (auxiliary fw_weights bw_weights) fw i = do
  aux ← index_of fw.aux_inputs i
  pure (some (aux, bw_weights))
backward_aux linking fw i = pure none

-- the backward loop, from step `count - 1` down to 0, with the outputs of the later steps
unfoldable pub backward_from :
    Weights → Linking → ℕ → Node → Forward → ℕ → Node → Node → List Node → Build (List Node × Node)
unfolding linked_cell
backward_from w linking activation aux_split fw zero state last outputs = pure (outputs, last)
backward_from w linking activation aux_split fw (suc i) state last outputs = do
  dims ← no_axes
  step_input ← backward_input linking aux_split fw i
  input ← make Op.squeeze (step_input ∷ dims ∷ [])
  aux ← backward_aux linking fw i
  (out, aux') ← linked_cell w activation dims input state aux
  backward_from w linking activation aux_split fw i out out (out ∷ outputs)

-- `int i = maxTime - 1` is negative where maxTime is above 2 ^ 31: then the outputs stay null.
abbrev pub backward_steps :
    Weights → Linking → ℕ → Node → Forward → ℕ → Node → Build (List Node × Node)
backward_steps w linking activation aux_split fw max_time state =
    if leb max_time (2 ^ 31)
    then backward_from w linking activation aux_split fw max_time state no_node []
    else pure (replicate max_time no_node, no_node)

abbrev pub unless_unlinked : Linking → (Node → Build Node) → Node → Build Node
unless_unlinked unlinked f n = pure n
unless_unlinked linking f n = f n

abbrev pub set_output_at : ℕ → Node → Build (Unit {0})
set_output_at i n = do index ← operation_output i; set_result index n

-- the outputs, and the last states if there are more than two
abbrev pub set_sequences : Bool → Node → Node → Node → Node → Build (Unit {0})
set_sequences merged fw bw fw_last bw_last = do
  outputs_size ← operation_outputs_size
  set_output_at 0 fw
  if merged then pure tt else set_output_at 1 bw
  if ltb 2 outputs_size
      then (do
        set_output_at (if merged then 1 else 2) fw_last
        set_output_at (if merged then 2 else 3) bw_last)
      else pure tt

pub connect_bidirectional_sequence_rnn : Build (Unit {0})
unfolding forward_from backward_from sequence_of
connect_bidirectional_sequence_rnn = do
  input ← get_input_node 0
  fw_w ← weights_at 1
  fw_state ← get_input_node 4
  bw_w ← weights_at 5
  bw_state ← get_input_node 8
  aux_input ← get_input_node 9
  fw_aux_weights ← get_input_node 10
  bw_aux_weights ← get_input_node 11
  linking ← linking_of fw_aux_weights bw_aux_weights
  activation ← parse 4 12
  time_major ← parse 1 13
  merge_outputs ← parse 1 14
  let is_time_major = not (time_major == 0)
  let merged = not (merge_outputs == 0)
  max_time ← max_time_of is_time_major
  input' ← unless_time_major is_time_major input
  aux_input' ← unless_unlinked linking (unless_time_major is_time_major) aux_input
  axis_node ← make_const i32 [] (0 ∷ [])
  split ← make (Op.split max_time) (input' ∷ axis_node ∷ [])
  aux_split ←
      unless_unlinked linking (λ n. make (Op.split max_time) (n ∷ axis_node ∷ [])) aux_input'
  fw ← forward_from fw_w linking activation split aux_split 0 max_time fw_state no_node
  (bw_outputs, bw_last) ← backward_steps bw_w linking activation aux_split fw max_time bw_state
  fw_joined ← sequence_of fw.outputs max_time input'
  bw_joined ← sequence_of bw_outputs max_time input'
  fw_out ← unless_time_major is_time_major fw_joined
  bw_out ← unless_time_major is_time_major bw_joined
  merged_out ← (if merged then make (Op.concat 2) (fw_out ∷ bw_out ∷ []) else pure fw_out)
  set_sequences merged merged_out bw_out fw.last bw_last
