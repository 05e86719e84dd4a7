-- ===== src/Scenarios/Sequences.antt =====
-- Tests of the theorem on the loops of BidirectionalSequenceRNN.cpp.
use nn_hal.Prelude.{ℕ, List, [], ◌∷◌, ◌≡◌, refl, length, Result, ok, fault}
use nn_hal.Graph.{Node, no_node, parameter, ElementType, make_node}
use nn_hal.NgraphNodes.{NgraphNodes}
use nn_hal.NetworkCreator.{context}
use nn_hal.Operations.Inputs.{apply_activation}
use nn_hal.Operations.Recurrent.{Weights}
use nn_hal.Operations.Recurrent.Bidirectional.{
  Forward, parallel, forward_from, backward_steps, linked_cell, backward_from,
}
use nn_hal.Operations.Recurrent.Bidirectional.Steps.{first_or, last_or, backward_steps-forward_from}
use nn_hal.Scenarios.Building.{creator, before}

abbrev input : ℕ → Node
input i = parameter i ElementType.f32 (2 ∷ 3 ∷ [])

abbrev weights : Weights
weights = record { input_weights = input 2; recurrent_weights = input 3; bias = input 4 }

abbrev forward_of : Result (Forward × NgraphNodes) → Forward
forward_of (ok (fw, s)) = fw
forward_of (fault e) = record { outputs = []; last = no_node; inputs = []; aux_inputs = [] }

abbrev backward_of : Result ((List Node × Node) × NgraphNodes) → List Node × Node
backward_of (ok (bw, s)) = bw
backward_of (fault e) = ([], no_node)

-- two steps, without an activation
abbrev fw : Forward
fw = forward_of (
    forward_from weights parallel 0 (input 0) (input 1) 0 2 (input 5) no_node (context creator 0)
      before)

abbrev bw : List Node × Node
bw =
    backward_of
      (backward_steps weights parallel 0 (input 1) fw 2 (input 6) (context creator 0) before)

backward_steps-forward_from_example :
    (length fw.outputs ≡ 2)
    × (length fw.inputs ≡ 2)
    × (length bw.0 ≡ 2)
    × (last_or no_node fw.outputs ≡ fw.last)
    × (first_or no_node bw.0 ≡ bw.1)
unfolding forward_from linked_cell backward_from make_node apply_activation
backward_steps-forward_from_example =
    backward_steps-forward_from weights weights parallel 0 2 (input 0) (input 1) (input 5) (input 6)
      bw.1 fw bw.0 (context creator 0) before before before before refl refl
