-- ===== src/Operations/Recurrent/Bidirectional/Frame.antt =====
-- ngraph_creator/operations/src: what BidirectionalSequenceRNN leaves alone.
use nn_hal.Prelude.{ℕ, zero, suc, List, Option, none, some}
use nn_hal.Graph.{Node}
use nn_hal.Build.{Context, Build}
use nn_hal.Build.Frame.{Keeps}
use nn_hal.Operations.Inputs.Frame.{operation_rules}
use nn_hal.Operations.Recurrent.{Weights}
use nn_hal.Operations.Recurrent.Bidirectional.{Linking, Forward, parallel, auxiliary, unlinked}
use nn_hal.Operations.Recurrent.Frame.{sequence_of-Keeps}
use nn_hal.Operations.Recurrent.Bidirectional.{
  linked_cell, forward_from, backward_input, backward_aux, backward_from, unless_unlinked,
  connect_bidirectional_sequence_rnn,
}

module _ {c : Context} where
  pub linked_cell-Keeps :
      (w : Weights) (i : ℕ) (n : Node) (n1 : Node) (n2 : Node) (x5 : Option (Node × Node))
      → Keeps c (linked_cell w i n n1 n2 x5)
  unfolding linked_cell
  linked_cell-Keeps w activation dims input state none = search operation_rules depth 40
  linked_cell-Keeps w activation dims input state (some (aux, aux_weights)) =
      search operation_rules depth 40

  pub forward_from-Keeps :
      (w : Weights) (linking : Linking) (i : ℕ) (n : Node) (n1 : Node) (j : ℕ) (k : ℕ) (n2 : Node)
      (n3 : Node)
      → Keeps c (forward_from w linking i n n1 j k n2 n3)
  unfolding forward_from
  forward_from-Keeps w linking activation split aux_split i zero state last =
      search operation_rules depth 40
  forward_from-Keeps w linking activation split aux_split i (suc count) state last =
      search
        (
          operation_rules,
          linked_cell-Keeps,
          forward_from-Keeps w linking activation split aux_split (suc i) count,
        )
        depth 40

  pub backward_input-Keeps :
      (linking : Linking) (n : Node) (fw : Forward) (i : ℕ)
      → Keeps c (backward_input linking n fw i)
  backward_input-Keeps parallel aux_split fw i = search operation_rules depth 40
  backward_input-Keeps linking aux_split fw i = search operation_rules depth 40

  pub backward_aux-Keeps :
      (linking : Linking) (fw : Forward) (i : ℕ) → Keeps c (backward_aux linking fw i)
  backward_aux-Keeps (auxiliary fw_weights bw_weights) fw i = search operation_rules depth 40
  backward_aux-Keeps linking fw i = search operation_rules depth 40

  pub backward_from-Keeps :
      (w : Weights) (linking : Linking) (i : ℕ) (n : Node) (fw : Forward) (j : ℕ) (n1 : Node)
      (n2 : Node) (outs : List Node)
      → Keeps c (backward_from w linking i n fw j n1 n2 outs)
  unfolding backward_from
  backward_from-Keeps w linking activation aux_split fw zero state last outputs =
      search operation_rules depth 40
  backward_from-Keeps w linking activation aux_split fw (suc i) state last outputs =
      search
        (
          operation_rules,
          linked_cell-Keeps,
          backward_input-Keeps,
          backward_aux-Keeps,
          backward_from-Keeps w linking activation aux_split fw i,
        )
        depth 40

  unless_unlinked-Keeps :
      (linking : Linking) (f : Node → Build Node) (n : Node)
      → ((m : Node) → Keeps c (f m))
      → Keeps c (unless_unlinked linking f n)
  unless_unlinked-Keeps unlinked f n h = search operation_rules
  unless_unlinked-Keeps linking f n h = h n

  pub connect_bidirectional_sequence_rnn-Keeps : Keeps c connect_bidirectional_sequence_rnn
  unfolding connect_bidirectional_sequence_rnn
  connect_bidirectional_sequence_rnn-Keeps =
      search
        (
          operation_rules, sequence_of-Keeps, forward_from-Keeps, backward_from-Keeps,
          unless_unlinked-Keeps,
        )
        depth 60 fits 20000
