-- ===== src/Operations/Lstm/Frame.antt =====
-- ngraph_creator/operations/src: what the steps of the LSTM leave alone.
use nn_hal.Prelude.{ℕ, Bool, List, [], ◌∷◌}
use nn_hal.Graph.{Node, ElementType}
use nn_hal.Build.{Context, Build}
use nn_hal.Build.Frame.{Keeps, Keeps-bind, Keeps-if}
use nn_hal.Operations.Inputs.Frame.{operation_rules}
use nn_hal.Operations.Lstm.{
  all_inputs, is_cifg, peephole_of, is_layer_norm, features, clip, lstm_activation, layer_norm_of,
  scratch_buffer,
}

module _ {c : Context} where
  all_inputs-Keeps :
      (test : ℕ → Build Bool)
      → ((i : ℕ) → Keeps c (test i))
      → (is : List ℕ) → Keeps c (all_inputs test is)
  unfolding all_inputs
  all_inputs-Keeps test h [] = search operation_rules
  all_inputs-Keeps test h (i ∷ is) =
      Keeps-bind (test i) _ (h i)
        λ passed. Keeps-if passed _ _ (all_inputs-Keeps test h is) (search operation_rules)

  pub is_cifg-Keeps : Keeps c is_cifg
  unfolding is_cifg
  is_cifg-Keeps = search (operation_rules, all_inputs-Keeps) depth 40

  pub peephole_of-Keeps : (b : Bool) → Keeps c (peephole_of b)
  unfolding peephole_of
  peephole_of-Keeps b = search (operation_rules, all_inputs-Keeps) depth 40

  pub is_layer_norm-Keeps : (b : Bool) → Keeps c (is_layer_norm b)
  unfolding is_layer_norm
  is_layer_norm-Keeps b = search (operation_rules, all_inputs-Keeps) depth 40

  pub features-Keeps : Keeps c features
  unfolding features
  features-Keeps =
      search (operation_rules, is_cifg-Keeps, peephole_of-Keeps, is_layer_norm-Keeps) depth 40

  pub clip-Keeps : (n : Node) (i : ℕ) → Keeps c (clip n i)
  unfolding clip
  clip-Keeps n i = search operation_rules depth 40

  pub lstm_activation-Keeps : (n : Node) (i : ℕ) → Keeps c (lstm_activation n i)
  unfolding lstm_activation
  lstm_activation-Keeps n i = search operation_rules depth 40

  pub layer_norm_of-Keeps : (n : Node) (n1 : Node) (n2 : Node) → Keeps c (layer_norm_of n n1 n2)
  unfolding layer_norm_of
  layer_norm_of-Keeps n n1 n2 = search operation_rules depth 40

  pub scratch_buffer-Keeps : (t : ElementType) (n : Node) (i : ℕ) → Keeps c (scratch_buffer t n i)
  unfolding scratch_buffer
  scratch_buffer-Keeps t n i = search operation_rules depth 40
