-- ===== src/Operations/Outputs/Frame.antt =====
-- ngraph_creator/operations/src: what Split and TopkV2 leave alone.
use nn_hal.Prelude.{ℕ, zero, suc}
use nn_hal.Graph.{Node}
use nn_hal.Build.{Context}
use nn_hal.Build.Frame.{Keeps, Keeps-bind}
use nn_hal.Operations.Inputs.Frame.{operation_rules}
use nn_hal.Operations.Outputs.{split_output, set_result}
use nn_hal.Build.Frame.{Keeps-bind_output}
use nn_hal.Graph.{output}
use nn_hal.Operations.Outputs.{set_splits, connect_split, connect_topk_v2}

module _ {c : Context} where
  set_splits-Keeps : (n : Node) (i : ℕ) (j : ℕ) → Keeps c (set_splits n i j)
  unfolding set_splits
  set_splits-Keeps split i zero = search operation_rules
  set_splits-Keeps split i (suc n) = Keeps-bind_output i _ λ index is_output.
      Keeps-bind (split_output (output split i)) _ (search operation_rules depth 12) λ part.
        Keeps-bind (set_result index part) _ (search operation_rules)
          λ done. set_splits-Keeps split (suc i) n

  pub connect_split-Keeps : Keeps c connect_split
  unfolding connect_split
  connect_split-Keeps = search (operation_rules, set_splits-Keeps) depth 40

  pub connect_topk_v2-Keeps : Keeps c connect_topk_v2
  unfolding connect_topk_v2
  connect_topk_v2-Keeps = search operation_rules depth 40
