-- ===== src/Operations/Cast/Frame.antt =====
-- ngraph_creator/operations/src: what Cast leaves alone.
use nn_hal.Prelude.{false, Option, none, some}
use nn_hal.Prelude.Int.{ℤ}
use nn_hal.Graph.{Node}
use nn_hal.Build.{Context, Build}
use nn_hal.Build.Frame.{Keeps, Keeps-bind}
use nn_hal.Operations.Inputs.Frame.{operation_rules}
use nn_hal.Build.Frame.{Keeps-bind_output}
use nn_hal.Build.{operation_input, operation_type, operand, pure}
use nn_hal.Operations.Inputs.{get_input_node_or_raw}
use nn_hal.Types.{OperationType-discrete}
use nn_hal.Operations.Cast.{cast_target, converted}
use nn_hal.Operations.Cast.{clamped, connect_cast}

module _ {c : Context} where
  pub clamped-Keeps : (x0 : Option (ℤ × ℤ)) (n : Node) → Keeps c (clamped x0 n)
  clamped-Keeps none input = search operation_rules depth 40
  clamped-Keeps (some (lo, hi)) input = search operation_rules depth 40

  pub connect_cast-Keeps : Keeps c connect_cast
  unfolding connect_cast
  connect_cast-Keeps =
      Keeps-bind (get_input_node_or_raw 0 false) _ (search operation_rules) λ input.
        Keeps-bind (operation_input 0) _ (search operation_rules) λ input_index.
          Keeps-bind_output 0 _ λ output_index is_output.
            Keeps-bind (operation_type input_index) _ (search operation_rules) λ input_type.
              Keeps-bind (operation_type output_index) _ (search operation_rules) λ output_type.
                Keeps-bind (operand output_index) _ (search operation_rules) λ out_op.
                  Keeps-bind _ _
                    (by_decision (OperationType-discrete input_type output_type) input
                      (converted (cast_target out_op.type) input)
                      (search (operation_rules, clamped-Keeps)))
                    λ out. search operation_rules
    where
      by_decision :
          {P : Type 0} (d : Dec P) (input : Node) (other : Build Node)
          → Keeps c other
          → Keeps c (elim d [ yes same ↦ pure input | no differ ↦ other ])
      by_decision (yes same) input other h = search operation_rules
      by_decision (no differ) input other h = h
