-- ===== src/Operations/Pooling/Frame.antt =====
-- ngraph_creator/operations/src: what the pooling operations leave alone.
use nn_hal.Prelude.{ℕ, Bool}
use nn_hal.Build.{Context}
use nn_hal.Build.Frame.{Keeps}
use nn_hal.Operations.Inputs.Frame.{operation_rules}
use nn_hal.Operations.Pooling.{OtherScheme, as_valid, unset}
use nn_hal.Operations.Pooling.{
  explicit_parameters, implicit_parameters, pool_parameters, create_average_pool_2d,
  create_max_pool_2d, create_l2_pooling_2d,
}

module _ {c : Context} where
  pub explicit_parameters-Keeps : (b : Bool) (i : ℕ) → Keeps c (explicit_parameters b i)
  unfolding explicit_parameters
  explicit_parameters-Keeps b i = search operation_rules depth 40

  pub implicit_parameters-Keeps :
      (other : OtherScheme) (i : ℕ) → Keeps c (implicit_parameters other i)
  unfolding implicit_parameters
  implicit_parameters-Keeps as_valid i = search operation_rules depth 40
  implicit_parameters-Keeps unset i = search operation_rules depth 40

  pub pool_parameters-Keeps : (b : Bool) (other : OtherScheme) → Keeps c (pool_parameters b other)
  unfolding pool_parameters
  pool_parameters-Keeps b other =
      search (operation_rules, explicit_parameters-Keeps, implicit_parameters-Keeps) depth 40

  pub create_average_pool_2d-Keeps : Keeps c create_average_pool_2d
  unfolding create_average_pool_2d
  create_average_pool_2d-Keeps = search (operation_rules, pool_parameters-Keeps) depth 40

  pub create_max_pool_2d-Keeps : Keeps c create_max_pool_2d
  unfolding create_max_pool_2d
  create_max_pool_2d-Keeps = search (operation_rules, pool_parameters-Keeps) depth 40

  pub create_l2_pooling_2d-Keeps : Keeps c create_l2_pooling_2d
  unfolding create_l2_pooling_2d
  create_l2_pooling_2d-Keeps = search (operation_rules, pool_parameters-Keeps) depth 40
