-- ===== src/Operations/Elementwise/Frame.antt =====
-- ngraph_creator/operations/src: what the elementwise operations leave alone.
use nn_hal.Graph.{Op}
use nn_hal.Build.{Context}
use nn_hal.Build.Frame.{Keeps, Keeps-bind}
use nn_hal.Operations.Inputs.Frame.{operation_rules}
use nn_hal.Types.{IntelDeviceType}
use nn_hal.Build.{plugin_type}
use nn_hal.Operations.Elementwise.{activated}
use nn_hal.Operations.Elementwise.{add_for_vpu, create_add, create_rsqrt}

module _ {c : Context} where
  add_for_vpu-Keeps : Keeps c add_for_vpu
  unfolding add_for_vpu
  add_for_vpu-Keeps = search operation_rules depth 40

  pub create_add-Keeps : Keeps c create_add
  unfolding create_add
  create_add-Keeps = Keeps-bind plugin_type _ (search operation_rules) by_plugin
    where
      by_plugin :
          (p : IntelDeviceType)
          → Keeps c (elim p [ IntelDeviceType.vpu ↦ add_for_vpu | _ ↦ activated Op.add ])
      by_plugin IntelDeviceType.vpu = add_for_vpu-Keeps
      by_plugin p = search operation_rules depth 12

  pub create_rsqrt-Keeps : Keeps c create_rsqrt
  unfolding create_rsqrt
  create_rsqrt-Keeps = search operation_rules depth 40
