-- ===== src/Scenarios/Models.antt =====
-- Tests of the theorems on ModelManager.cpp and on the memory pools.
use nn_hal.Prelude.{◌≡◌, refl, arith, Bool, true, false, [], ◌∷◌, ◌++◌, none, ok, fault, Result}
use nn_hal.Prelude.{set as set_elem}
use nn_hal.Utils.Pools.{mmap, address, is_address, set}
use nn_hal.Utils.Pools.Mapping.{set-is_address}
use nn_hal.ModelInfo.Model.{NnapiModelInfo}
use nn_hal.ModelInfo.Memory.{get_const_vec_operand, get_operand}
use nn_hal.ModelInfo.Memory.RoundTrip.{IsCopied, get_const_vec_operand-encode_all}
use nn_hal.ModelInfo.Runtime.{
  initialize_run_time_operand_info, runtime_operands, runtime_operand, initial_shapes,
}
use nn_hal.ModelInfo.Runtime.Mirrors.{initialize_run_time_operand_info-mirrors, AllMirror, ShapesOf}
use nn_hal.ModelInfo.Requests.{update_outputshapes}
use nn_hal.ModelInfo.Requests.Shapes.{update_outputshapes_lem}
use nn_hal.PreparedModel.{PreparedModel, destroy}
use nn_hal.PreparedModel.Teardown.{destroy_lem, unmap_calls}
use nn_hal.Types.{IntelDeviceType}
use nn_hal.Scenarios.Sample.{
  model, plain_info, mapped_info, two_ints, os, pool, empty_pool, shared_memory, shape,
}

two_ints-IsCopied : IsCopied plain_info 3 two_ints
unfolding get_operand
two_ints-IsCopied = record { found = refl; copied = refl; first_pool = refl }

get_const_vec_operand-encode_all_example :
    get_const_vec_operand plain_info (λ a. 0) 4 3 ≡ ok (7 ∷ 257 ∷ [])
get_const_vec_operand-encode_all_example =
    get_const_vec_operand-encode_all plain_info (λ a. 0) 4 3 two_ints two_ints-IsCopied
      (7 ∷ 257 ∷ []) (omega arith) refl (omega arith) (omega arith, (omega arith, tt))
      (refl, (refl, (refl, (refl, (refl, (refl, (refl, (refl, tt))))))))

-- what initializeRunTimeOperandInfo makes of the model
abbrev initialized : Result (NnapiModelInfo × Bool) → NnapiModelInfo
initialized (ok (t, done)) = t
initialized (fault e) = plain_info

abbrev initialized_info : NnapiModelInfo
initialized_info = initialized (initialize_run_time_operand_info plain_info)

initialize_run_time_operand_info-mirrors_example :
    AllMirror model.operands initialized_info.operands
    × ShapesOf initialized_info.operands model.output_indexes initialized_info.output_shapes
    × (initialized_info.model ≡ model)
    × (initialized_info.pool_infos ≡ [])
unfolding initialize_run_time_operand_info runtime_operands runtime_operand initial_shapes
initialize_run_time_operand_info-mirrors_example =
    initialize_run_time_operand_info-mirrors plain_info initialized_info refl

set-is_address_example : is_address pool.buffer ≡ true
unfolding set
set-is_address_example =
    set-is_address os (λ h m e. ground arith) (λ h size prot fd offset e. ground arith)
      (λ h m p e. ground arith) empty_pool shared_memory [] (mmap (address 8192) 64 ∷ []) pool true
      refl

update_outputshapes_lem_example :
    update_outputshapes mapped_info 0 (2 ∷ 4294967300 ∷ []) false
    ≡ ok (
      record mapped_info {
        output_shapes =
            set_elem mapped_info.output_shapes 0
              (record { dimensions = 2 ∷ 4 ∷ []; is_sufficient = false });
      },
      true,
    )
update_outputshapes_lem_example =
    update_outputshapes_lem mapped_info 0 (2 ∷ 4294967300 ∷ []) false shape refl
      (omega arith, (omega arith, tt))

-- a prepared model that has run a request
abbrev used_model : PreparedModel
used_model = record {
  target_device = IntelDeviceType.cpu;
  model_info = mapped_info;
  ngraph_net_creator = none;
  plugin = none;
}

destroy_lem_example :
    destroy os used_model [] ≡ unmap_calls (pool ∷ []) ++ (unmap_calls (pool ∷ []) ++ [])
destroy_lem_example = destroy_lem os used_model []
