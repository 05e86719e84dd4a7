-- ===== src/ModelInfo/Runtime/Mirrors.antt =====
-- ModelManager.cpp: initializeRunTimeOperandInfo, the run-time operands against the model's.
use nn_hal.Prelude.{ℕ, true, some, List, [], ◌∷◌, ◌≡◌, ok, arith, at}
use nn_hal.Types.{OperandLifeTime}
use nn_hal.Utils.Sizes.{size_of_data}
use nn_hal.Utils.Pools.{RunTimePoolInfo}
use nn_hal.ModelInfo.Model.{Operand, RunTimeOperandInfo, OutputShape, NnapiModelInfo}
use nn_hal.ModelInfo.Runtime.{
  runtime_type, scale_allowed, runtime_operand, runtime_operands, initial_shapes,
  initialize_run_time_operand_info,
}

-- The length of an operand's data: computed for a temporary, else the model's.
abbrev pub data_length : Operand → RunTimeOperandInfo → OperandLifeTime → ℕ
data_length from to OperandLifeTime.temporary_variable = size_of_data to.type to.dimensions
data_length from to lifetime = from.location.length

pub record Mirrors (from : Operand) (to : RunTimeOperandInfo) : Type 0 where
  pub type_known : runtime_type from.type ≡ some to.type
  pub same_dimensions : to.dimensions ≡ from.dimensions
  pub same_scale : to.scale ≡ from.scale
  pub scale_fits : scale_allowed from.type to.scale ≡ true
  pub same_lifetime : to.lifetime ≡ from.lifetime
  pub length_known : to.length ≡ data_length from to from.lifetime

abbrev pub AllMirror : List Operand → List RunTimeOperandInfo → Type 0
AllMirror [] [] = Unit
AllMirror [] (t ∷ ts) = ⊥
AllMirror (f ∷ fs) [] = ⊥
AllMirror (f ∷ fs) (t ∷ ts) = Mirrors f t × AllMirror fs ts

runtime_operand-Mirrors :
    (pools : List RunTimePoolInfo) (from : Operand) {to : RunTimeOperandInfo}
    → runtime_operand pools from ≡ ok (to, true)
    → Mirrors from to
unfolding runtime_operand
runtime_operand-Mirrors pools from h = ground arith

runtime_operands-Mirror :
    (pools : List RunTimePoolInfo) (froms : List Operand) (tos : List RunTimeOperandInfo)
    → runtime_operands pools froms ≡ ok (tos, true)
    → AllMirror froms tos
unfolding runtime_operands
runtime_operands-Mirror pools [] [] h = tt
runtime_operands-Mirror pools [] (t ∷ ts) h = ground arith
runtime_operands-Mirror pools (f ∷ fs) [] h = ground arith
runtime_operands-Mirror pools (f ∷ fs) (t ∷ ts) h =
    ground (arith, runtime_operand-Mirrors pools f {to = t}, runtime_operands-Mirror pools fs ts)

-- The shape of each output is that of its operand, and marked sufficient.
abbrev pub ShapesOf : List RunTimeOperandInfo → List ℕ → List OutputShape → Type 0
ShapesOf operands [] [] = Unit
ShapesOf operands [] (s ∷ ss) = ⊥
ShapesOf operands (i ∷ is) [] = ⊥
ShapesOf operands (i ∷ is) (s ∷ ss) =
    ((o : RunTimeOperandInfo) × (at operands i ≡ ok o)
      × (s.dimensions ≡ o.dimensions)
      × (s.is_sufficient ≡ true))
    × ShapesOf operands is ss

initial_shapes-ShapesOf :
    (operands : List RunTimeOperandInfo) (is : List ℕ) (shapes : List OutputShape)
    → initial_shapes operands is ≡ ok shapes
    → ShapesOf operands is shapes
unfolding initial_shapes
initial_shapes-ShapesOf operands [] [] h = tt
initial_shapes-ShapesOf operands [] (s ∷ ss) h = ground arith
initial_shapes-ShapesOf operands (i ∷ is) [] h = ground arith
initial_shapes-ShapesOf operands (i ∷ is) (s ∷ ss) h =
    ground (arith, initial_shapes-ShapesOf operands is ss)

-- Where initializeRunTimeOperandInfo returns true, every operand has a run-time operand that
-- mirrors it: a known type with single precision for plain floats, a zero scale for a scalar
-- integer, the model's dimensions and lifetime, and the length computed for a temporary or taken
-- from the model; every output has a sufficient shape with its operand's dimensions; the model and
-- its pools are as before.
pub initialize_run_time_operand_info-mirrors :
    (s t : NnapiModelInfo)
    → initialize_run_time_operand_info s ≡ ok (t, true)
    → AllMirror s.model.operands t.operands
      × ShapesOf t.operands s.model.output_indexes t.output_shapes
      × (t.model ≡ s.model)
      × (t.pool_infos ≡ s.pool_infos)
unfolding initialize_run_time_operand_info
initialize_run_time_operand_info-mirrors s t h = ground (
  arith,
  runtime_operands-Mirror s.pool_infos s.model.operands t.operands,
  initial_shapes-ShapesOf t.operands s.model.output_indexes t.output_shapes,
)
