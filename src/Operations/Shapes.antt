-- ===== src/Operations/Shapes.antt =====
-- ngraph_creator/operations/src: Reshape.cpp, Argmax.cpp and Argmin.cpp. An int32_t stands for itself
-- by its pattern, and where its sign matters by the integer that it stands for.
pub mod Stretch
pub mod Frame
use nn_hal.Prelude.{
  ℕ, suc, ◌*◌, ◌^◌, Bool, true, false, List, [], ◌∷◌, Option, none, some, Result, ok, fault,
  undefined, leb, ltb, length, set, if◌then◌else◌,
}
use nn_hal.Prelude.{◌>>=◌ as then_result}
use nn_hal.Prelude.Int.{ℤ, pos}
use nn_hal.Graph.{Node, Op, output}
use nn_hal.Graph.ElementType.{i32, u32}
use nn_hal.Build.{
  Build, ◌>>=◌, pure, asks, operation_input, is_const, parse, const_vec, make, make_const, axis_of,
}
use nn_hal.Utils.Sizes.{get_number_of_elements}
use nn_hal.Operations.Base.{get_input_operand_dimensions, is_valid_input_tensor}
use nn_hal.Operations.Inputs.{get_input_node}
use nn_hal.Operations.Padding.{divide}
use nn_hal.Operations.Pooling.{signed}
use nn_hal.Operations.Resizing.{pattern_of}

abbrev pub validate_reshape : Build Bool
validate_reshape = do
  index ← operation_input 1
  constant ← is_const index
  if constant then is_valid_input_tensor 1 else pure false

-- The place of the last negative dimension, and the product of the others, an int.
abbrev pub Stretch : Type 0
Stretch = Option ℕ × ℕ

-- the body of the loop over outDims
abbrev pub stretch_step : ℕ → ℕ → Stretch → Result Stretch
stretch_step i d (stretch, count) =
    if leb (2 ^ 31) d
    then ok (some i, count)
    else if ltb (count * d) (2 ^ 31)
    then ok (stretch, count * d)
    else fault undefined

-- the loop from the place `i` on
unfoldable pub stretch_from : ℕ → List ℕ → Stretch → Result Stretch
stretch_from i [] found = ok found
stretch_from i (d ∷ ds) found =
    then_result (stretch_step i d found) (λ next. stretch_from (suc i) ds next)

-- outDims with the dimension that is stretched: the product, which is not read again, is below the
-- number of elements of the input, and is left out
unfoldable pub stretched : ℤ → List ℕ → Stretch → Result (List ℕ)
stretched elements dims (none, count) = ok dims
stretched elements dims (some i, count) =
    then_result (divide elements (pos count)) (λ value. ok (set dims i (pattern_of value)))

-- numInputElements is an int, multiplied by a uint32_t
unfoldable pub reshape_dims : List ℕ → List ℕ → Result (List ℕ)
unfolding stretch_from stretched
reshape_dims in_dims out_dims =
    then_result (stretch_from 0 out_dims (none, 1))
      (λ found. stretched (signed (get_number_of_elements in_dims)) out_dims found)

pub create_reshape : Build Node
unfolding reshape_dims
create_reshape = do
  index ← operation_input 1
  out_dims ← const_vec 4 index
  input ← get_input_node 0
  in_dims ← get_input_operand_dimensions 0
  dims ← asks λ c. reshape_dims in_dims out_dims
  shape_node ← make_const i32 (length dims ∷ []) dims
  make (Op.reshape true) (input ∷ shape_node ∷ [])

-- The output of indices of a top-k of one, without its axis.
abbrev pub arg_of : (ℕ → Op) → Build Node
arg_of top_k = do
  input ← get_input_node 0
  axis ← parse 4 1
  k_node ← make_const i32 [] (1 ∷ [])
  topk ← make (top_k axis) (input ∷ k_node ∷ [])
  counted ← axis_of topk
  axis_to_remove ← make_const u32 [] (counted ∷ [])
  make Op.squeeze (output topk 1 ∷ axis_to_remove ∷ [])

abbrev pub create_argmax : Build Node
create_argmax = arg_of Op.top_k_max_none

abbrev pub create_argmin : Build Node
create_argmin = arg_of Op.top_k_min_none
