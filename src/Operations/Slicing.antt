-- ===== src/Operations/Slicing.antt =====
-- ngraph_creator/operations/src/StridedSlice.cpp. An int32_t stands for itself by its pattern, and
-- where its sign matters by the integer that it stands for.
pub mod Masks
pub mod Frame
use nn_hal.Prelude.{
  ℕ, zero, suc, ◌+◌, ◌-◌, ◌/◌, ◌%◌, Bool, true, false, not, ◌||◌, List, [], ◌∷◌, Result, ok, fault,
  undefined, ◌==◌, ltb, length, at, if◌then◌else◌,
}
use nn_hal.Prelude.{◌>>=◌ as then_result}
use nn_hal.Prelude.Int.{ℤ, pos, negsuc, ◌-ℤ◌, pos_part, neg_part, ltb_ℤ}
use nn_hal.Graph.{Node, Op}
use nn_hal.Build.{Build, ◌>>=◌, pure, asks, operation_input, is_const, parse, const_vec, make}
use nn_hal.Operations.Base.{get_input_operand_dimensions}
use nn_hal.Operations.Inputs.{get_input_node}
use nn_hal.Operations.Padding.{int32}
use nn_hal.Operations.Pooling.{signed}

-- The loop of getMaskBits from an element on, of `size` that are left: `%` and `/` of C++ go by the
-- magnitude of the value. A bit that no element is left for is written out of range.
unfoldable pub mask_bits_from : ℕ → ℕ → Result (List ℕ)
mask_bits_from zero value = if value == 0 then ok [] else fault undefined
mask_bits_from (suc size) value =
    then_result (mask_bits_from size (value / 2))
      (λ rest. ok ((if value % 2 == 0 then 0 else 1) ∷ rest))

abbrev pub absolute : ℤ → ℕ
absolute z = pos_part z + neg_part z

pub get_mask_bits : ℕ → ℕ → Result (List ℕ)
unfolding mask_bits_from
get_mask_bits mask_value vec_size = mask_bits_from vec_size (absolute (signed mask_value))

abbrev pub element : List ℕ → ℕ → Build ℕ
element values i = asks λ c. at values i

-- `begin - end > 1 || begin - end < -1`
abbrev pub is_wide : ℕ → ℕ → Build Bool
is_wide begin end = do
  difference ← asks λ c. int32 (signed begin -ℤ signed end)
  pure (ltb_ℤ (pos 1) difference || ltb_ℤ difference (negsuc 0))

-- the body of validate's loop for an axis whose bit is set
abbrev pub can_shrink : ℕ → Build Bool
can_shrink i = do
  strides_index ← operation_input 3
  strides ← const_vec 4 strides_index
  stride ← element strides i
  if ltb_ℤ (signed stride) (pos 0) then pure false else (do
    begins_index ← operation_input 1
    begins ← const_vec 4 begins_index
    ends_index ← operation_input 2
    ends ← const_vec 4 ends_index
    begin ← element begins i
    end ← element ends i
    wide ← is_wide begin end
    pure (not wide))

-- the loop of validate from the axis `i` on, over the bits that are left
shrinks_from : ℕ → List ℕ → Build Bool
shrinks_from i [] = pure true
shrinks_from i (bit ∷ bits) = do
  passed ← (if bit == 0 then pure true else can_shrink i)
  let rest = shrinks_from (suc i) bits
  if passed then rest else pure false

abbrev pub is_const_input : ℕ → Build Bool
is_const_input i = do index ← operation_input i; is_const index

pub validate_strided_slice : Build Bool
unfolding shrinks_from
validate_strided_slice = do
  dims ← get_input_operand_dimensions 0
  begins ← (if ltb 4 (length dims) then pure false else is_const_input 1)
  ends ← (if begins then is_const_input 2 else pure false)
  strides ← (if ends then is_const_input 3 else pure false)
  if not strides then pure false else (do
    shrink_axis_mask ← parse 4 6
    bits ← asks λ c. get_mask_bits shrink_axis_mask (length dims)
    shrinks_from 0 bits)

pub create_strided_slice : Build Node
create_strided_slice = do
  input ← get_input_node 0
  begin ← get_input_node 1
  end ← get_input_node 2
  strides ← get_input_node 3
  begin_mask ← parse 4 4
  end_mask ← parse 4 5
  shrink_axis_mask ← parse 4 6
  dims ← get_input_operand_dimensions 0
  begin_mask_bits ← asks λ c. get_mask_bits begin_mask (length dims)
  end_mask_bits ← asks λ c. get_mask_bits end_mask (length dims)
  shrink_axis_mask_bits ← asks λ c. get_mask_bits shrink_axis_mask (length dims)
  make (Op.strided_slice begin_mask_bits end_mask_bits shrink_axis_mask_bits)
      (input ∷ begin ∷ end ∷ strides ∷ [])
