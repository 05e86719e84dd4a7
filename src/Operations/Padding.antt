-- ===== src/Operations/Padding.antt =====
-- NgraphHelper.hpp: calculateExplicitPadding. The values are `int32_t`; the model is over integers
-- and faults where a sum, a product or a quotient of `int32_t` is undefined.
pub mod Same
use nn_hal.Prelude.{
  ℕ, zero, ◌*◌, ◌/◌, ◌-◌, ◌+◌, ◌^◌, Bool, true, false, Result, ok, fault, undefined, ◌>>=◌, ◌==◌,
  ltb, leb, if◌then◌else◌, ◌&&◌,
}
use nn_hal.Prelude.Int.{ℤ, pos, negsuc, ◌+ℤ◌, ◌-ℤ◌, ◌*ℤ◌, pos_part, neg_part, ltb_ℤ, sub_ℕ}

-- A signed result that does not fit is undefined.
abbrev pub int32 : ℤ → Result ℤ
int32 (pos n) = if ltb n (2 ^ 31) then ok (pos n) else fault undefined
int32 (negsuc n) = if ltb n (2 ^ 31) then ok (negsuc n) else fault undefined

-- `/` of C++ rounds towards zero.
abbrev pub truncated : ℤ → ℤ → ℤ
truncated (pos a) (pos b) = pos (a / b)
truncated (pos a) (negsuc b) = sub_ℕ 0 (a / (b + 1))
truncated (negsuc a) (pos b) = sub_ℕ 0 ((a + 1) / b)
truncated (negsuc a) (negsuc b) = pos ((a + 1) / (b + 1))

pub divide : ℤ → ℤ → Result ℤ
divide a (pos zero) = fault undefined
divide a b = int32 (truncated a b)

-- if (tmp > in_size): the two paddings, head and tail
pub pad_to : ℤ → ℤ → Result (ℤ × ℤ)
pad_to in_size tmp =
    if ltb_ℤ in_size tmp
    then (do
      needed ← int32 (tmp -ℤ in_size)
      head ← divide needed (pos 2)
      tail ← int32 (needed -ℤ head)
      ok (head, tail))
    else ok (pos 0, pos 0)

-- The branch of padding_implicit == 1.
pub same_padding : ℤ → ℤ → ℤ → Result (ℤ × ℤ)
same_padding in_size stride filter_size = do
  rounded ← int32 (in_size +ℤ stride)
  numerator ← int32 (rounded -ℤ pos 1)
  out_size ← divide numerator stride
  steps ← int32 (out_size -ℤ pos 1)
  span ← int32 (steps *ℤ stride)
  tmp ← int32 (span +ℤ filter_size)
  pad_to in_size tmp

pub calculate_explicit_padding : ℤ → ℤ → ℤ → ℕ → Result (ℤ × ℤ)
calculate_explicit_padding in_size stride filter_size padding_implicit =
    if padding_implicit == 1 then same_padding in_size stride filter_size else ok (pos 0, pos 0)
