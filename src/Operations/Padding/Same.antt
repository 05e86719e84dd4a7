-- ===== src/Operations/Padding/Same.antt =====
-- SAME padding.
use nn_hal.Prelude.{ℕ, zero, suc, ◌*◌, ◌/◌, ◌%◌, ◌-◌, ◌+◌, ◌^◌, ◌≤◌, ◌<◌, ◌≡◌, ok, arith}
use nn_hal.Prelude.Int.{pos, ◌+ℤ◌, ◌-ℤ◌, ◌*ℤ◌}
use native.Mathlib.Nat.{div-le_self, mod-add-div, mod-lt, div-eq_of_lt-le}
use nn_hal.Operations.Padding.{calculate_explicit_padding, same_padding, pad_to, int32, divide}

int32_pos : (n : ℕ) → n < 2 ^ 31 → int32 (pos n) ≡ ok (pos n)
int32_pos n h = ground arith

+ℤ_pos : (a b : ℕ) → pos a +ℤ pos b ≡ pos (a + b)
unfolding ◌+ℤ◌
+ℤ_pos a b = ground arith

-ℤ_pos : (a b : ℕ) → b ≤ a → pos a -ℤ pos b ≡ pos (a - b)
unfolding ◌-ℤ◌
-ℤ_pos a b h = ground arith

*ℤ_pos : (a b : ℕ) → pos a *ℤ pos b ≡ pos (a * b)
unfolding ◌*ℤ◌
*ℤ_pos a b = ground arith

pub divide_pos : (a b : ℕ) → 0 < b → a < 2 ^ 31 → divide (pos a) (pos b) ≡ ok (pos (a / b))
unfolding divide
divide_pos a zero h k = elim h [ ]
divide_pos a (suc b) h k = ground (arith, div-le_self a (suc b))

-- The rounded up quotient.
abbrev pub out_size : ℕ → ℕ → ℕ
out_size i s = (i + s - 1) / s

abbrev needed : ℕ → ℕ → ℕ → ℕ
needed i s f = (out_size i s - 1) * s + f - i

quotient_bounds :
    (q r i s : ℕ)
    → r + s * q ≡ i + s - 1
    → r < s
    → 0 < i
    → (0 < q) × ((q - 1) * s < i) × (i ≤ q * s)
quotient_bounds zero r i s e lt hi = absurd (omega arith)
quotient_bounds (suc k) r i s e lt hi =
    let one_less : suc k - 1 ≡ k = omega arith in
    rw one_less (omega arith, omega arith, omega arith)

out_bounds :
    (i s : ℕ)
    → 0 < i
    → 0 < s
    → (0 < out_size i s) × ((out_size i s - 1) * s < i) × (i ≤ out_size i s * s)
out_bounds i s hi hs =
    quotient_bounds (out_size i s) ((i + s - 1) % s) i s (mod-add-div (i + s - 1) s)
      (mod-lt (i + s - 1) hs) hi

-- The quotient `a / s` between two multiples of `s`.
quotient_between : (a s k : ℕ) → 0 < s → k * s ≤ a → a < (k + 1) * s → a / s ≡ k
quotient_between a s k hs lo hi = div-eq_of_lt-le s lo hi

-- The bound from above, with the quotient as a variable.
padded_below :
    (i s f o : ℕ)
    → 0 < f
    → 0 < s
    → 0 < o
    → i ≤ o * s
    → i + ((o - 1) * s + f - i) - f < (o - 1 + 1) * s
padded_below i s f zero hf hs ho h = elim ho [ ]
padded_below i s f (suc k) hf hs ho h = let e : suc k - 1 ≡ k = omega arith in rw e (omega arith)

module _ (i s f : ℕ) (hi : 0 < i) (hs : 0 < s) (fits : i + s < 2 ^ 31)
    (span_fits : (out_size i s - 1) * s + f < 2 ^ 31) where
  out_size_fits : out_size i s < 2 ^ 31
  out_size_fits = omega (arith, div-le_self (i + s - 1) s)

  -- both sides of the test `tmp > in_size`
  branch_lem :
      (tmp : ℕ)
      → tmp < 2 ^ 31
      → pad_to (pos i) (pos tmp) ≡ ok (pos ((tmp - i) / 2), pos (tmp - i - (tmp - i) / 2))
  unfolding pad_to
  branch_lem tmp h =
      ground (arith, -ℤ_pos tmp i, divide_pos (tmp - i) 2, -ℤ_pos (tmp - i) ((tmp - i) / 2))

  same_padding_lem :
      calculate_explicit_padding (pos i) (pos s) (pos f) 1
      ≡ ok (pos (needed i s f / 2), pos (needed i s f - needed i s f / 2))
  unfolding calculate_explicit_padding same_padding
  same_padding_lem =
      rw
        (
          +ℤ_pos i s,
          int32_pos (i + s) (omega arith),
          -ℤ_pos (i + s) 1 (omega arith),
          int32_pos (i + s - 1) (omega arith),
          divide_pos (i + s - 1) s hs (omega arith),
          -ℤ_pos (out_size i s) 1 (out_bounds i s hi hs).0,
          int32_pos (out_size i s - 1) (omega (arith, out_size_fits)),
          *ℤ_pos (out_size i s - 1) s,
          int32_pos ((out_size i s - 1) * s) (omega arith),
          +ℤ_pos ((out_size i s - 1) * s) f,
          int32_pos ((out_size i s - 1) * s + f) (omega arith),
        )
        (branch_lem ((out_size i s - 1) * s + f) (omega arith))

  -- The padded input holds exactly as many steps as the output needs.
  padded_steps : 0 < f → (i + needed i s f - f) / s ≡ out_size i s - 1
  padded_steps hf =
      let bounds = out_bounds i s hi hs in
      quotient_between (i + needed i s f - f) s (out_size i s - 1) hs (omega arith)
        (padded_below i s f (out_size i s) hf hs bounds.0 bounds.2)

-- With SAME padding (padding_implicit == 1), a positive input size, stride and filter size, and
-- sums that fit an `int32_t`, the two paddings are defined and differ by at most one, the tail
-- being the larger; together they are what the windows need beyond the input (the comment in utils.h
-- takes away the output's size instead), so that over the padded input a window of the filter's size
-- that moves by the stride takes ceil(in_size / stride) places.
pub calculate_explicit_padding_same :
    (i s f : ℕ)
    → 0 < i
    → 0 < s
    → 0 < f
    → i + s < 2 ^ 31
    → (out_size i s - 1) * s + f < 2 ^ 31
    → (head : ℕ) × (tail : ℕ) × (calculate_explicit_padding (pos i) (pos s) (pos f) 1
        ≡ ok (pos head, pos tail))
      × (head ≤ tail)
      × (tail ≤ head + 1)
      × (head + tail ≡ (out_size i s - 1) * s + f - i)
      × ((i + head + tail - f) / s + 1 ≡ out_size i s)
calculate_explicit_padding_same i s f hi hs hf fits span = (
  needed i s f / 2,
  needed i s f - needed i s f / 2,
  same_padding_lem i s f hi hs fits span,
  omega arith,
  omega arith,
  omega arith,
  let total : i + needed i s f / 2 + (needed i s f - needed i s f / 2) ≡ i + needed i s f =
        omega arith in
      rw total (omega (arith, padded_steps i s f hi hs fits span hf, (out_bounds i s hi hs).0)),
)
