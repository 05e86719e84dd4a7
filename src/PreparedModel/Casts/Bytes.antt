-- ===== src/PreparedModel/Casts/Bytes.antt =====
-- BasePreparedModel.cpp: the casts of floats that are whole numbers.
use nn_hal.Prelude.{
  ℕ, zero, suc, ◌-◌, ◌<◌, Bool, true, false, ◌&&◌, List, [], ◌∷◌, ◌≡◌, refl, arith, Result, ok,
  fault, ◌==◌, All, map, leb, if◌then◌else◌, Bool-cases, inl, inr,
}
use nn_hal.Prelude.Int.{ℤ, pos, negsuc}
use nn_hal.Prelude.Floats.{binary32, float_of_int, int_of_float}
use nn_hal.PreparedModel.Casts.{float_to_uint8, float_to_int8, cast_value, cast_values}

-- The number below `n` pass the test.
abbrev all_below : (ℕ → Bool) → ℕ → Bool
all_below f zero = true
all_below f (suc n) = f n && all_below f n

and_cases : (a b : Bool) → (a && b) ≡ true → (a ≡ true) × (b ≡ true)
and_cases true b h = (refl, h)
and_cases false b h = absurd cc

all_below-at : (f : ℕ → Bool) (n : ℕ) → all_below f n ≡ true → (b : ℕ) → b < n → f b ≡ true
all_below-at f zero h b lt = absurd (omega arith)
all_below-at f (suc n) h b lt =
    let (one, more) = and_cases (f n) (all_below f n) h in
    elim (Bool-cases (b == n)) [
      | inl e ↦ (let same : b ≡ n = ground arith in rw same one)
      | inr e ↦ all_below-at f n more b (ground arith)
    ]

-- An int8_t as a number.
abbrev pub int8 : ℕ → ℤ
int8 b = if leb 128 b then negsuc (255 - b) else pos b

abbrev is_ok : Result ℕ → ℕ → Bool
is_ok (ok a) b = a == b
is_ok (fault e) b = false

is_ok-eq : (r : Result ℕ) (b : ℕ) → is_ok r b ≡ true → r ≡ ok b
is_ok-eq (ok a) b h = ground arith
is_ok-eq (fault e) b h = absurd cc

uint8_table :
    all_below (λ b. is_ok (cast_value float_to_uint8 (float_of_int binary32 (pos b))) b) 256 ≡ true
unfolding cast_value float_of_int int_of_float
uint8_table = refl

int8_table :
    all_below (λ b. is_ok (cast_value float_to_int8 (float_of_int binary32 (int8 b))) b) 256 ≡ true
unfolding cast_value float_of_int int_of_float
int8_table = refl

uint8_lem : (b : ℕ) → b < 256 → cast_value float_to_uint8 (float_of_int binary32 (pos b)) ≡ ok b
uint8_lem b h = is_ok-eq _ b (
    all_below-at (λ x. is_ok (cast_value float_to_uint8 (float_of_int binary32 (pos x))) x) 256
      uint8_table b h)

int8_lem : (b : ℕ) → b < 256 → cast_value float_to_int8 (float_of_int binary32 (int8 b)) ≡ ok b
int8_lem b h = is_ok-eq _ b (
    all_below-at (λ x. is_ok (cast_value float_to_int8 (float_of_int binary32 (int8 x))) x) 256
      int8_table b h)

-- Bytes that were converted to floats, as unsigned or as signed numbers, come back from floatToUint8
-- and floatToint8 unchanged: no cast of them is undefined.
pub cast_values-bytes :
    (bs : List ℕ)
    → All (λ b. b < 256) bs
    → (cast_values float_to_uint8 (map (λ b. float_of_int binary32 (pos b)) bs) ≡ ok bs)
      × (cast_values float_to_int8 (map (λ b. float_of_int binary32 (int8 b)) bs) ≡ ok bs)
unfolding cast_values
cast_values-bytes [] h = (refl, refl)
cast_values-bytes (b ∷ bs) (lt, more) =
    let (unsigned, signed) = cast_values-bytes bs more in
    (rw (uint8_lem b lt, unsigned) refl, rw (int8_lem b lt, signed) refl)
