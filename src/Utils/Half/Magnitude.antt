-- ===== src/Utils/Half/Magnitude.antt =====
-- float2half on the three fields of a pattern, range by range.
use nn_hal.Prelude.{ℕ, ◌+◌, ◌-◌, ◌*◌, ◌/◌, ◌^◌, ◌≤◌, ◌<◌, ◌≡◌, ◌↔◌, arith, ◌⊎◌, inl, inr, suc, ◌≢◌}
use native.Mathlib.Nat.{
  le_trans, le-div_iff_mul-le, div-mul-le_self, pow-le-pow_right, one-le-pow, pow-suc, le_of_eq,
  mul-div-mul_left, mul-le-mul_left,
}
use nn_hal.Utils.Half.{half_of_fields}

-- float2half with a clear sign bit, by the exponent and significand fields
abbrev pub magnitude : ℕ → ℕ → ℕ
magnitude e m = half_of_fields 0 (e * 2 ^ 23) m

pub magnitude_normal :
    (e m : ℕ)
    → 113 ≤ e
    → e ≤ 142
    → m < 2 ^ 23
    → magnitude e m ≡ ((e - 112) * 2 ^ 23 + m + 2 ^ 12) / 2 ^ 13
unfolding half_of_fields
magnitude_normal e m h k hm = ground arith

magnitude_small : (e m : ℕ) → e < 102 → magnitude e m ≡ 0
unfolding half_of_fields
magnitude_small e m h = ground arith

magnitude_large : (e m : ℕ) → 143 ≤ e → (e < 255) ⊎ ((e ≡ 255) × (m ≡ 0)) → magnitude e m ≡ 0x7c00
unfolding half_of_fields
magnitude_large e m h k = ground arith

magnitude_subnormal :
    (e m : ℕ)
    → 102 ≤ e
    → e ≤ 112
    → m < 2 ^ 23
    → magnitude e m ≡ ((2 ^ 23 + m) / 2 ^ (113 - e) + 0x1000) / 2 ^ 13
unfolding half_of_fields
magnitude_subnormal e m h k hm = ground arith

div_mono : (v w c d : ℕ) → v ≤ w → 0 < c → c ≤ d → v / d ≤ w / c
div_mono v w c d h p k =
    (le-div_iff_mul-le p).1
      (le_trans (mul-le-mul_left (v / d) k) (le_trans (div-mul-le_self v d) h))

doubled : (e d : ℕ) → e ≤ 112 → d < e → 2 * 2 ^ (113 - e) ≤ 2 ^ (113 - d)
doubled e d h lt = omega (
  arith,
  pow-suc 2 (113 - e),
  pow-le-pow_right {n = 2} (omega arith) {i = suc (113 - e)} {j = 113 - d} (omega arith),
)

-- The first shift of a subnormal significand: a larger exponent shifts by fewer places.
shifted_mono :
    (e m d n : ℕ)
    → e ≤ 112
    → d ≤ e
    → m < 2 ^ 23
    → n < 2 ^ 23
    → (d < e) ⊎ ((d ≡ e) × (n ≤ m))
    → (2 ^ 23 + n) / 2 ^ (113 - d) ≤ (2 ^ 23 + m) / 2 ^ (113 - e)
shifted_mono e m d n h k hm hn (inl lt) =
    le_trans
      (div_mono (2 ^ 23 + n) (2 * (2 ^ 23 + m)) (2 * 2 ^ (113 - e)) (2 ^ (113 - d)) (omega arith)
        (omega (arith, one-le-pow (113 - e) 2 (omega arith))) (doubled e d h lt))
      (le_of_eq (mul-div-mul_left (2 ^ 23 + m) (2 ^ (113 - e)) (omega arith)))
shifted_mono e m d n h k hm hn (inr eq) =
    div_mono _ _ _ _ (omega arith) (one-le-pow (113 - e) 2 (omega arith)) (le_of_eq (rw eq.0))

pub shifted_lt : (e m : ℕ) → e ≤ 112 → m < 2 ^ 23 → (2 ^ 23 + m) / 2 ^ (113 - e) < 2 ^ 23
shifted_lt e m h hm = omega (
  arith,
  div_mono (2 ^ 23 + m) (2 ^ 23 + m) 2 (2 ^ (113 - e)) (omega arith) (omega arith)
      (pow-le-pow_right {n = 2} (omega arith) {i = 1} {j = 113 - e} (omega arith)),
)

-- `(d, n)` is no larger than `(e, m)`, and neither is a NaN.
abbrev pub Below : ℕ → ℕ → ℕ → ℕ → Type 0
Below d n e m = ((d < e) ⊎ ((d ≡ e) × (n ≤ m))) × ((e < 255) ⊎ ((e ≡ 255) × (m ≡ 0)))

pub magnitude_mono :
    (d n e m : ℕ) → n < 2 ^ 23 → m < 2 ^ 23 → Below d n e m → magnitude d n ≤ magnitude e m
magnitude_mono d n e m hn hm b = ground (
  arith,
  magnitude_small d n,
  magnitude_subnormal d n,
  magnitude_normal d n,
  magnitude_large d n,
  magnitude_small e m,
  magnitude_subnormal e m,
  magnitude_normal e m,
  magnitude_large e m,
  shifted_mono e m d n,
  shifted_lt d n,
  shifted_lt e m,
)

pub magnitude-le :
    (e m : ℕ) → m < 2 ^ 23 → (e < 255) ⊎ ((e ≡ 255) × (m ≡ 0)) → magnitude e m ≤ 0x7c00
magnitude-le e m hm b = ground (
  arith,
  magnitude_small e m,
  magnitude_subnormal e m,
  magnitude_normal e m,
  magnitude_large e m,
  shifted_lt e m,
)

pub magnitude_nan :
    (m : ℕ) → m < 2 ^ 23 → m ≢ 0 → (0x7c00 < magnitude 255 m) × (magnitude 255 m < 2 ^ 15)
unfolding half_of_fields
magnitude_nan m hm h = ground arith

-- Rounding reaches infinity from 65520 = 0x477ff000 on.
pub magnitude_infinite :
    (e m : ℕ)
    → e < 256
    → m < 2 ^ 23
    → (magnitude e m ≡ 0x7c00) ↔ ((0x477ff000 ≤ e * 2 ^ 23 + m) × (e * 2 ^ 23 + m ≤ 0x7f800000))
magnitude_infinite e m he hm = ground (
  arith,
  magnitude_small e m,
  magnitude_subnormal e m,
  magnitude_normal e m,
  magnitude_large e m,
  shifted_lt e m,
  magnitude_nan m,
)

pub half_of_fields_sign :
    (s e m : ℕ)
    → s < 2
    → e < 256
    → m < 2 ^ 23
    → half_of_fields (s * 2 ^ 15) (e * 2 ^ 23) m ≡ s * 2 ^ 15 + magnitude e m
unfolding half_of_fields
half_of_fields_sign s e m hs he hm = ground (arith, shifted_lt e m)
