-- ===== src/Utils/Half/RoundTrip.antt =====
-- float2half after f16tof32, over all half patterns.
use nn_hal.Prelude.{
  ℕ, ◌+◌, ◌*◌, ◌/◌, ◌%◌, ◌^◌, ◌≤◌, ◌<◌, ◌≡◌, ◌≢◌, refl, arith, ℕ_discrete, ◌==◌, if◌then◌else◌,
}
use nn_hal.Utils.Half.{
  float2half, f16tof32, half_of_fields, set_quiet_bit, f32_exp, f32_sig, half_sgn,
}

-- The single precision pattern with the given fields.
abbrev f32 : ℕ → ℕ → ℕ → ℕ
f32 s e m = s * 2 ^ 31 + e * 2 ^ 23 + m

module _ (s e m : ℕ) (hs : s < 2) (he : e < 256) (hm : m < 2 ^ 23) where
  half_sgn-f32 : half_sgn (f32 s e m) ≡ s * 2 ^ 15
  unfolding half_sgn
  half_sgn-f32 = omega arith

  f32_exp-f32 : f32_exp (f32 s e m) ≡ e * 2 ^ 23
  unfolding f32_exp
  f32_exp-f32 = omega arith

  f32_sig-f32 : f32_sig (f32 s e m) ≡ m
  unfolding f32_sig
  f32_sig-f32 = omega arith

  float2half-f32 : float2half (f32 s e m) ≡ half_of_fields (s * 2 ^ 15) (e * 2 ^ 23) m
  unfolding float2half
  float2half-f32 = rw (half_sgn-f32, f32_exp-f32, f32_sig-f32) refl

normal_fields :
    (s e m : ℕ)
    → s < 2
    → 1 ≤ e
    → e ≤ 30
    → m < 2 ^ 10
    → half_of_fields (s * 2 ^ 15) ((e + 112) * 2 ^ 23) (m * 2 ^ 13) ≡ s * 2 ^ 15 + e * 2 ^ 10 + m
unfolding half_of_fields
normal_fields s e m hs h1 h30 hm = ground arith

special_fields :
    (s m : ℕ)
    → s < 2
    → m < 2 ^ 10
    → half_of_fields (s * 2 ^ 15) (255 * 2 ^ 23) (m * 2 ^ 13) ≡ s * 2 ^ 15 + 31 * 2 ^ 10 + m
unfolding half_of_fields
special_fields s m hs hm = ground arith

zero_fields : (s : ℕ) → s < 2 → half_of_fields (s * 2 ^ 15) (0 * 2 ^ 23) 0 ≡ s * 2 ^ 15
unfolding half_of_fields
zero_fields s hs = ground arith

-- A zero or subnormal pattern keeps its sign alone, a NaN becomes quiet, all else stays.
abbrev pub flushed : ℕ → ℕ
flushed x =
    if x / 2 ^ 10 % 2 ^ 5 == 0
    then x / 2 ^ 15 * 2 ^ 15
    else if x / 2 ^ 10 % 2 ^ 5 == 31
    then (if x % 2 ^ 10 == 0 then x else set_quiet_bit x)
    else x

module _ (x : ℕ) (hx : x < 2 ^ 16) where
  abbrev quieted : ℕ
  quieted = if x % 2 ^ 10 == 0 then 0 else set_quiet_bit (x % 2 ^ 10)

  f16tof32_flush : x / 2 ^ 10 % 2 ^ 5 ≡ 0 → f16tof32 x ≡ f32 (x / 2 ^ 15) 0 0
  unfolding f16tof32
  f16tof32_flush h = ground arith

  f16tof32_normal :
      x / 2 ^ 10 % 2 ^ 5 ≢ 0
      → x / 2 ^ 10 % 2 ^ 5 ≢ 31
      → f16tof32 x ≡ f32 (x / 2 ^ 15) (x / 2 ^ 10 % 2 ^ 5 + 112) (x % 2 ^ 10 * 2 ^ 13)
  unfolding f16tof32
  f16tof32_normal h0 h31 = ground arith

  f16tof32_special : x / 2 ^ 10 % 2 ^ 5 ≡ 31 → f16tof32 x ≡ f32 (x / 2 ^ 15) 255 (quieted * 2 ^ 13)
  unfolding f16tof32
  f16tof32_special h = ground arith

  -- Whatever the half, converting it to single precision and back gives the half again, except
  -- that zeros and subnormals come back as the zero of their sign and a NaN comes back quiet.
  pub float2half-f16tof32 : float2half (f16tof32 x) ≡ flushed x
  float2half-f16tof32 = elim (ℕ_discrete (x / 2 ^ 10 % 2 ^ 5) 0) [
    | yes zero_exp ↦
        rw
          (
            f16tof32_flush zero_exp,
            float2half-f32 (x / 2 ^ 15) 0 0 (omega arith) (omega arith) (omega arith),
            zero_fields (x / 2 ^ 15) (omega arith),
          )
          (ground arith)
    | no h0 ↦ elim (ℕ_discrete (x / 2 ^ 10 % 2 ^ 5) 31) [
      | yes h31 ↦
          rw
            (
              f16tof32_special h31,
              float2half-f32 (x / 2 ^ 15) 255 (quieted * 2 ^ 13) (omega arith) (omega arith)
                  (ground arith),
              special_fields (x / 2 ^ 15) quieted (omega arith) (ground arith),
            )
            (ground arith)
      | no h31 ↦
          rw
            (
              f16tof32_normal h0 h31,
              float2half-f32 (x / 2 ^ 15) (x / 2 ^ 10 % 2 ^ 5 + 112) (x % 2 ^ 10 * 2 ^ 13)
                  (omega arith) (omega arith) (omega arith),
              normal_fields (x / 2 ^ 15) (x / 2 ^ 10 % 2 ^ 5) (x % 2 ^ 10) (omega arith)
                  (omega arith) (omega arith) (omega arith),
            )
            (ground arith)
    ]
  ]
