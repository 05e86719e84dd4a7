-- ===== src/Utils/Half/Rounding.antt =====
-- How far float2half moves a value, measured through f16tof32.
use nn_hal.Prelude.{ℕ, ◌+◌, ◌-◌, ◌*◌, ◌/◌, ◌%◌, ◌^◌, ◌≤◌, ◌<◌, ◌≡◌, arith}
use nn_hal.Utils.Half.{float2half, f16tof32}
use nn_hal.Utils.Half.Magnitude.{magnitude_normal}
use nn_hal.Utils.Half.Order.{float2half_unsigned}

float2half_normal :
    (f : ℕ) → 0x38800000 ≤ f → f < 0x477ff000 → float2half f ≡ (f - 112 * 2 ^ 23 + 2 ^ 12) / 2 ^ 13
float2half_normal f lo hi =
    rw
      (
        float2half_unsigned f (omega arith),
        magnitude_normal (f / 2 ^ 23 % 2 ^ 8) (f % 2 ^ 23) (omega arith) (omega arith)
            (omega arith),
      )
      (omega arith)

f16tof32_normal : (x : ℕ) → 2 ^ 10 ≤ x → x < 31 * 2 ^ 10 → f16tof32 x ≡ x * 2 ^ 13 + 112 * 2 ^ 23
unfolding f16tof32
f16tof32_normal x lo hi = ground arith

-- For a float in the range of the normal halves, from 2 ^ -14 up to below 65520, the half that
-- float2half gives is within half a unit in its last place: converted back it lies at most 2 ^ 12
-- bit patterns away from the float.
pub f16tof32-float2half :
    (f : ℕ)
    → 0x38800000 ≤ f
    → f < 0x477ff000
    → (f16tof32 (float2half f) ≤ f + 2 ^ 12) × (f ≤ f16tof32 (float2half f) + 2 ^ 12)
f16tof32-float2half f lo hi =
    rw
      (
        float2half_normal f lo hi,
        f16tof32_normal ((f - 112 * 2 ^ 23 + 2 ^ 12) / 2 ^ 13) (omega arith) (omega arith),
      )
      (omega arith)
