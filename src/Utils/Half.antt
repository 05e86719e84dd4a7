-- ===== src/Utils/Half.antt =====
-- utils.cpp: the conversions between the bit patterns of half and single precision floats.
-- A mask and a shift are written as `/` and `%` by powers of two: `(f & 0x7f800000) >> 23` is
-- `f / 2 ^ 23 % 2 ^ 8`. Every NPY_HALF_* macro is undefined, so its `#if` takes the `#else` part.
pub mod RoundTrip
pub mod Magnitude
pub mod Order
pub mod Rounding
use nn_hal.Prelude.{ℕ, ◌+◌, ◌-◌, ◌*◌, ◌/◌, ◌%◌, ◌^◌, ltb, leb, ◌==◌, if◌then◌else◌, List, [], ◌∷◌}

-- f_exp = f & 0x7f800000u
pub f32_exp : ℕ → ℕ
f32_exp f = f / 2 ^ 23 % 2 ^ 8 * 2 ^ 23

-- f_sig = f & 0x007fffffu
pub f32_sig : ℕ → ℕ
f32_sig f = f % 2 ^ 23

-- h_sgn = (unsigned short)((f & 0x80000000u) >> 16)
pub half_sgn : ℕ → ℕ
half_sgn f = f / 2 ^ 31 % 2 * 2 ^ 15

-- The functions below take the locals h_sgn, f_exp and f_sig of float2half.

-- ret = 0x7c00 + (f_sig >> 13); if (ret == 0x7c00) ret++
half_nan : ℕ → ℕ
half_nan f_sig =
    let ret = (0x7c00 + f_sig / 2 ^ 13) % 2 ^ 16 in if ret == 0x7c00 then ret + 1 else ret

-- Exponent overflow, infinity and NaN.
pub half_overflow : ℕ → ℕ → ℕ → ℕ
unfolding half_nan
half_overflow h_sgn f_exp f_sig =
    if f_exp == 0x7f800000
    then (if f_sig == 0 then h_sgn + 0x7c00 else (h_sgn + half_nan f_sig) % 2 ^ 16)
    else h_sgn + 0x7c00

-- f_sig >>= (113 - (f_exp >> 23)); f_sig += 0x1000; h_sig = f_sig >> 13
subnormal_sig : ℕ → ℕ → ℕ
subnormal_sig e f_sig = ((2 ^ 23 + f_sig) / 2 ^ (113 - e) + 0x1000) / 2 ^ 13 % 2 ^ 16

-- Exponent underflow: a zero or a subnormal half.
pub half_underflow : ℕ → ℕ → ℕ → ℕ
unfolding subnormal_sig
half_underflow h_sgn f_exp f_sig =
    if ltb f_exp 0x33000000 then h_sgn else (h_sgn + subnormal_sig (f_exp / 2 ^ 23) f_sig) % 2 ^ 16

pub half_normal : ℕ → ℕ → ℕ → ℕ
half_normal h_sgn f_exp f_sig =
    (h_sgn + (f_exp - 0x38000000) / 2 ^ 13 + (f_sig + 0x1000) / 2 ^ 13) % 2 ^ 16

pub half_of_fields : ℕ → ℕ → ℕ → ℕ
unfolding half_overflow half_underflow half_normal
half_of_fields h_sgn f_exp f_sig =
    if leb 0x47800000 f_exp
    then half_overflow h_sgn f_exp f_sig
    else if leb f_exp 0x38000000
    then half_underflow h_sgn f_exp f_sig
    else half_normal h_sgn f_exp f_sig

pub float2half : ℕ → ℕ
unfolding half_of_fields f32_exp f32_sig half_sgn
float2half f = half_of_fields (half_sgn f) (f32_exp f) (f32_sig f)

-- floattofp16: the loop over the elements
floattofp16 : List ℕ → List ℕ
floattofp16 [] = []
floattofp16 (f ∷ fs) = float2half f ∷ floattofp16 fs

-- uint32_t u = x, where `x` is the pattern of a `short`
sign_extend : ℕ → ℕ
sign_extend x = if ltb x (2 ^ 15) then x else x + (2 ^ 32 - 2 ^ 16)

-- u |= 0x0200
abbrev pub set_quiet_bit : ℕ → ℕ
set_quiet_bit u = if u / 2 ^ 9 % 2 == 0 then u + 0x0200 else u

-- The result is the bit pattern of the float that the function returns. `|` of patterns with no
-- bit in common is their sum.
pub f16tof32 : ℕ → ℕ
unfolding sign_extend
f16tof32 x =
    let u = sign_extend x in
    let s = u / 2 ^ 15 % 2 * 2 ^ 31 in
    if u / 2 ^ 10 % 2 ^ 5 == 31
    then (let m = u % 2 ^ 10 in
        let q = if m == 0 then m else set_quiet_bit m in q * 2 ^ 13 + 0x7f800000 + s)
    else if x / 2 ^ 10 % 2 ^ 5 == 0
    then s
    else (u % 2 ^ 15 * 2 ^ 13 + (127 - 15) * 2 ^ 23) % 2 ^ 32 + s
