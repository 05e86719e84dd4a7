-- ===== src/Prelude/Floats.antt =====
-- The arithmetic of `float` and `double`, on their bit patterns: IEEE 754 binary32 and binary64,
-- rounded to nearest, ties to even. A NaN that an operation makes is the quiet one with a clear sign.
pub mod Rounds
use Prim.Native.Nat.{ℕ, zero, suc, ◌+◌, ◌-◌, ◌*◌, ◌/◌, ◌%◌, ◌^◌}
use mathlib.Core.Bool.{Bool, true, false, not, ◌&&◌, ◌||◌}
use mathlib.Core.Option.{Option, none, some}
use nn_hal.Prelude.Tests.{ltb, leb, ◌==◌, if◌then◌else◌}
use nn_hal.Prelude.Int.{ℤ, pos, negsuc}

-- The bits of the fraction; the least positive value is 2 ^ -`least`; the width in bits.
pub record Format : Type 0 where
  pub fraction : ℕ
  pub least : ℕ
  pub width : ℕ

abbrev pub binary32 : Format
binary32 = record { fraction = 23; least = 149; width = 32 }

abbrev pub binary64 : Format
binary64 = record { fraction = 52; least = 1074; width = 64 }

abbrev pub sign_bit : Format → ℕ
sign_bit f = 2 ^ (f.width - 1)

abbrev pub infinity : Format → ℕ
infinity f = 2 ^ (f.width - 1) - 2 ^ f.fraction

abbrev pub quiet_nan : Format → ℕ
quiet_nan f = infinity f + 2 ^ (f.fraction - 1)

-- A pattern without its sign, if it is finite: `m` and `k` of the value m * 2 ^ k * 2 ^ -`least`.
abbrev pub finite_parts : Format → ℕ → ℕ × ℕ
finite_parts f x =
    if ltb x (2 ^ f.fraction)
    then (x, 0)
    else (2 ^ f.fraction + x % 2 ^ f.fraction, x / 2 ^ f.fraction - 1)

-- The least `k` for which n / (d * 2 ^ k) is below 2 ^ (`fraction` + 1), counted on from `k`.
pub exponent_from : ℕ → Format → ℕ → ℕ → ℕ → ℕ
exponent_from zero f n d k = k
exponent_from (suc rounds) f n d k = elim (ltb (n / (d * 2 ^ k)) (2 ^ (f.fraction + 1))) [
  | true ↦ k
  | false ↦ exponent_from rounds f n d (k + 1)
]

-- n / d to the nearest integer, ties to even
abbrev pub nearest : ℕ → ℕ → ℕ
nearest n d =
    let q = n / d in
    if ltb (2 * (n % d)) d then q else if ltb d (2 * (n % d)) then q + 1 else q + q % 2

-- The pattern of (n / d) * 2 ^ -`least`, for d > 0: where rounding carries, it carries into the
-- exponent.
pub round_ratio : Format → ℕ → ℕ → ℕ
unfolding exponent_from
round_ratio f n d =
    let k = exponent_from (2 * f.least) f n d 0 in
    let x = k * 2 ^ f.fraction + nearest n (d * 2 ^ k) in
    if ltb x (infinity f) then x else infinity f

abbrev pub magnitude : Format → ℕ → ℕ
magnitude f x = x % sign_bit f

abbrev pub sign : Format → ℕ → ℕ
sign f x = x / sign_bit f

abbrev pub is_nan : Format → ℕ → Bool
is_nan f x = ltb (infinity f) (magnitude f x)

abbrev pub with_sign : Format → ℕ → ℕ → ℕ
with_sign f s x = s * sign_bit f + x

-- the unary minus
abbrev pub negate : Format → ℕ → ℕ
negate f x = with_sign f (1 - sign f x) (magnitude f x)

abbrev pub float_eq : Format → ℕ → ℕ → Bool
float_eq f x y =
    not (is_nan f x) && not (is_nan f y) && (x == y || magnitude f x == 0 && magnitude f y == 0)

-- the conversion of an integer
unfoldable pub float_of_int : Format → ℤ → ℕ
unfolding round_ratio
float_of_int f (pos n) = round_ratio f (n * 2 ^ f.least) 1
float_of_int f (negsuc n) = with_sign f 1 (round_ratio f (suc n * 2 ^ f.least) 1)

-- x * y, without the signs
pub multiply_magnitudes : Format → ℕ → ℕ → ℕ
unfolding round_ratio
multiply_magnitudes f x y =
    let (m, j) = finite_parts f x in
    let (n, k) = finite_parts f y in
    if ltb (infinity f) x || ltb (infinity f) y
    then quiet_nan f
    else if x == infinity f || y == infinity f
    then (if x == 0 || y == 0 then quiet_nan f else infinity f)
    else round_ratio f (m * n * 2 ^ (j + k)) (2 ^ f.least)

unfoldable pub float_mul : Format → ℕ → ℕ → ℕ
unfolding multiply_magnitudes
float_mul f x y =
    let r = multiply_magnitudes f (magnitude f x) (magnitude f y) in
    if is_nan f r then r else with_sign f ((sign f x + sign f y) % 2) r

-- x / y, without the signs
pub divide_magnitudes : Format → ℕ → ℕ → ℕ
unfolding round_ratio
divide_magnitudes f x y =
    let (m, j) = finite_parts f x in
    let (n, k) = finite_parts f y in
    if ltb (infinity f) x || ltb (infinity f) y
    then quiet_nan f
    else if x == infinity f
    then (if y == infinity f then quiet_nan f else infinity f)
    else if y == infinity f
    then 0
    else if y == 0
    then (if x == 0 then quiet_nan f else infinity f)
    else round_ratio f (m * 2 ^ j * 2 ^ f.least) (n * 2 ^ k)

unfoldable pub float_div : Format → ℕ → ℕ → ℕ
unfolding divide_magnitudes
float_div f x y =
    let r = divide_magnitudes f (magnitude f x) (magnitude f y) in
    if is_nan f r then r else with_sign f ((sign f x + sign f y) % 2) r

-- the conversion from one format to another, without the sign
pub convert_magnitude : Format → Format → ℕ → ℕ
unfolding round_ratio
convert_magnitude f g x =
    let (m, k) = finite_parts f x in
    if ltb (infinity f) x
    then quiet_nan g
    else if x == infinity f
    then infinity g
    else round_ratio g (m * 2 ^ k * 2 ^ g.least) (2 ^ f.least)

unfoldable pub convert_float : Format → Format → ℕ → ℕ
unfolding convert_magnitude
convert_float f g x = with_sign g (sign f x) (convert_magnitude f g (magnitude f x))

-- The conversion to an int32_t, towards zero; `none` where the value does not fit.
unfoldable pub int_of_float : Format → ℕ → Option ℤ
int_of_float f x =
    let (m, k) = finite_parts f (magnitude f x) in
    let n = m * 2 ^ k / 2 ^ f.least in
    if leb (infinity f) (magnitude f x)
    then none
    else if sign f x == 0 || n == 0
    then (if ltb n (2 ^ 31) then some (pos n) else none)
    else if leb n (2 ^ 31)
    then some (negsuc (n - 1))
    else none

abbrev pub binary16 : Format
binary16 = record { fraction = 10; least = 24; width = 16 }

-- a `_Float16` as a `float`
unfoldable pub float_of_half : ℕ → ℕ
unfolding convert_float
float_of_half = convert_float binary16 binary32
