-- ===== src/PreparedModel/Casts.antt =====
-- BasePreparedModel.cpp: the casts of the outputs, on the bit patterns of the floats. A static_cast to
-- an integer type that cannot hold the truncated value is undefined.
pub mod Bytes
use nn_hal.Prelude.{
  ℕ, suc, ◌+◌, ◌-◌, ◌^◌, Bool, true, false, List, [], ◌∷◌, Option, none, some, ◌>>=◌, Result, ok,
  fault, undefined, ltb, leb, if◌then◌else◌,
}
use nn_hal.Prelude.Int.{ℤ, pos, negsuc}
use nn_hal.Prelude.Floats.{binary16, binary32, int_of_float, convert_float}

-- how an output is written: memcpy, or a cast of each float
pub data Conversion : Type 0 where
  memcpy float_to_uint8 float_to_int8 float_to_float16 float_to_int16 float_to_uint16 : Conversion

-- static_cast<uintN_t> of a truncated float, N being `bits`
unfoldable pub to_unsigned : ℕ → Option ℤ → Result ℕ
to_unsigned bits (some (pos n)) = if ltb n (2 ^ bits) then ok n else fault undefined
to_unsigned bits value = fault undefined

-- static_cast<intN_t>, as its bit pattern
unfoldable pub to_signed : ℕ → Option ℤ → Result ℕ
to_signed bits (some (pos n)) = if ltb n (2 ^ (bits - 1)) then ok n else fault undefined
to_signed bits (some (negsuc n)) =
    if ltb n (2 ^ (bits - 1)) then ok (2 ^ bits - suc n) else fault undefined
to_signed bits none = fault undefined

-- the assignment of one value, by the function that has the loop
unfoldable pub cast_value : Conversion → ℕ → Result ℕ
unfolding to_unsigned to_signed
cast_value memcpy x = ok x
cast_value float_to_uint8 x = to_unsigned 8 (int_of_float binary32 x)
cast_value float_to_int8 x = to_signed 8 (int_of_float binary32 x)
cast_value float_to_float16 x = ok (convert_float binary32 binary16 x)
cast_value float_to_int16 x = to_signed 16 (int_of_float binary32 x)
cast_value float_to_uint16 x = to_unsigned 16 (int_of_float binary32 x)

-- floatToUint8, floatToint8, floatToFloat16, floatToInt16 and floatToUInt16
unfoldable pub cast_values : Conversion → List ℕ → Result (List ℕ)
unfolding cast_value
cast_values c [] = ok []
cast_values c (x ∷ xs) = do y ← cast_value c x; ys ← cast_values c xs; ok (y ∷ ys)
