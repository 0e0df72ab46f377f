-- ===== src/Json/Convert.antt =====
-- The conversions of a `JsonValue`, and `valuetype_to_string`. A double is what `JsonValue` keeps of
-- it; what a cast makes of one is `cast`, and what it makes of an integer is `double_of`.
pub mod Exact
use rtc_client.Common.{
  ℕ, ◌+◌, ◌*◌, ◌^◌, ◌-◌, ◌%◌, ◌≡◌, Bool, true, false, not, if◌then◌else◌, ltb, ◌==◌,
}
use rtc_client.Common.Text.{Text, ascii}
use rtc_client.Utils.{ℤ, pos, negsuc, to_unsigned, common_to_string}
use rtc_client.Json.{
  JsonValue, t_undefined, t_null, t_bool, t_int8, t_int16, t_int32, t_int64, t_uint8, t_uint16,
  t_uint32, t_uint64, t_double, t_string, t_obj,
}

unfoldable pub valuetype_to_string : JsonValue → Text
valuetype_to_string t_null = ascii "null"
valuetype_to_string (t_bool b) = ascii "bool"
valuetype_to_string (t_int8 z) = ascii "int8"
valuetype_to_string (t_int16 z) = ascii "int16"
valuetype_to_string (t_int32 z) = ascii "int32"
valuetype_to_string (t_int64 z) = ascii "int64"
valuetype_to_string (t_uint8 n) = ascii "uint8"
valuetype_to_string (t_uint16 n) = ascii "uint16"
valuetype_to_string (t_uint32 n) = ascii "uint32"
valuetype_to_string (t_uint64 n) = ascii "uint64"
valuetype_to_string (t_double fixed streamed) = ascii "double"
valuetype_to_string (t_string s) = ascii "string"
valuetype_to_string (t_obj o) = ascii "object"
valuetype_to_string t_undefined = ascii "undefined"

abbrev pub is_zero : ℤ → Bool
is_zero (pos n) = n == 0
is_zero (negsuc n) = false

-- The cast to a signed type of `bits` bits.
unfoldable pub to_signed : ℕ → ℤ → ℤ
unfolding to_unsigned
to_signed bits z =
    let u = to_unsigned bits z in
    if ltb u (2 ^ (bits - 1)) then pos u else negsuc (2 ^ bits - 1 - u)

-- Whether a double is not within 1e-8 of zero is `away_from_zero`.
module _ (away_from_zero : Text → Text → Bool) where
  unfoldable pub as_bool : JsonValue → Bool
  as_bool (t_bool b) = b
  as_bool (t_int8 z) = not (is_zero z)
  as_bool (t_int16 z) = not (is_zero z)
  as_bool (t_int32 z) = not (is_zero z)
  as_bool (t_int64 z) = not (is_zero z)
  as_bool (t_uint8 n) = not (n == 0)
  as_bool (t_uint16 n) = not (n == 0)
  as_bool (t_uint32 n) = not (n == 0)
  as_bool (t_uint64 n) = not (n == 0)
  as_bool (t_double fixed streamed) = away_from_zero fixed streamed
  as_bool (t_obj o) = true
  as_bool (t_string s) = true
  as_bool t_null = false
  as_bool t_undefined = false

-- JSONVALUE_RETURN, for the type whose cast is `cast` on integers and `cast_double` on doubles.
module _ {ℓ} {A : Type ℓ} (cast : ℤ → A) (cast_double : Text → Text → A) where
  unfoldable pub jsonvalue_return : JsonValue → A
  jsonvalue_return (t_bool b) = cast (pos (if b then 1 else 0))
  jsonvalue_return (t_int8 z) = cast z
  jsonvalue_return (t_int16 z) = cast z
  jsonvalue_return (t_int32 z) = cast z
  jsonvalue_return (t_int64 z) = cast z
  jsonvalue_return (t_uint8 n) = cast (pos n)
  jsonvalue_return (t_uint16 n) = cast (pos n)
  jsonvalue_return (t_uint32 n) = cast (pos n)
  jsonvalue_return (t_uint64 n) = cast (pos n)
  jsonvalue_return (t_double fixed streamed) = cast_double fixed streamed
  jsonvalue_return (t_obj o) = cast (pos 1)
  jsonvalue_return (t_string s) = cast (pos 1)
  jsonvalue_return t_null = cast (pos 0)
  jsonvalue_return t_undefined = cast (pos 0)

module _ (cast_double : Text → Text → ℤ) where
  unfoldable pub as_int8 : JsonValue → ℤ
  unfolding jsonvalue_return to_signed
  as_int8 = jsonvalue_return (to_signed 8) cast_double

  unfoldable pub as_int16 : JsonValue → ℤ
  unfolding jsonvalue_return to_signed
  as_int16 = jsonvalue_return (to_signed 16) cast_double

  unfoldable pub as_int32 : JsonValue → ℤ
  unfolding jsonvalue_return to_signed
  as_int32 = jsonvalue_return (to_signed 32) cast_double

  unfoldable pub as_int64 : JsonValue → ℤ
  unfolding jsonvalue_return to_signed
  as_int64 = jsonvalue_return (to_signed 64) cast_double

module _ (cast_double : Text → Text → ℕ) where
  unfoldable pub as_uint8 : JsonValue → ℕ
  unfolding jsonvalue_return to_unsigned
  as_uint8 = jsonvalue_return (to_unsigned 8) cast_double

  unfoldable pub as_uint16 : JsonValue → ℕ
  unfolding jsonvalue_return to_unsigned
  as_uint16 = jsonvalue_return (to_unsigned 16) cast_double

  unfoldable pub as_uint32 : JsonValue → ℕ
  unfolding jsonvalue_return to_unsigned
  as_uint32 = jsonvalue_return (to_unsigned 32) cast_double

  unfoldable pub as_uint64 : JsonValue → ℕ
  unfolding jsonvalue_return to_unsigned
  as_uint64 = jsonvalue_return (to_unsigned 64) cast_double

-- The double of an integer is an argument, the one of a double is itself.
unfoldable pub as_double : (ℤ → Text × Text) → JsonValue → Text × Text
unfolding jsonvalue_return
as_double double_of = jsonvalue_return double_of (λ fixed streamed. (fixed, streamed))
