-- ===== src/Json/Convert/Exact.antt =====
-- Integer values that fit an `int` are kept by the conversions.
use rtc_client.Common.{Bool, ◌≡◌, refl, ap, sym, ◌∙◌, not, arith, [], append-nil}
use rtc_client.Common.Text.{Text}
use rtc_client.Utils.{ℤ, pos, negsuc, to_unsigned, common_to_string, string_to_int}
use rtc_client.Utils.Decimal.{IsInt, string_to_int-common_to_string}
use rtc_client.Json.{
  JsonValue, t_undefined, t_null, t_bool, t_int8, t_int16, t_int32, t_int64, t_uint8, t_uint16,
  t_uint32, t_uint64, t_double, t_string, t_obj, as_string,
}
use rtc_client.Json.Convert.{is_zero, to_signed, as_bool, as_int32, as_int64, jsonvalue_return}

to_signed-32 : (z : ℤ) → IsInt z → to_signed 32 z ≡ z
unfolding to_signed to_unsigned
to_signed-32 (pos n) h = ground (arith, h)
to_signed-32 (negsuc n) h = ground (arith, h)

to_signed-64 : (z : ℤ) → IsInt z → to_signed 64 z ≡ z
unfolding to_signed to_unsigned
to_signed-64 (pos n) h = ground (arith, h)
to_signed-64 (negsuc n) h = ground (arith, h)

-- A value of one of the integer types, and its integer.
abbrev pub Holds : JsonValue → ℤ → Type 0
Holds (t_int8 y) z = y ≡ z
Holds (t_int16 y) z = y ≡ z
Holds (t_int32 y) z = y ≡ z
Holds (t_int64 y) z = y ≡ z
Holds (t_uint8 n) z = pos n ≡ z
Holds (t_uint16 n) z = pos n ≡ z
Holds (t_uint32 n) z = pos n ≡ z
Holds (t_uint64 n) z = pos n ≡ z
Holds v z = ⊥

module _ (away_from_zero : Text → Text → Bool) (cast : Text → Text → ℤ) where
  abbrev pub IsKept : JsonValue → ℤ → Type 0
  IsKept v z =
      (as_int32 cast v ≡ z)
      × (as_int64 cast v ≡ z)
      × (as_bool away_from_zero v ≡ not (is_zero z))
      × (string_to_int (as_string v) ≡ z)

  string-kept : (z : ℤ) → IsInt z → string_to_int (common_to_string z) ≡ z
  string-kept z fits =
      ap string_to_int (sym (append-nil (common_to_string z)))
      ∙ string_to_int-common_to_string z [] fits tt

  casts-IsKept :
      (v : JsonValue) (y z : ℤ)
      → y ≡ z
      → IsInt z
      → as_int32 cast v ≡ to_signed 32 y
      → as_int64 cast v ≡ to_signed 64 y
      → as_bool away_from_zero v ≡ not (is_zero y)
      → as_string v ≡ common_to_string y
      → IsKept v z
  casts-IsKept v y z same fits i32 i64 truth text = (
    i32 ∙ ap (to_signed 32) same ∙ to_signed-32 z fits,
    i64 ∙ ap (to_signed 64) same ∙ to_signed-64 z fits,
    truth ∙ ap (λ x. not (is_zero x)) same,
    ap string_to_int (text ∙ ap common_to_string same) ∙ string-kept z fits,
  )

-- An integer value of any type that fits an `int` is what `as_int32` and `as_int64` return, `as_bool`
-- returns whether it is not zero, and `string_to_int` reads it back from what `as_string` returns.
pub as_int32-as_string :
    (away_from_zero : Text → Text → Bool) (cast : Text → Text → ℤ) (v : JsonValue) (z : ℤ)
    → Holds v z
    → IsInt z
    → IsKept away_from_zero cast v z
unfolding as_int32 as_int64 as_bool as_string jsonvalue_return
as_int32-as_string a c (t_int8 y) z h fits =
    casts-IsKept a c (t_int8 y) y z h fits refl refl refl refl
as_int32-as_string a c (t_int16 y) z h fits =
    casts-IsKept a c (t_int16 y) y z h fits refl refl refl refl
as_int32-as_string a c (t_int32 y) z h fits =
    casts-IsKept a c (t_int32 y) y z h fits refl refl refl refl
as_int32-as_string a c (t_int64 y) z h fits =
    casts-IsKept a c (t_int64 y) y z h fits refl refl refl refl
as_int32-as_string a c (t_uint8 n) z h fits =
    casts-IsKept a c (t_uint8 n) (pos n) z h fits refl refl refl refl
as_int32-as_string a c (t_uint16 n) z h fits =
    casts-IsKept a c (t_uint16 n) (pos n) z h fits refl refl refl refl
as_int32-as_string a c (t_uint32 n) z h fits =
    casts-IsKept a c (t_uint32 n) (pos n) z h fits refl refl refl refl
as_int32-as_string a c (t_uint64 n) z h fits =
    casts-IsKept a c (t_uint64 n) (pos n) z h fits refl refl refl refl
as_int32-as_string a c t_undefined z h fits = absurd h
as_int32-as_string a c t_null z h fits = absurd h
as_int32-as_string a c (t_bool b) z h fits = absurd h
as_int32-as_string a c (t_double fixed streamed) z h fits = absurd h
as_int32-as_string a c (t_string s) z h fits = absurd h
as_int32-as_string a c (t_obj o) z h fits = absurd h
