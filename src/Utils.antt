-- ===== src/Utils.antt =====
-- The string functions of src/common/common_utils.cpp, in the C locale. A text is the list of its
-- bytes. `char` is taken as unsigned where two are compared, which `std::string` does too.
pub mod Suffix
pub mod Directory
pub mod Replace
pub mod Decimal
pub mod Split
use rtc_client.Common.{
  ℕ, zero, suc, ◌+◌, ◌-◌, ◌*◌, ◌/◌, ◌%◌, ◌^◌, Bool, true, false, not, ◌&&◌, ◌||◌, List, [], ◌∷◌,
  ◌++◌, ltb, leb, ◌==◌, length, if◌then◌else◌,
}
use rtc_client.Common.Text.{Text, is_empty, same_text}

-- An integer of the source's signed types; `negsuc n` is -(n + 1).
pub data ℤ : Type 0 where
  pos : ℕ → ℤ
  negsuc : ℕ → ℤ

-- The conversions to `uint32_t`, `uint16_t` and `int`.
unfoldable pub to_unsigned : ℕ → ℤ → ℕ
to_unsigned bits (pos n) = n % 2 ^ bits
to_unsigned bits (negsuc n) = 2 ^ bits - 1 - n % 2 ^ bits

unfoldable pub to_int : ℤ → ℤ
unfolding to_unsigned
to_int z = let u = to_unsigned 32 z in if ltb u (2 ^ 31) then pos u else negsuc (2 ^ 32 - 1 - u)

abbrev pub is_prefix : Text → Text → Bool
is_prefix [] s = true
is_prefix (a ∷ xs) [] = false
is_prefix (a ∷ xs) (c ∷ s) = a == c && is_prefix xs s

unfoldable pub string_starts_with : Text → Text → Bool
string_starts_with str substr = is_prefix substr str

-- The loop of `string_replace` from a position on; `skip` bytes belong to the match before.
unfoldable pub replace_from : Text → Text → ℕ → Text → Text
replace_from search replacement skip [] = []
replace_from search replacement (suc skip) (c ∷ s) = replace_from search replacement skip s
replace_from search replacement zero (c ∷ s) =
    let hit = is_prefix search (c ∷ s) in
    let rest = replace_from search replacement (if hit then length search - 1 else 0) s in
    if hit then replacement ++ rest else c ∷ rest

unfoldable pub string_replace : Text → Text → Text → Text
unfolding replace_from
string_replace search replacement str =
    if same_text search replacement
    then str
    else if is_empty search
    then str
    else replace_from search replacement 0 str

-- The loop of `string_split`: `piece` is what stands behind the last separator.
unfoldable pub split_from : Text → ℕ → Text → Text → List Text
split_from seperator skip piece [] = piece ∷ []
split_from seperator (suc skip) piece (c ∷ s) = split_from seperator skip piece s
split_from seperator zero piece (c ∷ s) =
    let hit = is_prefix seperator (c ∷ s) in
    let rest =
      split_from seperator (if hit then length seperator - 1 else 0)
        (if hit then [] else piece ++ (c ∷ [])) s in
    if hit then piece ∷ rest else rest

unfoldable pub string_split : Text → Text → List Text
unfolding split_from
string_split str seperator = if is_empty seperator then str ∷ [] else split_from seperator 0 [] str

-- `isspace`
abbrev pub is_space : ℕ → Bool
is_space c = c == 32 || (leb 9 c && leb c 13)

unfoldable pub string_trim_start : Text → Text
string_trim_start [] = []
string_trim_start (c ∷ s) = let rest = string_trim_start s in if is_space c then rest else c ∷ s

-- What stands up to the last byte that is no space.
unfoldable pub string_trim_end : Text → Text
string_trim_end [] = []
string_trim_end (c ∷ s) =
    let rest = string_trim_end s in if is_empty rest && is_space c then [] else c ∷ rest

unfoldable pub string_trim : Text → Text
unfolding string_trim_start string_trim_end
string_trim str = string_trim_start (string_trim_end str)

unfoldable pub string_to_lower : Text → Text
string_to_lower [] = []
string_to_lower (c ∷ s) = (if leb 65 c && leb c 90 then c + 32 else c) ∷ string_to_lower s

unfoldable pub string_to_upper : Text → Text
string_to_upper [] = []
string_to_upper (c ∷ s) = (if leb 97 c && leb c 122 then c - 32 else c) ∷ string_to_upper s

-- The decimal digits of a number; a number has fewer digits than it counts.
unfoldable pub digits : ℕ → ℕ → Text
digits zero n = []
digits (suc fuel) n = elim (ltb n 10) [
  | true ↦ (48 + n) ∷ []
  | false ↦ digits fuel (n / 10) ++ ((48 + n % 10) ∷ [])
]

-- `common_to_string` at the integer types.
unfoldable pub common_to_string : ℤ → Text
unfolding digits
common_to_string (pos n) = digits (suc n) n
common_to_string (negsuc n) = 45 ∷ digits (suc (n + 1)) (n + 1)

abbrev pub is_digit : ℕ → Bool
is_digit c = leb 48 c && leb c 57

-- The digits that `strtol` reads, as a number that has no bound yet.
unfoldable pub read_digits : ℕ → Text → ℕ
read_digits n [] = n
read_digits n (c ∷ s) =
    let rest = read_digits (n * 10 + (c - 48)) s in if is_digit c then rest else n

-- A `long` has 64 bits; `strtol` stops at its ends.
unfoldable pub signed_long : Bool → ℕ → ℤ
signed_long false n = if ltb n (2 ^ 63) then pos n else pos (2 ^ 63 - 1)
signed_long true zero = pos 0
signed_long true (suc n) = if ltb n (2 ^ 63) then negsuc n else negsuc (2 ^ 63 - 1)

unfoldable pub read_long : Text → ℤ
unfolding read_digits signed_long
read_long [] = pos 0
read_long (c ∷ s) =
    if c == 45
    then signed_long true (read_digits 0 s)
    else if c == 43
    then signed_long false (read_digits 0 s)
    else signed_long false (read_digits 0 (c ∷ s))

-- `atol`
unfoldable pub string_to_long : Text → ℤ
unfolding string_trim_start read_long
string_to_long str = read_long (string_trim_start str)

-- `atoi`, which converts what `strtol` returns.
unfoldable pub string_to_int : Text → ℤ
unfolding to_int string_to_long
string_to_int str = to_int (string_to_long str)
