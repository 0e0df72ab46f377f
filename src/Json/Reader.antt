-- ===== src/Json/Reader.antt =====
-- `read_from_string`. A position is the text that stands behind it. `double_texts` is how a double
-- that `string_to_double` makes of a text is printed.
pub mod Ends
pub mod Termination
pub mod Strings
use rtc_client.Common.{
  ◌^◌, ℕ, zero, suc, ◌+◌, ◌*◌, Bool, true, false, not, ◌&&◌, ◌||◌, Option, none, some, List, [],
  ◌∷◌, ◌++◌, ltb, leb, ◌==◌, length, take, drop, if◌then◌else◌,
}
use rtc_client.Common.Text.{Text, ascii, is_empty, same_text}
use rtc_client.Utils.{string_to_lower, string_to_long, is_digit}
use rtc_client.Json.{
  JsonValue, t_undefined, t_bool, t_int64, t_double, t_string, t_obj, JsonObject, object, set_key,
  push, empty_object, members, no_members,
}
use rtc_client.Json.Writer.{unescape_string}

-- What a reader returns: a value with what is left of the text, false, or no result within the
-- fuel.
pub data Read {ℓ} (A : Type ℓ) : Type ℓ where
  done : A → Text → Read A
  refused : Read A
  stuck : Read A

infixl 20 ◌>>=◌
unfoldable pub ◌>>=◌ {ℓ ℓ'} : {A : Type ℓ} {B : Type ℓ'} → Read A → (A → Text → Read B) → Read B
done a s >>= f = f a s
refused >>= f = refused
stuck >>= f = stuck

abbrev pub is_whitespace : ℕ → Bool
is_whitespace c = c == b' ' || (c == 9 || (c == 13 || c == 10))

unfoldable pub read_whitespace : Text → Text
read_whitespace [] = []
read_whitespace (c ∷ s) = let rest = read_whitespace s in if is_whitespace c then rest else c ∷ s

unfoldable pub first_of : Text → Read ℕ
unfolding read_whitespace
first_of [] = refused
first_of (c ∷ s) = done c (read_whitespace s)

unfoldable pub read_delimiter : Text → Read ℕ
unfolding read_whitespace first_of
read_delimiter s = first_of (read_whitespace s)

-- What stands up to the first quote that is not behind a backslash; `prev` stands in front.
unfoldable pub find_quote : ℕ → Text → Read Text
unfolding ◌>>=◌
find_quote prev [] = refused
find_quote prev (c ∷ s) =
    let rest = find_quote c s >>= λ text left. done (c ∷ text) left in
    if c == 34 && not (prev == b'\\') then done [] s else rest

unfoldable pub read_string : Text → Read JsonValue
unfolding ◌>>=◌ find_quote unescape_string
read_string [] = refused
read_string (c ∷ s) =
    if is_empty s
    then refused
    else if not (c == 34)
    then refused
    else find_quote c s >>= λ text left. done (t_string (unescape_string text)) left

-- The digits and points in front of a text.
unfoldable pub number_text : Text → Text
number_text [] = []
number_text (c ∷ s) = let rest = number_text s in if is_digit c || c == b'.' then c ∷ rest else []

abbrev pub has_point : Text → Bool
has_point [] = false
has_point (c ∷ s) = c == b'.' || has_point s

unfoldable pub read_number : (Text → Text × Text) → Text → Read JsonValue
unfolding number_text string_to_long
read_number double_texts s =
    let text = number_text s in
    let left = drop (length text) s in
    let (fixed, streamed) = double_texts text in
    if is_empty text
    then refused
    else if has_point text
    then done (t_double fixed streamed) left
    else done (t_int64 (string_to_long text)) left

unfoldable pub read_bool : Text → Bool → Text → Read JsonValue
unfolding string_to_lower
read_bool wanted b s =
    if ltb (length s) (length wanted)
    then refused
    else if not (same_text (string_to_lower (take (length wanted) s)) wanted)
    then refused
    else done (t_bool b) (drop (length wanted) s)

-- The value is left undefined.
unfoldable pub read_null : Text → Read JsonValue
unfolding string_to_lower
read_null s =
    if ltb (length s) 4
    then refused
    else if not (same_text (string_to_lower (take 4 s)) (ascii "null"))
    then refused
    else done t_undefined (drop 4 s)

-- The readers of objects and arrays behind their bracket: they fill an object.
abbrev pub Filler : Type 0
Filler = JsonObject → Text → Read JsonObject

-- What is in front of the loops of `read_object` and `read_array`: `bracket` is read.
unfoldable pub behind_bracket : ℕ → Filler → Filler
behind_bracket bracket fill o s =
    if ltb (length s) 2
    then refused
    else elim s [ [] ↦ refused | c ∷ rest ↦ if c == bracket then fill o rest else refused ]

-- What follows a member: the end of the object or array, or more of it.
unfoldable pub next_member : ℕ → Filler → Filler
unfolding ◌>>=◌ read_delimiter
next_member end more o s = read_delimiter s >>= λ c left. elim (c == end) [
  | true ↦ done o left
  | false ↦ elim (c == b',') [ true ↦ more o left | false ↦ refused ]
]

-- One round of the loop of `read_array`.
unfoldable pub items_round : (Text → Read JsonValue) → Filler → Filler
unfolding ◌>>=◌ push next_member
items_round value more o [] = refused
items_round value more o (c ∷ s) = elim (c == b']') [
  | true ↦ done o s
  | false ↦ value (c ∷ s) >>= λ v left. next_member b']' more (push v o) left
]

abbrev pub key_of : JsonValue → Option Text
key_of (t_string k) = some k
key_of v = none

-- The value of a member whose key has been read, and what follows it.
unfoldable pub member_value : (Text → Read JsonValue) → Filler → Text → Filler
unfolding ◌>>=◌ read_delimiter set_key next_member
member_value value more k o s = read_delimiter s >>= λ c left. elim (c == b':') [
  | true ↦ value left >>= λ v rest. next_member b'}' more (set_key k v o) rest
  | false ↦ refused
]

-- One round of the loop of `read_object`.
unfoldable pub members_round : (Text → Read JsonValue) → Filler → Filler
unfolding ◌>>=◌ member_value
members_round value more o [] = refused
members_round value more o (c ∷ s) = elim (c == b'}') [
  | true ↦ done o s
  | false ↦ value (c ∷ s) >>= λ key left. elim (key_of key) [
    | none ↦ refused
    | some k ↦ member_value value more k o left
  ]
]

-- The cases of `read_json_key_value` that read no object and no array.
unfoldable pub read_plain : (Text → Text × Text) → ℕ → Text → Read JsonValue
unfolding read_string read_number read_bool read_null
read_plain double_texts c s =
    if c == 34
    then read_string s
    else if c == b'-' || is_digit c
    then read_number double_texts s
    else if c == b't' || c == b'T'
    then read_bool (ascii "true") true s
    else if c == b'f' || c == b'F'
    then read_bool (ascii "false") false s
    else if c == b'n' || c == b'N'
    then read_null s
    else refused

unfoldable pub as_value : Read JsonObject → Read JsonValue
unfolding ◌>>=◌
as_value r = r >>= λ o left. done (t_obj o) left

-- `read_json_key_value` at the first byte that is no space.
unfoldable pub value_at : (Text → Text × Text) → Filler → Filler → Text → Read JsonValue
unfolding behind_bracket read_plain as_value
value_at double_texts fill_object fill_array [] = refused
value_at double_texts fill_object fill_array (c ∷ s) = elim (c == b'{') [
  | true ↦ as_value (behind_bracket b'{' fill_object empty_object (c ∷ s))
  | false ↦ elim (c == b'[') [
    | true ↦ as_value (behind_bracket b'[' fill_array (object true no_members) (c ∷ s))
    | false ↦ read_plain double_texts c (c ∷ s)
  ]
]

module _ (double_texts : Text → Text × Text) where
  -- `read_json_key_value`, and the loops of `read_object` and `read_array`.
  unfoldable mutual
    unfolding value_at members_round items_round read_whitespace

    pub read_value : ℕ → Text → Read JsonValue
    read_value zero s = stuck
    read_value (suc fuel) s =
        value_at double_texts (read_members fuel) (read_items fuel) (read_whitespace s)

    pub read_members : ℕ → JsonObject → Text → Read JsonObject
    read_members zero o s = stuck
    read_members (suc fuel) o s = members_round (read_value fuel) (read_members fuel) o s

    pub read_items : ℕ → JsonObject → Text → Read JsonObject
    read_items zero o s = stuck
    read_items (suc fuel) o s = items_round (read_value fuel) (read_items fuel) o s

  -- The object that is read into keeps the members that it has.
  unfoldable pub read_at : ℕ → JsonObject → Text → Read JsonObject
  unfolding behind_bracket read_members read_items
  read_at fuel o [] = refused
  read_at fuel o (c ∷ s) =
      if c == b'{'
      then behind_bracket b'{' (read_members fuel) o (c ∷ s)
      else if c == b'['
      then behind_bracket b'[' (read_items fuel) (object true (members o)) (c ∷ s)
      else refused

  -- `startPos` is a `uint32_t`: in a text of 2 ^ 32 bytes or more it wraps around, and what is read
  -- then is not modelled.
  unfoldable pub read_from_string : JsonObject → Text → Read JsonObject
  unfolding read_at read_whitespace
  read_from_string o s =
      if leb (2 ^ 32) (length s) then stuck else read_at (2 * length s + 2) o (read_whitespace s)
