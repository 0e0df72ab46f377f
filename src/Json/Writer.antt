-- ===== src/Json/Writer.antt =====
-- `write_to_string`, which escapes the strings of the object where they are stored.
pub mod Escape
use rtc_client.Common.{Bool, true, false, Option, none, some, List, [], ◌∷◌, ◌++◌, if◌then◌else◌}
use rtc_client.Common.Text.{Text, ascii}
use rtc_client.Utils.{ℤ, pos, common_to_string, string_replace}
use rtc_client.Json.{
  JsonValue, t_undefined, t_null, t_bool, t_int8, t_int16, t_int32, t_int64, t_uint8, t_uint16,
  t_uint32, t_uint64, t_double, t_string, t_obj, JsonObject, object, Members, no_members, member,
}

unfoldable pub escape_string : Text → Text
unfolding string_replace
escape_string s0 =
    let s1 = string_replace (b'\\' ∷ []) (b'\\' ∷ b'\\' ∷ []) s0 in
    let s2 = string_replace (b'/' ∷ []) (b'\\' ∷ b'/' ∷ []) s1 in
    let s3 = string_replace (34 ∷ []) (b'\\' ∷ 34 ∷ []) s2 in
    let s4 = string_replace (8 ∷ []) (b'\\' ∷ b'b' ∷ []) s3 in
    let s5 = string_replace (12 ∷ []) (b'\\' ∷ b'f' ∷ []) s4 in
    let s6 = string_replace (10 ∷ []) (b'\\' ∷ b'n' ∷ []) s5 in
    let s7 = string_replace (13 ∷ []) (b'\\' ∷ b'r' ∷ []) s6 in
    string_replace (9 ∷ []) (b'\\' ∷ b't' ∷ []) s7

unfoldable pub unescape_string : Text → Text
unfolding string_replace
unescape_string s0 =
    let s1 = string_replace (b'\\' ∷ b'/' ∷ []) (b'/' ∷ []) s0 in
    let s2 = string_replace (b'\\' ∷ 34 ∷ []) (34 ∷ []) s1 in
    let s3 = string_replace (b'\\' ∷ b'b' ∷ []) (8 ∷ []) s2 in
    let s4 = string_replace (b'\\' ∷ b'f' ∷ []) (12 ∷ []) s3 in
    let s5 = string_replace (b'\\' ∷ b'n' ∷ []) (10 ∷ []) s4 in
    let s6 = string_replace (b'\\' ∷ b'r' ∷ []) (13 ∷ []) s5 in
    let s7 = string_replace (b'\\' ∷ b't' ∷ []) (9 ∷ []) s6 in
    string_replace (b'\\' ∷ b'\\' ∷ []) (b'\\' ∷ []) s7

-- What stands in front of a member's value: a comma behind another member, and the key, as it is.
unfoldable pub write_key : Bool → Bool → Text → Text
write_key array first k =
    (if first then [] else b',' ∷ []) ++ (if array then [] else 34 ∷ (k ++ (34 ∷ b':' ∷ [])))

-- A text, with the value, the object or the members as they are left; `none` is false.
unfoldable mutual
  unfolding escape_string write_key common_to_string

  pub write_value : JsonValue → Option (Text × JsonValue)
  write_value t_undefined = none
  write_value t_null = some (ascii "null", t_null)
  write_value (t_bool b) = some (ascii (if b then "true" else "false"), t_bool b)
  write_value (t_int8 z) = some (common_to_string z, t_int8 z)
  write_value (t_int16 z) = some (common_to_string z, t_int16 z)
  write_value (t_int32 z) = some (common_to_string z, t_int32 z)
  write_value (t_int64 z) = some (common_to_string z, t_int64 z)
  write_value (t_uint8 n) = some (common_to_string (pos n), t_uint8 n)
  write_value (t_uint16 n) = some (common_to_string (pos n), t_uint16 n)
  write_value (t_uint32 n) = some (common_to_string (pos n), t_uint32 n)
  write_value (t_uint64 n) = some (common_to_string (pos n), t_uint64 n)
  write_value (t_double fixed streamed) = some (streamed, t_double fixed streamed)
  write_value (t_string s) = some (34 ∷ (escape_string s ++ (34 ∷ [])), t_string (escape_string s))
  write_value (t_obj o) = elim (write_to_string o) [
    | none ↦ none
    | some (text, o') ↦ some (text, t_obj o')
  ]

  pub write_to_string : JsonObject → Option (Text × JsonObject)
  write_to_string (object array ms) = elim (write_members array true ms) [
    | none ↦ none
    | some (text, ms') ↦ some (
      (if array then b'[' else b'{') ∷ (text ++ ((if array then b']' else b'}') ∷ [])),
      object array ms',
    )
  ]

  pub write_members : Bool → Bool → Members → Option (Text × Members)
  write_members array first no_members = some ([], no_members)
  write_members array first (member k v ms) = elim (write_value v) [
    | none ↦ none
    | some (text, v') ↦ elim (write_members array false ms) [
      | none ↦ none
      | some (rest, ms') ↦ some (write_key array first k ++ (text ++ rest), member k v' ms')
    ]
  ]
