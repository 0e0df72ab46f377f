-- ===== src/Json.antt =====
-- `JsonValue` and `JsonObject` of src/common/common_json.h and src/common/common_json.cpp.
pub mod Writer
pub mod Reader
pub mod RoundTrip
pub mod Convert
use rtc_client.Common.{
  ℕ, suc, ◌+◌, Bool, true, false, not, Option, none, some, List, [], ◌∷◌, if◌then◌else◌,
}
use rtc_client.Common.Text.{Text, same_text, text_lt, ascii}
use rtc_client.Utils.{ℤ, pos, common_to_string}

-- A value with its `type`. A double is kept as the two texts that it is printed as, by
-- `common_to_string` and by a stream. `m_members` is a map, whose entries are in the order of
-- their keys.
mutual
  pub data JsonValue : Type 0 where
    t_undefined : JsonValue
    t_null : JsonValue
    t_bool : Bool → JsonValue
    t_int8 : ℤ → JsonValue
    t_int16 : ℤ → JsonValue
    t_int32 : ℤ → JsonValue
    t_int64 : ℤ → JsonValue
    t_uint8 : ℕ → JsonValue
    t_uint16 : ℕ → JsonValue
    t_uint32 : ℕ → JsonValue
    t_uint64 : ℕ → JsonValue
    t_double : Text → Text → JsonValue
    t_string : Text → JsonValue
    t_obj : JsonObject → JsonValue

  pub data JsonObject : Type 0 where
    object : Bool → Members → JsonObject

  pub data Members : Type 0 where
    no_members : Members
    member : Text → JsonValue → Members → Members

-- `JsonObject()`
abbrev pub empty_object : JsonObject
empty_object = object false no_members

unfoldable pub clear : JsonObject → JsonObject
clear o = empty_object

-- What a value is after `reset`.
unfoldable pub reset : JsonValue → JsonValue
reset v = t_undefined

abbrev pub is_array : JsonObject → Bool
is_array (object array ms) = array

abbrev pub members : JsonObject → Members
members (object array ms) = ms

abbrev pub count : Members → ℕ
count no_members = 0
count (member k v ms) = suc (count ms)

unfoldable pub find : Text → Members → Option JsonValue
find k no_members = none
find k (member j v ms) = let rest = find k ms in if same_text k j then some v else rest

unfoldable pub assign : Text → JsonValue → Members → Members
assign k v no_members = member k v no_members
assign k v (member j w ms) =
    let rest = member j w (assign k v ms) in
    if same_text k j
    then member k v ms
    else if text_lt k j
    then member k v (member j w ms)
    else rest

-- `json[key] = v`, and `json[index] = v`.
unfoldable pub set_key : Text → JsonValue → JsonObject → JsonObject
unfolding assign
set_key k v (object array ms) = object array (assign k v ms)

unfoldable pub set_index : ℕ → JsonValue → JsonObject → JsonObject
unfolding assign common_to_string
set_index i v (object array ms) = object true (assign (common_to_string (pos i)) v ms)

-- `json[key]` where it is only read.
unfoldable pub get_key : Text → JsonObject → JsonValue
unfolding find
get_key k (object array ms) = elim (find k ms) [ none ↦ t_undefined | some v ↦ v ]

unfoldable pub get_index : ℕ → JsonObject → JsonValue
unfolding get_key common_to_string
get_index i o = get_key (common_to_string (pos i)) o

-- `none` is -1.
unfoldable pub array_size : JsonObject → Option ℕ
array_size (object true ms) = some (count ms)
array_size (object false ms) = none

-- Which member a value is pushed to depends on the number of members alone.
unfoldable pub push : JsonValue → JsonObject → JsonObject
unfolding set_key common_to_string
push v (object array ms) =
    if not array
    then object array ms
    else set_key (common_to_string (pos (count ms))) v (object array ms)

unfoldable pub as_string : JsonValue → Text
unfolding common_to_string
as_string t_undefined = []
as_string t_null = []
as_string (t_bool b) = ascii (if b then "true" else "false")
as_string (t_int8 z) = common_to_string z
as_string (t_int16 z) = common_to_string z
as_string (t_int32 z) = common_to_string z
as_string (t_int64 z) = common_to_string z
as_string (t_uint8 n) = common_to_string (pos n)
as_string (t_uint16 n) = common_to_string (pos n)
as_string (t_uint32 n) = common_to_string (pos n)
as_string (t_uint64 n) = common_to_string (pos n)
as_string (t_double fixed streamed) = fixed
as_string (t_string s) = s
as_string (t_obj o) = ascii "JsonObject"

unfoldable pub as_object : JsonValue → JsonObject
as_object (t_obj o) = o
as_object v = empty_object
