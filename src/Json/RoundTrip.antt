-- ===== src/Json/RoundTrip.antt =====
-- Objects that `write_to_string` writes and `read_from_string` reads back: their keys, their values, and
-- the fuel that they take.
pub mod Steps
pub mod Parts
pub mod Values
use rtc_client.Common.{
  ℕ, zero, suc, ◌+◌, ◌*◌, ◌≤◌, ◌<◌, ◌≡◌, ◌≢◌, refl, ap, sym, ◌∙◌, subst, Bool, true, false, not,
  Option, none, some, List, [], ◌∷◌, ◌++◌, append_assoc, length, length-append, All, arith,
  if◌then◌else◌, ◌==◌, ltb,
}
use rtc_client.Common.Text.{Text, ascii, same_text, text_lt}
use rtc_client.Utils.{string_to_lower}
use rtc_client.Json.{
  JsonValue, t_undefined, t_null, t_int8, t_int16, t_int32, t_int64, t_uint8, t_uint16, t_uint32,
  t_uint64, t_double, t_bool, t_string, t_obj, JsonObject, object, Members, no_members, member,
  assign, set_key, empty_object,
}
use rtc_client.Json.Writer.{escape_string, write_value, write_to_string, write_members, write_key}
use rtc_client.Json.Reader.{
  Read, done, refused, stuck, ◌>>=◌, read_whitespace, read_delimiter, read_string, next_member,
  read_value, read_members, read_at, read_from_string, member_value, key_of, members_round,
  value_at, read_plain, as_value, behind_bracket, read_bool, first_of,
}
use rtc_client.Json.Reader.Strings.{read_string-escape_string}

abbrev pub snoc : Members → Text → JsonValue → Members
snoc no_members k v = member k v no_members
snoc (member j w ms) k v = member j w (snoc ms k v)

abbrev pub joined : Members → Members → Members
joined acc no_members = acc
joined acc (member k v ms) = joined (snoc acc k v) ms

abbrev pub cat : Members → Members → Members
cat no_members ms = ms
cat (member j w acc) ms = member j w (cat acc ms)

cat-snoc :
    (acc : Members) (k : Text) (v : JsonValue) (ms : Members)
    → cat (snoc acc k v) ms ≡ cat acc (member k v ms)
cat-snoc no_members k v ms = refl
cat-snoc (member j w acc) k v ms = ap (member j w) (cat-snoc acc k v ms)

cat_none : (acc : Members) → cat acc no_members ≡ acc
cat_none no_members = refl
cat_none (member j w acc) = ap (member j w) (cat_none acc)

pub joined-cat : (acc ms : Members) → joined acc ms ≡ cat acc ms
joined-cat acc no_members = sym (cat_none acc)
joined-cat acc (member k v ms) = joined-cat (snoc acc k v) ms ∙ cat-snoc acc k v ms

-- A key behind all others, and keys that are in the order of the map behind those of `acc`.
abbrev pub IsBehind : Text → Members → Type 0
IsBehind k no_members = Unit {0}
IsBehind k (member j w ms) = (same_text k j ≡ false) × (text_lt k j ≡ false) × IsBehind k ms

abbrev pub IsOrdered : Members → Members → Type 0
IsOrdered acc no_members = Unit {0}
IsOrdered acc (member k v ms) = IsBehind k acc × IsOrdered (snoc acc k v) ms

abbrev pub IsText : Text → Type 0
IsText t = All (λ c. c ≢ 92) t

-- Objects of objects, texts without a backslash and truth values, under keys that are written as
-- they are.
unfoldable mutual
  pub IsPlain : JsonValue → Type 0
  IsPlain (t_string s) = IsText s
  IsPlain (t_bool b) = Unit {0}
  IsPlain (t_obj (object array ms)) = (array ≡ false) × IsOrdered no_members ms × ArePlain ms
  IsPlain v = ⊥

  pub ArePlain : Members → Type 0
  ArePlain no_members = Unit {0}
  ArePlain (member k v ms) = IsText k × (escape_string k ≡ k) × IsPlain v × ArePlain ms

assign-behind :
    (k : Text) (v : JsonValue) (ms : Members) → IsBehind k ms → assign k v ms ≡ snoc ms k v
unfolding assign
assign-behind k v no_members h = refl
assign-behind k v (member j w ms) h =
    rw (h.0) (rw (h.1) (ap (member j w) (assign-behind k v ms h.2)))

-- A text that does not begin with a space.
abbrev pub IsTight : Text → Type 0
IsTight s = read_whitespace s ≡ s

-- How much fuel a value takes.
mutual
  pub cost : JsonValue → ℕ
  cost (t_obj (object array ms)) = suc (cost_of ms)
  cost v = 1

  pub cost_of : Members → ℕ
  cost_of no_members = 1
  cost_of (member k v ms) = suc (cost v + cost_of ms)

pub set_key-behind :
    (k : Text) (v : JsonValue) (ms : Members)
    → IsBehind k ms
    → set_key k v (object false ms) ≡ object false (snoc ms k v)
unfolding set_key
set_key-behind k v ms h = ap (object false) (assign-behind k v ms h)

pub cost_pos : (v : JsonValue) → 1 ≤ cost v
unfolding cost
cost_pos (t_obj (object array ms)) = omega arith
cost_pos v = omega arith
