-- ===== src/Json/Reader/Termination.antt =====
-- The readers come to an end: the fuel of `read_from_string` is always enough.
use rtc_client.Common.{
  ◌^◌, ◌<◌, leb, ◌≡◌, ℕ, zero, suc, ◌+◌, ◌*◌, ◌≤◌, true, false, Option, none, some, [], ◌∷◌, ltb,
  ◌==◌, length, arith,
}
use rtc_client.Common.Text.{Text}
use rtc_client.Json.{
  JsonValue, t_obj, JsonObject, object, empty_object, no_members, set_key, push, members,
}
use rtc_client.Json.Reader.{
  Read, done, refused, read_whitespace, read_delimiter, Filler, behind_bracket, next_member,
  items_round, key_of, member_value, members_round, as_value, value_at, read_value, read_members,
  read_items, read_at, read_from_string,
}
use rtc_client.Json.Reader.Ends.{
  Ends, Ends-bind, Ends-more, Ends-if, Ends-elim, length-read_whitespace, read_delimiter-Ends,
  read_plain-Ends,
}

-- The readers that a round is given end on every text of at most `n` bytes.
abbrev EndsWithin : ℕ → (Text → Read JsonValue) → Type 0
EndsWithin n f = (s : Text) → length s ≤ n → Ends (length s) (f s)

abbrev FillsWithin : ℕ → Filler → Type 0
FillsWithin n f = (o : JsonObject) (s : Text) → length s ≤ n → Ends (length s) (f o s)

next_member-Ends :
    (end : ℕ) (more : Filler) (n : ℕ) (o : JsonObject) (s : Text)
    → FillsWithin n more
    → length s ≤ suc n
    → Ends (length s) (next_member end more o s)
unfolding next_member
next_member-Ends end more n o s h le =
    Ends-bind (length s) (length s) (read_delimiter s) _ (read_delimiter-Ends s) λ c left lt.
      Ends-elim (length s) (c == end) _ _ (omega (arith, lt)) (
        Ends-elim (length s) (c == b',') _ _
          (Ends-more (length left) (length s) (more o left) (omega (arith, lt))
            (h o left (omega (arith, lt))))
          tt)

items_round-Ends :
    (value : Text → Read JsonValue) (more : Filler) (n : ℕ)
    → EndsWithin (suc n) value
    → FillsWithin n more
    → FillsWithin (suc n) (items_round value more)
unfolding items_round
items_round-Ends value more n hv hm o [] le = tt
items_round-Ends value more n hv hm o (c ∷ s) le =
    Ends-elim (length (c ∷ s)) (c == b']') _ _ (omega arith) (
      Ends-bind (length (c ∷ s)) (length (c ∷ s)) (value (c ∷ s)) _ (hv (c ∷ s) le) λ v left lt.
        Ends-more (length left) (length (c ∷ s)) _ (omega (arith, lt))
          (next_member-Ends b']' more n (push v o) left hm (omega (arith, lt, le))))

member_value-Ends :
    (value : Text → Read JsonValue) (more : Filler) (n : ℕ) (k : Text) (o : JsonObject) (s : Text)
    → EndsWithin (suc n) value
    → FillsWithin n more
    → length s ≤ n
    → Ends (length s) (member_value value more k o s)
unfolding member_value
member_value-Ends value more n k o s hv hm le =
    Ends-bind (length s) (length s) (read_delimiter s) _ (read_delimiter-Ends s) λ c left lt.
      Ends-elim (length s) (c == b':') _ _
        (Ends-bind (length left) (length s) (value left) _ (hv left (omega (arith, lt, le)))
          λ v rest less.
            Ends-more (length rest) (length s) _ (omega (arith, lt, less))
              (next_member-Ends b'}' more n (set_key k v o) rest hm (omega (arith, lt, less, le))))
        tt

members_round-Ends :
    (value : Text → Read JsonValue) (more : Filler) (n : ℕ)
    → EndsWithin (suc n) value
    → FillsWithin n more
    → FillsWithin (suc n) (members_round value more)
unfolding members_round
members_round-Ends value more n hv hm o [] le = tt
members_round-Ends value more n hv hm o (c ∷ s) le =
    Ends-elim (length (c ∷ s)) (c == b'}') _ _ (omega arith) (
      Ends-bind (length (c ∷ s)) (length (c ∷ s)) (value (c ∷ s)) _ (hv (c ∷ s) le)
        λ key left lt. keyed key left lt (key_of key))
  where
    keyed :
        (key : JsonValue) (left : Text)
        → length left < length (c ∷ s)
        → (found : Option Text)
        → Ends
            (length (c ∷ s))
            (elim found [ none ↦ refused | some k ↦ member_value value more k o left ])
    keyed key left lt none = tt
    keyed key left lt (some k) =
        Ends-more (length left) (length (c ∷ s)) _ (omega (arith, lt))
          (member_value-Ends value more n k o left hv hm (omega (arith, lt, le)))

behind_bracket-Ends :
    (bracket : ℕ) (fill : Filler) (n : ℕ) (o : JsonObject) (c : ℕ) (s : Text)
    → FillsWithin n fill
    → length s ≤ n
    → Ends (length (c ∷ s)) (behind_bracket bracket fill o (c ∷ s))
unfolding behind_bracket
behind_bracket-Ends bracket fill n o c s h le =
    Ends-if (length (c ∷ s)) (ltb (length (c ∷ s)) 2) _ _ (λ e. tt)
      λ e.
        Ends-if (length (c ∷ s)) (c == bracket) _ _
          (λ f. Ends-more (length s) (length (c ∷ s)) (fill o s) (omega arith) (h o s le)) λ f. tt

as_value-Ends : (n : ℕ) (r : Read JsonObject) → Ends n r → Ends n (as_value r)
unfolding as_value
as_value-Ends n r h = Ends-bind n n r (λ o left. done (t_obj o) left) h λ o left lt. lt

value_at-Ends :
    (double_texts : Text → Text × Text) (fo fa : Filler) (n : ℕ) (s : Text)
    → FillsWithin n fo
    → FillsWithin n fa
    → length s ≤ suc n
    → Ends (length s) (value_at double_texts fo fa s)
unfolding value_at
value_at-Ends double_texts fo fa n [] ho ha le = tt
value_at-Ends double_texts fo fa n (c ∷ s) ho ha le =
    Ends-elim (length (c ∷ s)) (c == b'{') _ _
      (as_value-Ends (length (c ∷ s)) _
        (behind_bracket-Ends b'{' fo n empty_object c s ho (omega (arith, le))))
      (Ends-elim (length (c ∷ s)) (c == b'[') _ _
        (as_value-Ends (length (c ∷ s)) _
          (behind_bracket-Ends b'[' fa n (object true no_members) c s ha (omega (arith, le))))
        (read_plain-Ends double_texts c (c ∷ s)))

module _ (double_texts : Text → Text × Text) where
  -- With the fuel that texts of `n` bytes need.
  record Readers (n : ℕ) : Type 0 where
    value : (fuel : ℕ) → 2 * n + 1 ≤ fuel → EndsWithin n (read_value double_texts fuel)
    members : (fuel : ℕ) → 2 * n + 2 ≤ fuel → FillsWithin n (read_members double_texts fuel)
    items : (fuel : ℕ) → 2 * n + 2 ≤ fuel → FillsWithin n (read_items double_texts fuel)

  value_step :
      (n : ℕ)
      → Readers n
      → (fuel : ℕ) → 2 * suc n + 1 ≤ fuel
      → EndsWithin (suc n) (read_value double_texts fuel)
  unfolding read_value
  value_step n r zero le s short = absurd (omega arith)
  value_step n r (suc fuel) le s short =
      Ends-more (length (read_whitespace s)) (length s) _ (length-read_whitespace s) (
        value_at-Ends double_texts (read_members double_texts fuel) (read_items double_texts fuel) n
          (read_whitespace s) (r.members fuel (omega arith)) (r.items fuel (omega arith))
          (omega (arith, length-read_whitespace s)))

  members_step :
      (n : ℕ)
      → Readers n
      → (fuel : ℕ) → 2 * suc n + 2 ≤ fuel
      → FillsWithin (suc n) (read_members double_texts fuel)
  unfolding read_members
  members_step n r zero le o s short = absurd (omega arith)
  members_step n r (suc fuel) le o s short =
      members_round-Ends (read_value double_texts fuel) (read_members double_texts fuel) n
        (value_step n r fuel (omega arith)) (r.members fuel (omega arith)) o s short

  items_step :
      (n : ℕ)
      → Readers n
      → (fuel : ℕ) → 2 * suc n + 2 ≤ fuel
      → FillsWithin (suc n) (read_items double_texts fuel)
  unfolding read_items
  items_step n r zero le o s short = absurd (omega arith)
  items_step n r (suc fuel) le o s short =
      items_round-Ends (read_value double_texts fuel) (read_items double_texts fuel) n
        (value_step n r fuel (omega arith)) (r.items fuel (omega arith)) o s short

  -- At the end of the text.
  value_none : (fuel : ℕ) → 1 ≤ fuel → EndsWithin 0 (read_value double_texts fuel)
  unfolding read_value value_at read_whitespace
  value_none zero le s short = absurd (omega arith)
  value_none (suc fuel) le [] short = tt
  value_none (suc fuel) le (c ∷ s) short = absurd (omega arith)

  members_none : (fuel : ℕ) → 2 ≤ fuel → FillsWithin 0 (read_members double_texts fuel)
  unfolding read_members members_round
  members_none zero le o s short = absurd (omega arith)
  members_none (suc fuel) le o [] short = tt
  members_none (suc fuel) le o (c ∷ s) short = absurd (omega arith)

  items_none : (fuel : ℕ) → 2 ≤ fuel → FillsWithin 0 (read_items double_texts fuel)
  unfolding read_items items_round
  items_none zero le o s short = absurd (omega arith)
  items_none (suc fuel) le o [] short = tt
  items_none (suc fuel) le o (c ∷ s) short = absurd (omega arith)

  Readers-all : (n : ℕ) → Readers n
  Readers-all zero = record { value = value_none; members = members_none; items = items_none }
  Readers-all (suc n) =
      let r = Readers-all n in
      record { value = value_step n r; members = members_step n r; items = items_step n r }

  read_at-Ends :
      (o : JsonObject) (n : ℕ) (s : Text)
      → length s ≤ n
      → Ends (length s) (read_at double_texts (2 * n + 2) o s)
  unfolding read_at
  read_at-Ends o n [] le = tt
  read_at-Ends o n (c ∷ s) le =
      let r = Readers-all n in
      Ends-if (length (c ∷ s)) (c == b'{') _ _
        (λ e.
          behind_bracket-Ends b'{' (read_members double_texts (2 * n + 2)) n o c s
            (r.members (2 * n + 2) (omega arith)) (omega arith))
        λ e.
          Ends-if (length (c ∷ s)) (c == b'[') _ _
            (λ f.
              behind_bracket-Ends b'[' (read_items double_texts (2 * n + 2)) n
                (object true (members o)) c s (r.items (2 * n + 2) (omega arith)) (omega arith))
            λ f. tt

-- On every text of less than 2 ^ 32 bytes `read_from_string` comes to an end: it returns false, or
-- an object and less text than it was given, and never runs out of the fuel that its text determines.
pub read_from_string-Ends :
    (double_texts : Text → Text × Text) (o : JsonObject) (s : Text)
    → length s < 2 ^ 32
    → Ends (length s) (read_from_string double_texts o s)
unfolding read_from_string
read_from_string-Ends double_texts o s short =
    let test : leb (2 ^ 32) (length s) ≡ false = ground (arith, short) in
    rw test (
      Ends-more (length (read_whitespace s)) (length s) _ (length-read_whitespace s)
        (read_at-Ends double_texts o (length s) (read_whitespace s) (length-read_whitespace s)))
