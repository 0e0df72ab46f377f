-- ===== src/Json/RoundTrip/Values.antt =====
-- Whole objects: what `write_to_string` makes of one, `read_from_string` reads as the same one.
use rtc_client.Common.{
  ◌^◌, ◌⊎◌, ◌≤◌, inl, inr, Bool-cases, leb, ℕ, zero, suc, ◌+◌, ◌*◌, ◌≤◌, ◌≡◌, refl, ap, ◌∙◌, Bool,
  true, false, Option, none, some, [], ◌∷◌, ◌++◌, append_assoc, length, length-append, arith,
  if◌then◌else◌, ltb,
}
use rtc_client.Common.Text.{Text, ascii}
use rtc_client.Json.{
  JsonValue, t_undefined, t_null, t_int8, t_int16, t_int32, t_int64, t_uint8, t_uint16, t_uint32,
  t_uint64, t_double, t_bool, t_string, t_obj, JsonObject, object, Members, no_members, member,
  empty_object,
}
use rtc_client.Json.Writer.{escape_string, write_value, write_to_string}
use rtc_client.Json.Reader.{
  done, read_whitespace, read_value, read_at, read_from_string, behind_bracket,
}
use rtc_client.Json.RoundTrip.{snoc, IsOrdered, IsText, IsPlain, ArePlain, IsTight, cost, cost_of}
use rtc_client.Json.RoundTrip.Steps.{string_back, bool_back, object-value}
use rtc_client.Json.RoundTrip.Parts.{
  Back, BackTail, Whole, empty-BackTail, empty-Whole, body-Whole, body-BackTail,
}

module _ (double_texts : Text → Text × Text) where
  write_to_string-known :
      (ms : Members) (w : Whole double_texts ms)
      → write_to_string (object false ms) ≡ some (123 ∷ (w.text ++ (125 ∷ [])), object false w.left)
  unfolding write_to_string
  write_to_string-known ms w = ap bracketed w.written
    where
      bracketed : Option (Text × Members) → Option (Text × JsonObject)
      bracketed o = elim o [
        | none ↦ none
        | some (text, ms') ↦ some (123 ∷ (text ++ (125 ∷ [])), object false ms')
      ]

  object-Back : (ms : Members) → Whole double_texts ms → Back double_texts (t_obj (object false ms))
  unfolding cost read_whitespace write_value
  object-Back ms w = record {
    text = 123 ∷ (w.text ++ (125 ∷ []));
    left = t_obj (object false w.left);
    written = ap as_object (write_to_string-known ms w);
    long = omega (arith, w.long, length-append {0} w.text (125 ∷ []));
    tight = λ rest. refl;
    reads = reads_object;
  }
    where
      as_object : Option (Text × JsonObject) → Option (Text × JsonValue)
      as_object o = elim o [ none ↦ none | some (text, o') ↦ some (text, t_obj o') ]

      reads_object :
          (f : ℕ) (rest : Text)
          → suc (cost_of ms) ≤ f
          → IsTight rest
          → read_value double_texts f ((123 ∷ (w.text ++ (125 ∷ []))) ++ rest)
            ≡ done (t_obj (object false ms)) rest
      reads_object zero rest enough tight = absurd (omega (arith, enough))
      reads_object (suc f) rest enough tight =
          ap (λ s. read_value double_texts (suc f) (123 ∷ s)) (append_assoc w.text (125 ∷ []) rest)
          ∙ object-value double_texts f (w.text ++ (125 ∷ rest)) (object false ms) rest
              (omega (arith, length-append {0} w.text (125 ∷ rest)))
              (w.reads f rest (omega (arith, enough)) tight)

  text-Back : (t : Text) → IsText t → Back double_texts (t_string t)
  unfolding cost read_whitespace write_value
  text-Back t h = record {
    text = 34 ∷ (escape_string t ++ (34 ∷ []));
    left = t_string (escape_string t);
    written = refl;
    long = omega (arith);
    tight = λ rest. refl;
    reads = reads_text;
  }
    where
      reads_text :
          (f : ℕ) (rest : Text)
          → 1 ≤ f
          → IsTight rest
          → read_value double_texts f ((34 ∷ (escape_string t ++ (34 ∷ []))) ++ rest)
            ≡ done (t_string t) rest
      reads_text zero rest enough tight = absurd (omega (arith, enough))
      reads_text (suc f) rest enough tight =
          ap (λ s. read_value double_texts (suc f) (34 ∷ s))
            (append_assoc (escape_string t) (34 ∷ []) rest)
          ∙ string_back double_texts f t rest h

  reads_truth :
      (b : Bool) (f : ℕ) (rest : Text)
      → 1 ≤ f
      → IsTight rest
      → read_value double_texts f (ascii (if b then "true" else "false") ++ rest)
        ≡ done (t_bool b) rest
  reads_truth b zero rest enough tight = absurd (omega (arith, enough))
  reads_truth b (suc f) rest enough tight = bool_back double_texts f b rest

  truth-Back : (b : Bool) → Back double_texts (t_bool b)
  unfolding cost read_whitespace write_value ascii
  truth-Back true = record {
    text = ascii "true";
    left = t_bool true;
    written = refl;
    long = omega arith;
    tight = λ rest. refl;
    reads = reads_truth true;
  }
  truth-Back false = record {
    text = ascii "false";
    left = t_bool false;
    written = refl;
    long = omega arith;
    tight = λ rest. refl;
    reads = reads_truth false;
  }

  mutual
    unfolding IsPlain

    value-Back : (v : JsonValue) → IsPlain v → Back double_texts v
    value-Back (t_string s) h = text-Back s h
    value-Back (t_bool b) h = truth-Back b
    value-Back (t_obj (object false ms)) (_, ordered, plain) =
        object-Back ms (members-Whole ms ordered plain)
    value-Back (t_obj (object true ms)) (same, ordered, plain) = absurd (ground (arith, same))
    value-Back t_undefined h = absurd h
    value-Back t_null h = absurd h
    value-Back (t_int8 n) h = absurd h
    value-Back (t_int16 n) h = absurd h
    value-Back (t_int32 n) h = absurd h
    value-Back (t_int64 n) h = absurd h
    value-Back (t_uint8 n) h = absurd h
    value-Back (t_uint16 n) h = absurd h
    value-Back (t_uint32 n) h = absurd h
    value-Back (t_uint64 n) h = absurd h
    value-Back (t_double fixed streamed) h = absurd h

    members-Whole : (ms : Members) → IsOrdered no_members ms → ArePlain ms → Whole double_texts ms
    members-Whole no_members ordered plain = empty-Whole double_texts
    members-Whole (member k v ms) (behind, ordered) (key, same, value, plain) =
        body-Whole double_texts k v ms (value-Back v value)
          (tail-BackTail (snoc no_members k v) ms ordered plain) key same

    tail-BackTail :
        (acc ms : Members) → IsOrdered acc ms → ArePlain ms → BackTail double_texts acc ms
    tail-BackTail acc no_members ordered plain = empty-BackTail double_texts acc
    tail-BackTail acc (member k v ms) (behind, ordered) (key, same, value, plain) =
        body-BackTail double_texts acc k v ms (value-Back v value)
          (tail-BackTail (snoc acc k v) ms ordered plain) key same behind

-- An object whose keys are in the order of the map, whose keys and texts are without a backslash,
-- whose keys need no escape, and whose values are texts, truth values and such objects, is written,
-- and what is written has 2 ^ 32 bytes or more, or is read into an empty object as the same object,
-- to the last byte.
pub read_from_string-write_to_string :
    (double_texts : Text → Text × Text) (ms : Members)
    → IsPlain (t_obj (object false ms))
    → (text : Text) × (left : JsonObject) × (write_to_string (object false ms) ≡ some (text, left))
      × ((2 ^ 32 ≤ length text)
          ⊎ (read_from_string double_texts empty_object text ≡ done (object false ms) []))
unfolding read_from_string read_at read_whitespace behind_bracket IsPlain
read_from_string-write_to_string double_texts ms (_, ordered, plain) =
    let w = members-Whole double_texts ms ordered plain in
    let text = w.text ++ (125 ∷ []) in
    let test : ltb (length (123 ∷ text)) 2 ≡ false =
      ground (arith, length-append {0} w.text (125 ∷ [])) in
    (
      123 ∷ text,
      object false w.left,
      write_to_string-known double_texts ms w,
      elim (Bool-cases (leb (2 ^ 32) (length (123 ∷ text)))) [
        | inl long ↦ inl (ground (arith, long))
        | inr short ↦ inr (
            rw short (
              rw test (
                w.reads (2 * length (123 ∷ text) + 2) []
                  (omega (arith, w.long, length-append {0} w.text (125 ∷ []))) refl)))
      ],
    )
