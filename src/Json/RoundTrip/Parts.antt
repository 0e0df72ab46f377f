-- ===== src/Json/RoundTrip/Parts.antt =====
-- A member and the members behind it, written by `write_members` and read by `read_members`.
use rtc_client.Common.{
  ℕ, zero, suc, ◌+◌, ◌≤◌, ◌≡◌, refl, ap, ◌∙◌, subst, Bool, true, false, Option, none, some, [], ◌∷◌,
  ◌++◌, append_assoc, length, length-append, arith, if◌then◌else◌,
}
use rtc_client.Common.Text.{Text}
use rtc_client.Json.{JsonValue, t_string, object, Members, no_members, member}
use rtc_client.Json.Writer.{escape_string, write_value, write_members, write_key}
use rtc_client.Json.Reader.{done, read_whitespace, next_member, read_value, read_members}
use rtc_client.Json.RoundTrip.{
  snoc, joined, joined-cat, IsBehind, IsText, IsTight, cost, cost_of, cost_pos, set_key-behind,
}
use rtc_client.Json.RoundTrip.Steps.{
  string_back, member-step, value-step, end-step, comma-step, empty-step,
}

-- What a member writes, from what its value and the members behind it write.
write_members-known :
    (first : Bool) (k : Text) (v : JsonValue) (ms : Members) (own : Text × JsonValue)
    (others : Text × Members)
    → write_value v ≡ some own
    → write_members false false ms ≡ some others
    → write_members false first (member k v ms)
      ≡ some (write_key false first k ++ (own.0 ++ others.0), member k own.1 others.1)
unfolding write_members
write_members-known first k v ms own others value tail = ap of_value value ∙ ap of_tail tail
  where
    of_tail : Option (Text × Members) → Option (Text × Members)
    of_tail o = elim o [
      | none ↦ none
      | some (rest, ms') ↦ some (write_key false first k ++ (own.0 ++ rest), member k own.1 ms')
    ]

    of_value : Option (Text × JsonValue) → Option (Text × Members)
    of_value o = elim o [
      | none ↦ none
      | some (text, v') ↦ elim (write_members false false ms) [
        | none ↦ none
        | some (rest, ms') ↦ some (write_key false first k ++ (text ++ rest), member k v' ms')
      ]
    ]

module _ (double_texts : Text → Text × Text) where
  -- A value that is written and read back, whatever stands behind it.
  pub record Back (v : JsonValue) : Type 0 where
    pub text : Text
    pub left : JsonValue
    pub written : write_value v ≡ some (text, left)
    pub long : cost v ≤ length text
    pub tight : (rest : Text) → IsTight (text ++ rest)
    pub reads :
        (f : ℕ) (rest : Text)
        → cost v ≤ f
        → IsTight rest
        → read_value double_texts f (text ++ rest) ≡ done v rest

  -- Members behind those of `acc`, with the comma in front of them.
  pub record BackTail (acc ms : Members) : Type 0 where
    text : Text
    left : Members
    written : write_members false false ms ≡ some (text, left)
    long : cost_of ms ≤ suc (length text)
    tight : (rest : Text) → IsTight (text ++ (125 ∷ rest))
    reads :
        (f : ℕ) (rest : Text)
        → cost_of ms ≤ f
        → IsTight rest
        → next_member 125 (read_members double_texts f) (object false acc) (text ++ (125 ∷ rest))
          ≡ done (object false (joined acc ms)) rest

  module _ (acc : Members) (k : Text) (v : JsonValue) (ms : Members) (b : Back v)
      (t : BackTail (snoc acc k v) ms) (key : IsText k) (whole : escape_string k ≡ k)
      (behind : IsBehind k acc) where
    abbrev body : Text
    body = (34 ∷ (k ++ (34 ∷ 58 ∷ []))) ++ (b.text ++ t.text)

    body-shape :
        (rest : Text)
        → body ++ (125 ∷ rest) ≡ 34 ∷ (k ++ (34 ∷ (58 ∷ (b.text ++ (t.text ++ (125 ∷ rest))))))
    body-shape rest = simp append_assoc

    body-written :
        (first : Bool)
        → write_members false first (member k v ms)
          ≡ some ((if first then body else 44 ∷ body), member k b.left t.left)
    unfolding write_key
    body-written true =
        write_members-known true k v ms (b.text, b.left) (t.text, t.left) b.written t.written
    body-written false =
        write_members-known false k v ms (b.text, b.left) (t.text, t.left) b.written t.written

    length-body : length b.text + length t.text + 2 ≤ length body
    length-body = omega (
      arith,
      length-append {0} (34 ∷ (k ++ (34 ∷ 58 ∷ []))) (b.text ++ t.text),
      length-append {0} b.text t.text,
      length-append {0} k (34 ∷ 58 ∷ []),
    )

    body-reads :
        (f : ℕ) (rest : Text)
        → suc (cost v + cost_of ms) ≤ f
        → IsTight rest
        → read_members double_texts f (object false acc) (body ++ (125 ∷ rest))
          ≡ done (object false (joined acc (member k v ms))) rest
    body-reads zero rest enough tight = absurd (omega arith)
    body-reads (suc zero) rest enough tight = absurd (omega (arith, cost_pos v, enough))
    body-reads (suc (suc f)) rest enough tight =
        let tail = t.text ++ (125 ∷ rest) in
        let key_read : read_value double_texts (suc f) (34 ∷ (k ++ (34 ∷ (58 ∷ (b.text ++ tail)))))
            ≡ done (t_string k) (58 ∷ (b.text ++ tail)) =
          subst
            (λ x.
              read_value double_texts (suc f) (34 ∷ (x ++ (34 ∷ (58 ∷ (b.text ++ tail)))))
              ≡ done (t_string k) (58 ∷ (b.text ++ tail)))
            whole (string_back double_texts f k (58 ∷ (b.text ++ tail)) key) in
        ap (read_members double_texts (suc (suc f)) (object false acc)) (body-shape rest)
        ∙ member-step double_texts (suc f) (object false acc) (k ++ (34 ∷ (58 ∷ (b.text ++ tail))))
            _ k key_read
        ∙ value-step double_texts (suc f) (object false acc) k (b.text ++ tail) tail v
            (b.tight tail) (b.reads (suc f) tail (omega arith) (t.tight rest))
        ∙ ap (λ o. next_member 125 (read_members double_texts (suc f)) o tail)
            (set_key-behind k v acc behind)
        ∙ t.reads (suc f) rest (omega (arith, enough, cost_pos v)) tight

    pub body-BackTail : BackTail acc (member k v ms)
    unfolding cost_of read_whitespace
    body-BackTail = record {
      text = 44 ∷ body;
      left = member k b.left t.left;
      written = body-written false;
      long = omega (arith, length-body, b.long, t.long);
      tight = λ rest. refl;
      reads = λ f rest enough tight.
          comma-step double_texts f (object false acc) (body ++ (125 ∷ rest)) refl
          ∙ body-reads f rest enough tight;
    }

  pub empty-BackTail : (acc : Members) → BackTail acc no_members
  unfolding cost_of write_members read_whitespace
  empty-BackTail acc = record {
    text = [];
    left = no_members;
    written = refl;
    long = omega arith;
    tight = λ rest. refl;
    reads = λ f rest enough tight. end-step double_texts f (object false acc) rest tight;
  }

  -- The members of an object, as a whole.
  pub record Whole (ms : Members) : Type 0 where
    pub text : Text
    pub left : Members
    pub written : write_members false true ms ≡ some (text, left)
    pub long : cost_of ms ≤ suc (length text)
    pub reads :
        (f : ℕ) (rest : Text)
        → cost_of ms ≤ f
        → IsTight rest
        → read_members double_texts f (object false no_members) (text ++ (125 ∷ rest))
          ≡ done (object false ms) rest

  pub empty-Whole : Whole no_members
  unfolding cost_of write_members
  empty-Whole = record {
    text = [];
    left = no_members;
    written = refl;
    long = omega arith;
    reads = reads_end;
  }
    where
      reads_end :
          (f : ℕ) (rest : Text)
          → 1 ≤ f
          → IsTight rest
          → read_members double_texts f (object false no_members) (125 ∷ rest)
            ≡ done (object false no_members) rest
      reads_end zero rest enough tight = absurd (omega (arith, enough))
      reads_end (suc f) rest enough tight = empty-step double_texts f (object false no_members) rest

  pub body-Whole :
      (k : Text) (v : JsonValue) (ms : Members)
      → Back v
      → BackTail (member k v no_members) ms
      → IsText k
      → escape_string k ≡ k
      → Whole (member k v ms)
  unfolding cost_of
  body-Whole k v ms b t key whole = record {
    text = body no_members k v ms b t key whole tt;
    left = member k b.left t.left;
    written = body-written no_members k v ms b t key whole tt true;
    long = omega (arith, length-body no_members k v ms b t key whole tt, b.long, t.long);
    reads = λ f rest enough tight.
        body-reads no_members k v ms b t key whole tt f rest enough tight
        ∙ ap (λ x. done (object false x) rest) (joined-cat no_members (member k v ms));
  }
