-- ===== src/Json/RoundTrip/Steps.antt =====
-- The steps of `read_from_string` at a value, at a member and behind a member.
use rtc_client.Common.{
  ℕ, suc, ◌≤◌, ◌≡◌, refl, ◌∙◌, Bool, true, false, ◌∷◌, ◌++◌, length, arith, if◌then◌else◌, ltb,
}
use rtc_client.Common.Text.{Text, ascii, same_text}
use rtc_client.Utils.{string_to_lower}
use rtc_client.Json.{JsonValue, t_bool, t_string, t_obj, JsonObject, set_key, empty_object}
use rtc_client.Json.Writer.{escape_string}
use rtc_client.Json.Reader.{
  done, ◌>>=◌, read_whitespace, read_string, next_member, read_value, read_members, member_value,
  members_round, value_at, read_plain, as_value, behind_bracket, read_bool,
}
use rtc_client.Json.Reader.Strings.{read_string-escape_string}
use rtc_client.Json.RoundTrip.{IsText, IsTight}

module _ (double_texts : Text → Text × Text) where
  string-value :
      (f : ℕ) (s : Text) → read_value double_texts (suc f) (34 ∷ s) ≡ read_string (34 ∷ s)
  unfolding read_value value_at read_plain read_whitespace
  string-value f s = refl

  pub string_back :
      (f : ℕ) (t rest : Text)
      → IsText t
      → read_value double_texts (suc f) (34 ∷ (escape_string t ++ (34 ∷ rest)))
        ≡ done (t_string t) rest
  string_back f t rest h =
      string-value f (escape_string t ++ (34 ∷ rest)) ∙ read_string-escape_string t rest h

  pub bool_back :
      (f : ℕ) (b : Bool) (rest : Text)
      → read_value double_texts (suc f) (ascii (if b then "true" else "false") ++ rest)
        ≡ done (t_bool b) rest
  unfolding read_value value_at read_plain read_whitespace read_bool ascii string_to_lower same_text
  bool_back f true rest =
      let test : ltb (length (116 ∷ 114 ∷ 117 ∷ 101 ∷ rest)) 4 ≡ false = ground arith in
      rw test refl
  bool_back f false rest =
      let test : ltb (length (102 ∷ 97 ∷ 108 ∷ 115 ∷ 101 ∷ rest)) 5 ≡ false = ground arith in
      rw test refl

  -- The steps at an object, at a member and behind a member.
  pub object-value :
      (f : ℕ) (s : Text) (o : JsonObject) (rest : Text)
      → 2 ≤ length (123 ∷ s)
      → read_members double_texts f empty_object s ≡ done o rest
      → read_value double_texts (suc f) (123 ∷ s) ≡ done (t_obj o) rest
  unfolding read_value value_at read_whitespace behind_bracket as_value ◌>>=◌
  object-value f s o rest long h =
      let test : ltb (length (123 ∷ s)) 2 ≡ false = ground arith in rw test (rw h refl)

  pub member-step :
      (f : ℕ) (o : JsonObject) (s left : Text) (k : Text)
      → read_value double_texts f (34 ∷ s) ≡ done (t_string k) left
      → read_members double_texts (suc f) o (34 ∷ s)
        ≡ member_value (read_value double_texts f) (read_members double_texts f) k o left
  unfolding read_members members_round ◌>>=◌
  member-step f o s left k h = rw h refl

  pub value-step :
      (f : ℕ) (o : JsonObject) (k s rest : Text) (v : JsonValue)
      → IsTight s
      → read_value double_texts f s ≡ done v rest
      → member_value (read_value double_texts f) (read_members double_texts f) k o (58 ∷ s)
        ≡ next_member 125 (read_members double_texts f) (set_key k v o) rest
  unfolding member_value ◌>>=◌
  value-step f o k s rest v t h = rw t (rw h refl)

  pub end-step :
      (f : ℕ) (o : JsonObject) (rest : Text)
      → IsTight rest
      → next_member 125 (read_members double_texts f) o (125 ∷ rest) ≡ done o rest
  unfolding next_member ◌>>=◌
  end-step f o rest t = rw t refl

  pub comma-step :
      (f : ℕ) (o : JsonObject) (s : Text)
      → IsTight s
      → next_member 125 (read_members double_texts f) o (44 ∷ s) ≡ read_members double_texts f o s
  unfolding next_member ◌>>=◌
  comma-step f o s t = rw t refl

  pub empty-step :
      (f : ℕ) (o : JsonObject) (rest : Text)
      → read_members double_texts (suc f) o (125 ∷ rest) ≡ done o rest
  unfolding read_members members_round
  empty-step f o rest = refl
