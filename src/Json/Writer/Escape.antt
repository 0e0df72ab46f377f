-- ===== src/Json/Writer/Escape.antt =====
-- Strings through `escape_string` and `unescape_string`.
use rtc_client.Common.{
  ℕ, ◌≡◌, ◌≢◌, refl, ap, sym, ◌∙◌, ◌&&◌, [], ◌∷◌, ◌++◌, ltb, leb, ◌==◌, All, arith, ◌⊎◌, inl, inr,
  Bool-cases, if◌then◌else◌,
}
use rtc_client.Common.Text.{Text, same_text}
use rtc_client.Utils.{replace_from, string_replace}
use rtc_client.Utils.Replace.{flat, replace_from-flat}
use rtc_client.Json.Writer.{escape_string, unescape_string}

-- The order in which the bytes that are escaped are replaced, and the letter of each.
unfoldable rank : ℕ → ℕ
rank c =
    if c == 47
    then 0
    else if c == 34
    then 1
    else if c == 8
    then 2
    else if c == 12
    then 3
    else if c == 10
    then 4
    else if c == 13
    then 5
    else if c == 9
    then 6
    else 7

unfoldable letter : ℕ → ℕ
letter c =
    if c == 47
    then 47
    else if c == 34
    then 34
    else if c == 8
    then 98
    else if c == 12
    then 102
    else if c == 10
    then 110
    else if c == 13
    then 114
    else if c == 9
    then 116
    else c

-- A byte where those of the ranks from `lo` up to `hi` are escaped.
unfoldable pub piece : ℕ → ℕ → ℕ → Text
unfolding rank letter
piece lo hi c = if leb lo (rank c) && ltb (rank c) hi then 92 ∷ letter c ∷ [] else c ∷ []

abbrev IsPlain : ℕ → Type 0
IsPlain c = c ≢ 92

-- One replacement, at a byte: the pieces of one range of ranks become those of another.
abbrev Turns : Text → Text → (ℕ → Text) → (ℕ → Text) → Type 0
Turns search replacement e e' =
    (c : ℕ) (rest : Text)
    → IsPlain c
    → replace_from search replacement 0 (e c ++ rest)
      ≡ e' c ++ replace_from search replacement 0 rest

escape_backslash : Turns (92 ∷ []) (92 ∷ 92 ∷ []) (piece 0 0) (piece 0 0)
unfolding piece replace_from rank letter
escape_backslash c rest h = ground (arith, h)

escape_slash : Turns (47 ∷ []) (92 ∷ 47 ∷ []) (piece 0 0) (piece 0 1)
unfolding piece replace_from rank letter
escape_slash c rest h = ground (arith, h)

escape_quote : Turns (34 ∷ []) (92 ∷ 34 ∷ []) (piece 0 1) (piece 0 2)
unfolding piece replace_from rank letter
escape_quote c rest h = ground (arith, h)

escape_b : Turns (8 ∷ []) (92 ∷ 98 ∷ []) (piece 0 2) (piece 0 3)
unfolding piece replace_from rank letter
escape_b c rest h = ground (arith, h)

escape_f : Turns (12 ∷ []) (92 ∷ 102 ∷ []) (piece 0 3) (piece 0 4)
unfolding piece replace_from rank letter
escape_f c rest h = ground (arith, h)

escape_n : Turns (10 ∷ []) (92 ∷ 110 ∷ []) (piece 0 4) (piece 0 5)
unfolding piece replace_from rank letter
escape_n c rest h = ground (arith, h)

escape_r : Turns (13 ∷ []) (92 ∷ 114 ∷ []) (piece 0 5) (piece 0 6)
unfolding piece replace_from rank letter
escape_r c rest h = ground (arith, h)

escape_t : Turns (9 ∷ []) (92 ∷ 116 ∷ []) (piece 0 6) (piece 0 7)
unfolding piece replace_from rank letter
escape_t c rest h = ground (arith, h)

unescape_slash : Turns (92 ∷ 47 ∷ []) (47 ∷ []) (piece 0 7) (piece 1 7)
unfolding piece replace_from rank letter
unescape_slash c rest h = ground (arith, h)

unescape_quote : Turns (92 ∷ 34 ∷ []) (34 ∷ []) (piece 1 7) (piece 2 7)
unfolding piece replace_from rank letter
unescape_quote c rest h = ground (arith, h)

unescape_b : Turns (92 ∷ 98 ∷ []) (8 ∷ []) (piece 2 7) (piece 3 7)
unfolding piece replace_from rank letter
unescape_b c rest h = ground (arith, h)

unescape_f : Turns (92 ∷ 102 ∷ []) (12 ∷ []) (piece 3 7) (piece 4 7)
unfolding piece replace_from rank letter
unescape_f c rest h = ground (arith, h)

unescape_n : Turns (92 ∷ 110 ∷ []) (10 ∷ []) (piece 4 7) (piece 5 7)
unfolding piece replace_from rank letter
unescape_n c rest h = ground (arith, h)

unescape_r : Turns (92 ∷ 114 ∷ []) (13 ∷ []) (piece 5 7) (piece 6 7)
unfolding piece replace_from rank letter
unescape_r c rest h = ground (arith, h)

unescape_t : Turns (92 ∷ 116 ∷ []) (9 ∷ []) (piece 6 7) (piece 7 7)
unfolding piece replace_from rank letter
unescape_t c rest h = ground (arith, h)

unescape_backslash : Turns (92 ∷ 92 ∷ []) (92 ∷ []) (piece 7 7) (piece 7 7)
unfolding piece replace_from rank letter
unescape_backslash c rest h = ground (arith, h)

module _ (t : Text) (plain : All IsPlain t) where
  turn :
      (search replacement : Text) (e e' : ℕ → Text)
      → Turns search replacement e e'
      → string_replace search replacement (flat e t) ≡ replace_from search replacement 0 (flat e t)
      → string_replace search replacement (flat e t) ≡ flat e' t
  turn search replacement e e' step same =
      same ∙ replace_from-flat search replacement e e' IsPlain step t plain

flat-single : (e : ℕ → Text) → ((c : ℕ) → e c ≡ c ∷ []) → (t : Text) → flat e t ≡ t
unfolding flat
flat-single e h [] = refl
flat-single e h (c ∷ t) = ap (λ x. x ++ flat e t) (h c) ∙ ap (◌∷◌ c) (flat-single e h t)

piece_none : (c : ℕ) → piece 0 0 c ≡ c ∷ []
unfolding piece
piece_none c = ground arith

piece_done : (c : ℕ) → piece 7 7 c ≡ c ∷ []
unfolding piece rank
piece_done c = ground arith

escape_string-flat :
    (t : Text) → All IsPlain t → escape_string (flat (piece 0 0) t) ≡ flat (piece 0 7) t
unfolding escape_string string_replace same_text
escape_string-flat t h =
    ap
      (λ (x : Text). string_replace (9 ∷ []) (92 ∷ 116 ∷ []) (
        string_replace (13 ∷ []) (92 ∷ 114 ∷ []) (
          string_replace (10 ∷ []) (92 ∷ 110 ∷ []) (
            string_replace (12 ∷ []) (92 ∷ 102 ∷ []) (
              string_replace (8 ∷ []) (92 ∷ 98 ∷ []) (
                string_replace (34 ∷ []) (92 ∷ 34 ∷ [])
                  (string_replace (47 ∷ []) (92 ∷ 47 ∷ []) x)))))))
      (turn t h (92 ∷ []) (92 ∷ 92 ∷ []) (piece 0 0) (piece 0 0) escape_backslash refl)
    ∙ ap
        (λ (x : Text). string_replace (9 ∷ []) (92 ∷ 116 ∷ []) (
          string_replace (13 ∷ []) (92 ∷ 114 ∷ []) (
            string_replace (10 ∷ []) (92 ∷ 110 ∷ []) (
              string_replace (12 ∷ []) (92 ∷ 102 ∷ []) (
                string_replace (8 ∷ []) (92 ∷ 98 ∷ [])
                  (string_replace (34 ∷ []) (92 ∷ 34 ∷ []) x))))))
        (turn t h (47 ∷ []) (92 ∷ 47 ∷ []) (piece 0 0) (piece 0 1) escape_slash refl)
    ∙ ap
        (λ (x : Text). string_replace (9 ∷ []) (92 ∷ 116 ∷ []) (
          string_replace (13 ∷ []) (92 ∷ 114 ∷ []) (
            string_replace (10 ∷ []) (92 ∷ 110 ∷ []) (
              string_replace (12 ∷ []) (92 ∷ 102 ∷ [])
                (string_replace (8 ∷ []) (92 ∷ 98 ∷ []) x)))))
        (turn t h (34 ∷ []) (92 ∷ 34 ∷ []) (piece 0 1) (piece 0 2) escape_quote refl)
    ∙ ap
        (λ (x : Text). string_replace (9 ∷ []) (92 ∷ 116 ∷ []) (
          string_replace (13 ∷ []) (92 ∷ 114 ∷ []) (
            string_replace (10 ∷ []) (92 ∷ 110 ∷ []) (string_replace (12 ∷ []) (92 ∷ 102 ∷ []) x))))
        (turn t h (8 ∷ []) (92 ∷ 98 ∷ []) (piece 0 2) (piece 0 3) escape_b refl)
    ∙ ap
        (λ (x : Text).
          string_replace (9 ∷ []) (92 ∷ 116 ∷ [])
            (string_replace (13 ∷ []) (92 ∷ 114 ∷ []) (string_replace (10 ∷ []) (92 ∷ 110 ∷ []) x)))
        (turn t h (12 ∷ []) (92 ∷ 102 ∷ []) (piece 0 3) (piece 0 4) escape_f refl)
    ∙ ap
        (λ (x : Text).
          string_replace (9 ∷ []) (92 ∷ 116 ∷ []) (string_replace (13 ∷ []) (92 ∷ 114 ∷ []) x))
        (turn t h (10 ∷ []) (92 ∷ 110 ∷ []) (piece 0 4) (piece 0 5) escape_n refl)
    ∙ ap (λ (x : Text). string_replace (9 ∷ []) (92 ∷ 116 ∷ []) x)
        (turn t h (13 ∷ []) (92 ∷ 114 ∷ []) (piece 0 5) (piece 0 6) escape_r refl)
    ∙ turn t h (9 ∷ []) (92 ∷ 116 ∷ []) (piece 0 6) (piece 0 7) escape_t refl

unescape_string-flat :
    (t : Text) → All IsPlain t → unescape_string (flat (piece 0 7) t) ≡ flat (piece 7 7) t
unfolding unescape_string string_replace same_text
unescape_string-flat t h =
    ap
      (λ (x : Text). string_replace (92 ∷ 92 ∷ []) (92 ∷ []) (
        string_replace (92 ∷ 116 ∷ []) (9 ∷ []) (
          string_replace (92 ∷ 114 ∷ []) (13 ∷ []) (
            string_replace (92 ∷ 110 ∷ []) (10 ∷ []) (
              string_replace (92 ∷ 102 ∷ []) (12 ∷ []) (
                string_replace (92 ∷ 98 ∷ []) (8 ∷ [])
                  (string_replace (92 ∷ 34 ∷ []) (34 ∷ []) x)))))))
      (turn t h (92 ∷ 47 ∷ []) (47 ∷ []) (piece 0 7) (piece 1 7) unescape_slash refl)
    ∙ ap
        (λ (x : Text). string_replace (92 ∷ 92 ∷ []) (92 ∷ []) (
          string_replace (92 ∷ 116 ∷ []) (9 ∷ []) (
            string_replace (92 ∷ 114 ∷ []) (13 ∷ []) (
              string_replace (92 ∷ 110 ∷ []) (10 ∷ []) (
                string_replace (92 ∷ 102 ∷ []) (12 ∷ [])
                  (string_replace (92 ∷ 98 ∷ []) (8 ∷ []) x))))))
        (turn t h (92 ∷ 34 ∷ []) (34 ∷ []) (piece 1 7) (piece 2 7) unescape_quote refl)
    ∙ ap
        (λ (x : Text). string_replace (92 ∷ 92 ∷ []) (92 ∷ []) (
          string_replace (92 ∷ 116 ∷ []) (9 ∷ []) (
            string_replace (92 ∷ 114 ∷ []) (13 ∷ []) (
              string_replace (92 ∷ 110 ∷ []) (10 ∷ [])
                (string_replace (92 ∷ 102 ∷ []) (12 ∷ []) x)))))
        (turn t h (92 ∷ 98 ∷ []) (8 ∷ []) (piece 2 7) (piece 3 7) unescape_b refl)
    ∙ ap
        (λ (x : Text). string_replace (92 ∷ 92 ∷ []) (92 ∷ []) (
          string_replace (92 ∷ 116 ∷ []) (9 ∷ []) (
            string_replace (92 ∷ 114 ∷ []) (13 ∷ []) (string_replace (92 ∷ 110 ∷ []) (10 ∷ []) x))))
        (turn t h (92 ∷ 102 ∷ []) (12 ∷ []) (piece 3 7) (piece 4 7) unescape_f refl)
    ∙ ap
        (λ (x : Text).
          string_replace (92 ∷ 92 ∷ []) (92 ∷ [])
            (string_replace (92 ∷ 116 ∷ []) (9 ∷ []) (string_replace (92 ∷ 114 ∷ []) (13 ∷ []) x)))
        (turn t h (92 ∷ 110 ∷ []) (10 ∷ []) (piece 4 7) (piece 5 7) unescape_n refl)
    ∙ ap
        (λ (x : Text).
          string_replace (92 ∷ 92 ∷ []) (92 ∷ []) (string_replace (92 ∷ 116 ∷ []) (9 ∷ []) x))
        (turn t h (92 ∷ 114 ∷ []) (13 ∷ []) (piece 5 7) (piece 6 7) unescape_r refl)
    ∙ ap (λ (x : Text). string_replace (92 ∷ 92 ∷ []) (92 ∷ []) x)
        (turn t h (92 ∷ 116 ∷ []) (9 ∷ []) (piece 6 7) (piece 7 7) unescape_t refl)
    ∙ turn t h (92 ∷ 92 ∷ []) (92 ∷ []) (piece 7 7) (piece 7 7) unescape_backslash refl

-- A text without a backslash comes back from its escaped form.
pub unescape_string-escape_string :
    (t : Text) → All (λ c. c ≢ 92) t → unescape_string (escape_string t) ≡ t
unescape_string-escape_string t h =
    ap (λ x. unescape_string (escape_string x)) (sym (flat-single (piece 0 0) piece_none t))
    ∙ ap unescape_string (escape_string-flat t h)
    ∙ unescape_string-flat t h
    ∙ flat-single (piece 7 7) piece_done t

-- The escaped form is that of the pieces.
pub escape_string-pieces : (t : Text) → All (λ c. c ≢ 92) t → escape_string t ≡ flat (piece 0 7) t
escape_string-pieces t h =
    ap escape_string (sym (flat-single (piece 0 0) piece_none t)) ∙ escape_string-flat t h

-- What the escaped form of a byte is: itself, which is no quote, or a backslash and a letter.
pub piece-cases :
    (c : ℕ)
    → c ≢ 92
    → ((piece 0 7 c ≡ c ∷ []) × (c ≢ 34)) ⊎ ((l : ℕ) × (piece 0 7 c ≡ 92 ∷ l ∷ []) × (l ≢ 92))
unfolding piece rank letter
piece-cases c h = elim (Bool-cases (leb 0 (rank c) && ltb (rank c) 7)) [
  | inl e ↦ inr (letter c, ground (arith, e), λ f. absurd (ground (arith, e, f)))
  | inr e ↦ inl (ground (arith, e), λ f. absurd (ground (arith, e, f)))
]
