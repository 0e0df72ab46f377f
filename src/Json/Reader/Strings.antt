-- ===== src/Json/Reader/Strings.antt =====
-- Strings that were written are read.
use rtc_client.Common.{ℕ, ◌≡◌, ◌≢◌, refl, ap, ◌∙◌, sym, [], ◌∷◌, ◌++◌, All, arith, inl, inr}
use rtc_client.Common.Text.{Text}
use rtc_client.Utils.Replace.{flat}
use rtc_client.Json.{t_string}
use rtc_client.Json.Writer.{escape_string, unescape_string}
use rtc_client.Json.Writer.Escape.{
  piece, piece-cases, escape_string-pieces, unescape_string-escape_string,
}
use rtc_client.Json.Reader.{Read, done, refused, stuck, ◌>>=◌, find_quote, read_string}

find_quote-plain :
    (prev c : ℕ) (s : Text)
    → c ≢ 34
    → find_quote prev (c ∷ s) ≡ find_quote c s >>= λ text left. done (c ∷ text) left
unfolding find_quote
find_quote-plain prev c s h = ground (arith, h)

behind_backslash :
    (l : ℕ) (s : Text)
    → find_quote 92 (l ∷ s) ≡ find_quote l s >>= λ text left. done (l ∷ text) left
unfolding find_quote
behind_backslash l s = ground arith

two_bytes :
    (l : ℕ) (r : Read Text)
    → ((r >>= λ text left. done (l ∷ text) left) >>= λ text left. done (92 ∷ text) left)
      ≡ r >>= λ text left. done (92 ∷ l ∷ text) left
unfolding ◌>>=◌
two_bytes l (done text left) = refl
two_bytes l refused = refl
two_bytes l stuck = refl

find_quote-escaped :
    (prev l : ℕ) (s : Text)
    → find_quote prev (92 ∷ l ∷ s) ≡ find_quote l s >>= λ text left. done (92 ∷ l ∷ text) left
find_quote-escaped prev l s =
    find_quote-plain prev 92 (l ∷ s) (λ e. absurd (omega (arith, e)))
    ∙ ap (λ r. r >>= λ text left. done (92 ∷ text) left) (behind_backslash l s)
    ∙ two_bytes l (find_quote l s)

find_quote-pieces :
    (prev : ℕ) (t rest : Text)
    → prev ≢ 92
    → All (λ c. c ≢ 92) t
    → find_quote prev (flat (piece 0 7) t ++ (34 ∷ rest)) ≡ done (flat (piece 0 7) t) rest
unfolding find_quote flat ◌>>=◌
find_quote-pieces prev [] rest p h = ground (arith, p)
find_quote-pieces prev (c ∷ t) rest p (h, hs) = elim (piece-cases c h) [
  | inl (e, q) ↦ rw e (
      find_quote-plain prev c (flat (piece 0 7) t ++ (34 ∷ rest)) q
      ∙ ap (λ r. r >>= λ text left. done (c ∷ text) left) (find_quote-pieces c t rest h hs))
  | inr (l, e, q) ↦ rw e (
      find_quote-escaped prev l (flat (piece 0 7) t ++ (34 ∷ rest))
      ∙ ap (λ r. r >>= λ text left. done (92 ∷ l ∷ text) left) (find_quote-pieces l t rest q hs))
]

read_string-quoted :
    (s text rest : Text)
    → find_quote 34 s ≡ done text rest
    → read_string (34 ∷ s) ≡ done (t_string (unescape_string text)) rest
unfolding read_string ◌>>=◌
read_string-quoted [] text rest h = absurd (unfold find_quote in ground (arith, h))
read_string-quoted (c ∷ s) text rest h = rw h refl

-- A text without a backslash that is written as a string, as `write_to_string` does, is read back
-- whole, whatever stands behind it; its quotes, slashes and control bytes come back as they were.
pub read_string-escape_string :
    (t rest : Text)
    → All (λ c. c ≢ 92) t
    → read_string (34 ∷ (escape_string t ++ (34 ∷ rest))) ≡ done (t_string t) rest
read_string-escape_string t rest h =
    read_string-quoted (escape_string t ++ (34 ∷ rest)) (escape_string t) rest (
      ap (λ x. find_quote 34 (x ++ (34 ∷ rest))) (escape_string-pieces t h)
      ∙ find_quote-pieces 34 t rest (λ e. absurd (omega (arith, e))) h
      ∙ ap (λ x. done x rest) (sym (escape_string-pieces t h)))
    ∙ ap (λ x. done (t_string x) rest) (unescape_string-escape_string t h)
