-- ===== src/Utf8/Accepted.antt =====
-- `is_utf8_chars` accepts the texts of characters and nothing else, and ends.
use rtc_client.Common.{
  ℕ, zero, suc, ◌≤◌, ◌<◌, ◌≡◌, refl, ap, sym, ◌∙◌, subst, ◌↔◌, ◌≢◌, ◌⊎◌, true, false, Option-cases,
  inl, inr, none, some, List, [], ◌∷◌, ◌++◌, arith, length, All, length-append,
}
use rtc_client.Utf8.{next_char, chars_loop, is_utf8_chars}
use rtc_client.Utf8.Scalars.{IsScalar, encode, encode_all}
use rtc_client.Utf8.Chars.{next_char-encode}
use rtc_client.Utf8.Decoded.{next_char-Decoded}

-- A byte of a text, which the byte 0 ends.
abbrev pub IsChar : ℕ → Type 0
IsChar b = (0 < b) × (b < 256)

abbrev pub Encodes : List ℕ → Type 0
Encodes s = (cs : List ℕ) × All IsScalar cs × (s ≡ encode_all cs)

length-encode : (cp : ℕ) → 1 ≤ length (encode cp)
length-encode cp = ground arith

-- The loop at a character, at a return of false, and at what is no text.
loop_step :
    (fuel b : ℕ) (t rest : List ℕ)
    → 0 < b
    → next_char b t ≡ some rest
    → chars_loop (suc fuel) (b ∷ t) ≡ chars_loop fuel rest
unfolding chars_loop
loop_step fuel b t rest pos h = rw h (ground arith)

loop_false :
    (fuel b : ℕ) (t : List ℕ)
    → 0 < b
    → next_char b t ≡ none
    → chars_loop (suc fuel) (b ∷ t) ≡ some false
unfolding chars_loop
loop_false fuel b t pos h = rw h (ground arith)

-- The characters are accepted, with as much fuel as there are bytes.
encode_all-accepted :
    (fuel : ℕ) (cs s : List ℕ)
    → All IsScalar cs
    → s ≡ encode_all cs
    → length s ≤ fuel
    → chars_loop fuel s ≡ some true
unfolding chars_loop
encode_all-accepted fuel [] s h e small = rw e refl
encode_all-accepted zero (c ∷ cs) s h e small =
    absurd (omega (arith, ap length e, length-append (encode c) (encode_all cs), length-encode c))
encode_all-accepted (suc fuel) (c ∷ cs) s h e small =
    let (b, t, eq, pos, next) = next_char-encode c (encode_all cs) h.0 in
    let shorter : length (encode_all cs) ≤ fuel =
      omega (arith, ap length e, length-append (encode c) (encode_all cs), length-encode c) in
    subst (λ x. chars_loop (suc fuel) x ≡ some true) (sym (e ∙ eq))
      (loop_step fuel b t (encode_all cs) pos next
        ∙ encode_all-accepted fuel cs (encode_all cs) h.1 refl shorter)

All-behind : (xs ys : List ℕ) → All IsChar (xs ++ ys) → All IsChar ys
All-behind [] ys h = h
All-behind (x ∷ xs) ys h = All-behind xs ys h.1

-- The loop ends, and where it accepts, it has taken characters.
IsDecided : ℕ → List ℕ → Type 0
IsDecided fuel s = (chars_loop fuel s ≡ some false) ⊎ ((chars_loop fuel s ≡ some true) × Encodes s)

loop-IsDecided : (fuel : ℕ) (s : List ℕ) → All IsChar s → length s ≤ fuel → IsDecided fuel s
unfolding chars_loop IsDecided
loop-IsDecided fuel [] h small = inr (refl, ([], tt, refl))
loop-IsDecided zero (b ∷ s) h small = absurd (omega arith)
loop-IsDecided (suc fuel) (b ∷ s) h small = elim (Option-cases (next_char b s)) [
  | inl bad ↦ inl (loop_false fuel b s h.0.0 bad)
  | inr (r, next) ↦
      let (cp, scalar, eq) = next_char-Decoded b s r next h.0.0 h.0.1 in
      let shorter : length r ≤ fuel =
        omega (arith, ap length eq, length-append (encode cp) r, length-encode cp) in
      let chars : All IsChar r = All-behind (encode cp) r (subst (All IsChar) eq h) in
      let step = loop_step fuel b s r h.0.0 next in
      elim (loop-IsDecided fuel r chars shorter) [
        | inl bad ↦ inl (step ∙ bad)
        | inr (fine, (cs, all, er)) ↦
            inr (step ∙ fine, (cp ∷ cs, (scalar, all), eq ∙ ap (λ x. encode cp ++ x) er))
      ]
]

pub is_utf8_chars_iff :
    (s : List ℕ)
    → All IsChar s
    → (is_utf8_chars s ≢ none) × ((is_utf8_chars s ≡ some true) ↔ Encodes s)
unfolding is_utf8_chars IsDecided
is_utf8_chars_iff s h =
    let back =
      λ (enc : Encodes s). encode_all-accepted (length s) enc.0 s enc.1 enc.2 (omega arith) in
    elim (loop-IsDecided (length s) s h (omega arith)) [
      | inl bad ↦ (λ e. cc, (λ e. absurd (false_true (sym bad ∙ e)), back))
      | inr (fine, enc) ↦ (λ e. cc, (λ e. enc, back))
    ]
  where
    false_true : some false ≡ some true → ⊥
    false_true e = cc
