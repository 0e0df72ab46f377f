-- ===== src/Json/Reader/Ends.antt =====
-- The readers of values without a bracket come to an end.
use rtc_client.Common.{
  ℕ, ◌≤◌, ◌<◌, ◌≡◌, refl, Bool, true, false, not, ◌&&◌, ◌||◌, [], ◌∷◌, ◌==◌, length, length-drop,
  arith, if◌then◌else◌,
}
use rtc_client.Common.Text.{Text, ascii, is_empty}
use rtc_client.Utils.{is_digit}
use rtc_client.Json.Reader.{
  Read, done, refused, stuck, ◌>>=◌, read_whitespace, first_of, read_delimiter, find_quote,
  read_string, number_text, read_number, read_bool, read_null, read_plain,
}

-- A result was reached, and less than `n` bytes are left.
abbrev pub Ends {ℓ} : {A : Type ℓ} → ℕ → Read A → Type 0
Ends n (done a left) = length left < n
Ends n refused = Unit {0}
Ends n stuck = ⊥

pub Ends-bind {ℓ ℓ'} :
    {A : Type ℓ} {B : Type ℓ'} (n m : ℕ) (r : Read A) (f : A → Text → Read B)
    → Ends n r
    → ((a : A) (left : Text) → length left < n → Ends m (f a left))
    → Ends m (r >>= f)
unfolding ◌>>=◌
Ends-bind n m (done a left) f h k = k a left h
Ends-bind n m refused f h k = tt
Ends-bind n m stuck f h k = absurd h

pub Ends-more {ℓ} : {A : Type ℓ} (n m : ℕ) (r : Read A) → n ≤ m → Ends n r → Ends m r
Ends-more n m (done a left) le h = omega arith
Ends-more n m refused le h = tt
Ends-more n m stuck le h = absurd h

pub Ends-if {ℓ} :
    {A : Type ℓ} (n : ℕ) (b : Bool) (x y : Read A)
    → (b ≡ true → Ends n x)
    → (b ≡ false → Ends n y)
    → Ends n (if b then x else y)
Ends-if n true x y h k = h refl
Ends-if n false x y h k = k refl

pub Ends-elim {ℓ} :
    {A : Type ℓ} (n : ℕ) (b : Bool) (x y : Read A)
    → Ends n x
    → Ends n y
    → Ends n (elim b [ true ↦ x | false ↦ y ])
Ends-elim n true x y h k = h
Ends-elim n false x y h k = k

pub length-read_whitespace : (s : Text) → length (read_whitespace s) ≤ length s
unfolding read_whitespace
length-read_whitespace [] = omega arith
length-read_whitespace (c ∷ s) = ground (arith, length-read_whitespace s)

first_of-Ends : (s : Text) → Ends (length s) (first_of s)
unfolding first_of
first_of-Ends [] = tt
first_of-Ends (c ∷ s) = omega (arith, length-read_whitespace s)

pub read_delimiter-Ends : (s : Text) → Ends (length s) (read_delimiter s)
unfolding read_delimiter
read_delimiter-Ends s =
    Ends-more (length (read_whitespace s)) (length s) (first_of (read_whitespace s))
      (length-read_whitespace s) (first_of-Ends (read_whitespace s))

find_quote-Ends : (prev : ℕ) (s : Text) → Ends (length s) (find_quote prev s)
unfolding find_quote
find_quote-Ends prev [] = tt
find_quote-Ends prev (c ∷ s) =
    Ends-if (length (c ∷ s)) (c == 34 && not (prev == b'\\')) _ _ (λ e. omega arith)
      λ e.
        Ends-bind (length s) (length (c ∷ s)) (find_quote c s) _ (find_quote-Ends c s)
          λ text left h. omega (arith, h)

read_string-Ends : (s : Text) → Ends (length s) (read_string s)
unfolding read_string
read_string-Ends [] = tt
read_string-Ends (c ∷ s) =
    Ends-if (length (c ∷ s)) (is_empty s) _ _ (λ e. tt)
      λ e.
        Ends-if (length (c ∷ s)) (not (c == 34)) _ _ (λ f. tt)
          λ f.
            Ends-bind (length s) (length (c ∷ s)) (find_quote c s) _ (find_quote-Ends c s)
              λ text left h. omega (arith, h)

number_text-some :
    (s : Text) → is_empty (number_text s) ≡ false → (0 < length (number_text s)) × (0 < length s)
unfolding number_text
number_text-some [] h = ground (arith, h)
number_text-some (c ∷ s) h = ground (arith, h)

read_number-Ends :
    (double_texts : Text → Text × Text) (s : Text) → Ends (length s) (read_number double_texts s)
unfolding read_number
read_number-Ends double_texts s =
    ground (arith, number_text-some s, length-drop (length (number_text s)) s)

read_bool-Ends :
    (wanted : Text) (b : Bool) (s : Text)
    → 0 < length wanted
    → Ends (length s) (read_bool wanted b s)
unfolding read_bool
read_bool-Ends wanted b s h = ground (arith, h, length-drop (length wanted) s)

read_null-Ends : (s : Text) → Ends (length s) (read_null s)
unfolding read_null
read_null-Ends s = ground (arith, length-drop 4 s)

pub read_plain-Ends :
    (double_texts : Text → Text × Text) (c : ℕ) (s : Text)
    → Ends (length s) (read_plain double_texts c s)
unfolding read_plain ascii
read_plain-Ends double_texts c s =
    let n : ℕ = length s in
    Ends-if n (c == 34) _ _ (λ e. read_string-Ends s)
      λ e.
        Ends-if n (c == b'-' || is_digit c) _ _ (λ f. read_number-Ends double_texts s)
          λ f.
            Ends-if n (c == b't' || c == b'T') _ _
              (λ g. read_bool-Ends (ascii "true") true s (omega arith))
              λ g.
                Ends-if n (c == b'f' || c == b'F') _ _
                  (λ h. read_bool-Ends (ascii "false") false s (omega arith))
                  λ h. Ends-if n (c == b'n' || c == b'N') _ _ (λ i. read_null-Ends s) λ i. tt
