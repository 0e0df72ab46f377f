-- ===== src/Utils/Decimal.antt =====
-- Numbers through their decimal digits.
use rtc_client.Common.{
  ℕ, zero, suc, ◌+◌, ◌-◌, ◌*◌, ◌/◌, ◌%◌, ◌^◌, ◌≤◌, ◌<◌, ◌≡◌, refl, ◌∙◌, sym, ap, true, false, [],
  ◌∷◌, ◌++◌, ◌==◌, arith, dec_lt, append_assoc,
}
use rtc_client.Common.Text.{Text}
use rtc_client.Utils.{
  ℤ, pos, negsuc, digits, common_to_string, is_digit, is_space, read_digits, signed_long, read_long,
  string_trim_start, string_to_long, string_to_int, to_int, to_unsigned,
}

-- The text does not go on with a digit.
abbrev pub EndsDigits : Text → Type 0
EndsDigits [] = Unit {0}
EndsDigits (c ∷ s) = is_digit c ≡ false

read_digits-stop : (n : ℕ) (rest : Text) → EndsDigits rest → read_digits n rest ≡ n
unfolding read_digits
read_digits-stop n [] h = refl
read_digits-stop n (c ∷ s) h = ground (arith, h)

read_digits-step :
    (n d : ℕ) (s : Text) → d < 10 → read_digits n ((48 + d) ∷ s) ≡ read_digits (n * 10 + d) s
unfolding read_digits
read_digits-step n d s h =
    let back : 48 + d - 48 ≡ d = omega arith in
    let digit : is_digit (48 + d) ≡ true = ground (arith, h) in rw (digit, back) refl

digits-short : (fuel n : ℕ) → n < 10 → digits (suc fuel) n ≡ (48 + n) ∷ []
unfolding digits
digits-short fuel n h = ground (arith, h)

digits-long :
    (fuel n : ℕ) → 10 ≤ n → digits (suc fuel) n ≡ digits fuel (n / 10) ++ ((48 + n % 10) ∷ [])
unfolding digits
digits-long fuel n h = ground (arith, h)

-- Behind a number that was read in front.
read_digits-digits :
    (fuel n : ℕ) (rest : Text)
    → n < fuel
    → read_digits 0 (digits fuel n ++ rest) ≡ read_digits n rest
read_digits-digits zero n rest h = absurd (omega arith)
read_digits-digits (suc fuel) n rest h = elim (dec_lt n 10) [
  | yes small ↦
      rw (digits-short fuel n small)
        (read_digits-step 0 n rest small ∙ ap (λ k. read_digits k rest) {y = n} (omega arith))
  | no large ↦
      let whole : n / 10 * 10 + n % 10 ≡ n = omega arith in
      rw (digits-long fuel n (omega arith), append_assoc (digits fuel (n / 10)))
        (read_digits-digits fuel (n / 10) ((48 + n % 10) ∷ rest) (omega arith)
          ∙ read_digits-step (n / 10) (n % 10) rest (omega arith)
          ∙ ap (λ k. read_digits k rest) whole)
]

-- The first digit is a digit, so it is no space and no sign.
digits-first :
    (fuel n : ℕ) → n < fuel → (c : ℕ) × (s : Text) × (digits fuel n ≡ c ∷ s) × (is_digit c ≡ true)
digits-first zero n h = absurd (omega arith)
digits-first (suc fuel) n h = elim (dec_lt n 10) [
  | yes small ↦ (48 + n, [], digits-short fuel n small, ground (arith, small))
  | no large ↦
      let (c, s, e, d) = digits-first fuel (n / 10) (omega arith) in
      (
        c,
        s ++ ((48 + n % 10) ∷ []),
        digits-long fuel n (omega arith) ∙ ap (λ t. t ++ ((48 + n % 10) ∷ [])) e,
        d,
      )
]

string_to_long-digit :
    (c : ℕ) (s : Text)
    → is_digit c ≡ true
    → string_to_long (c ∷ s) ≡ signed_long false (read_digits 0 (c ∷ s))
unfolding string_to_long string_trim_start read_long
string_to_long-digit c s d =
    let space : is_space c ≡ false = ground (arith, d) in
    let minus : (c == 45) ≡ false = ground (arith, d) in
    let plus : (c == 43) ≡ false = ground (arith, d) in rw space (rw (minus, plus) refl)

string_to_long-minus : (s : Text) → string_to_long (45 ∷ s) ≡ signed_long true (read_digits 0 s)
unfolding string_to_long string_trim_start read_long
string_to_long-minus s = refl

string_to_long-digits :
    (n : ℕ) (rest : Text)
    → EndsDigits rest
    → string_to_long (digits (suc n) n ++ rest) ≡ signed_long false n
string_to_long-digits n rest h =
    let (c, s, e, d) = digits-first (suc n) n (omega arith) in
    ap (λ t. string_to_long (t ++ rest)) e
    ∙ string_to_long-digit c (s ++ rest) d
    ∙ ap (λ t. signed_long false (read_digits 0 (t ++ rest))) (sym e)
    ∙ ap (signed_long false)
        (read_digits-digits (suc n) n rest (omega arith) ∙ read_digits-stop n rest h)

-- The values of a `long`, and of an `int`.
abbrev pub IsLong : ℤ → Type 0
IsLong (pos n) = n < 2 ^ 63
IsLong (negsuc n) = n < 2 ^ 63

abbrev pub IsInt : ℤ → Type 0
IsInt (pos n) = n < 2 ^ 31
IsInt (negsuc n) = n < 2 ^ 31

-- A `long` comes back from its decimal text, whatever stands behind that, unless that goes on
-- with a digit.
pub string_to_long-common_to_string :
    (z : ℤ) (rest : Text)
    → IsLong z
    → EndsDigits rest
    → string_to_long (common_to_string z ++ rest) ≡ z
unfolding common_to_string signed_long
string_to_long-common_to_string (pos n) rest h k = string_to_long-digits n rest k ∙ ground arith
string_to_long-common_to_string (negsuc n) rest h k =
    string_to_long-minus (digits (suc (n + 1)) (n + 1) ++ rest)
    ∙ ap (signed_long true) {y = suc n} (
        read_digits-digits (suc (n + 1)) (n + 1) rest (omega arith)
        ∙ read_digits-stop (n + 1) rest k
        ∙ omega arith)
    ∙ stops n h
  where
    stops : (k : ℕ) → k < 2 ^ 63 → signed_long true (suc k) ≡ negsuc k
    stops k low = ground arith

to_int_lem : (z : ℤ) → IsInt z → to_int z ≡ z
unfolding to_int to_unsigned
to_int_lem (pos n) h = ground arith
to_int_lem (negsuc n) h = ground arith

IsInt-IsLong : (z : ℤ) → IsInt z → IsLong z
IsInt-IsLong (pos n) h = omega arith
IsInt-IsLong (negsuc n) h = omega arith

-- An `int` comes back from its decimal text.
pub string_to_int-common_to_string :
    (z : ℤ) (rest : Text)
    → IsInt z
    → EndsDigits rest
    → string_to_int (common_to_string z ++ rest) ≡ z
unfolding string_to_int
string_to_int-common_to_string z rest h k =
    ap to_int (string_to_long-common_to_string z rest (IsInt-IsLong z h) k) ∙ to_int_lem z h
