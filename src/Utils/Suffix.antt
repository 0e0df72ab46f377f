-- ===== src/Utils/Suffix.antt =====
-- `string_ends_with` of src/common/common_utils.cpp.
use rtc_client.Common.{
  ◌↔◌, ◌≤◌, Bool-cases, ltb, ℕ, suc, ◌+◌, ◌-◌, ◌<◌, ◌≡◌, refl, Bool, true, false, Option,
  Option-cases, none, some, [], ◌∷◌, ◌++◌, length, length-append, ◌==◌, if◌then◌else◌, arith, inl,
  inr, ap, sym, ◌∙◌,
}
use rtc_client.Common.Text.{Text, is_empty}
use rtc_client.Utils.{is_prefix}

-- `str.rfind(substr)`: the last position at which `substr` stands.
unfoldable pub rfind : Text → Text → Option ℕ
rfind substr [] = if is_empty substr then some 0 else none
rfind substr (c ∷ s) = elim (rfind substr s) [
  | some p ↦ some (suc p)
  | none ↦ if is_prefix substr (c ∷ s) then some 0 else none
]

-- What is found is not longer than the text, so the difference does not wrap around.
unfoldable pub string_ends_with : Text → Text → Bool
unfolding rfind
string_ends_with str substr = elim (rfind substr str) [
  | none ↦ false
  | some p ↦ p == length str - length substr
]

is_prefix_long : (substr s : Text) → length s < length substr → is_prefix substr s ≡ false
is_prefix_long [] s h = absurd (omega (arith, h))
is_prefix_long (a ∷ xs) [] h = refl
is_prefix_long (a ∷ xs) (c ∷ s) h = ground (arith, is_prefix_long xs s (omega (arith, h)))

is_prefix_self : (s : Text) → is_prefix s s ≡ true
is_prefix_self [] = refl
is_prefix_self (c ∷ s) = ground (arith, is_prefix_self s)

is_prefix_same :
    (substr s : Text) → is_prefix substr s ≡ true → length s ≡ length substr → s ≡ substr
is_prefix_same [] [] h k = refl
is_prefix_same [] (c ∷ s) h k = absurd (omega (arith, k))
is_prefix_same (a ∷ xs) [] h k = absurd (ground (arith, h))
is_prefix_same (a ∷ xs) (c ∷ s) h k =
    let e : a ≡ c = ground (arith, h) in
    let rest : s ≡ xs = is_prefix_same xs s (ground (arith, h)) (omega (arith, k)) in
    sym (ap (λ x. x ∷ s) e) ∙ ap (λ x. a ∷ x) rest

rfind_long : (substr s : Text) → length s < length substr → rfind substr s ≡ none
unfolding rfind
rfind_long [] [] h = absurd (omega (arith, h))
rfind_long (a ∷ xs) [] h = refl
rfind_long substr (c ∷ s) h =
    rw (rfind_long substr s (omega (arith, h))) (rw (is_prefix_long substr (c ∷ s) h) refl)

rfind_self : (s : Text) → rfind s s ≡ some 0
unfolding rfind
rfind_self [] = refl
rfind_self (c ∷ s) = rw (rfind_long (c ∷ s) s (omega arith)) (rw (is_prefix_self (c ∷ s)) refl)

rfind-append : (pre substr : Text) → rfind substr (pre ++ substr) ≡ some (length pre)
unfolding rfind
rfind-append [] substr = rfind_self substr
rfind-append (c ∷ pre) substr = rw (rfind-append pre substr) refl

rfind_here :
    (substr s : Text) (c : ℕ)
    → rfind substr s ≡ none
    → rfind substr (c ∷ s) ≡ (if is_prefix substr (c ∷ s) then some 0 else none)
unfolding rfind
rfind_here substr s c nowhere = rw (rfind, nowhere) refl

rfind_later :
    (substr s : Text) (c q : ℕ) → rfind substr s ≡ some q → rfind substr (c ∷ s) ≡ some (suc q)
unfolding rfind
rfind_later substr s c q later = rw (rfind, later) refl

here_first : (b : Bool) (p : ℕ) → (if b then some 0 else none) ≡ some p → (b ≡ true) × (p ≡ 0)
here_first true p h = (refl, ground (arith, h))
here_first false p h = absurd (ground (arith, h))

-- Where the last position is the one at which `substr` ends the text, it does.
rfind_ends :
    (substr s : Text) (p : ℕ)
    → rfind substr s ≡ some p
    → p + length substr ≡ length s
    → (pre : Text) × (s ≡ pre ++ substr)
unfolding rfind
rfind_ends [] [] p h k = ([], refl)
rfind_ends (a ∷ xs) [] p h k = absurd (ground (arith, h))
rfind_ends substr (c ∷ s) p h k = elim (Option-cases (rfind substr s)) [
  | inl nowhere ↦
      let (starts, at_first) =
        here_first (is_prefix substr (c ∷ s)) p (sym (rfind_here substr s c nowhere) ∙ h) in
      ([], is_prefix_same substr (c ∷ s) starts (omega (arith, k, at_first)))
  | inr (q, later) ↦
      let e : some p ≡ some (suc q) = sym h ∙ rfind_later substr s c q later in
      let behind : p ≡ suc q = ground (arith, e) in
      let (pre, same) = rfind_ends substr s q later (omega (arith, k, behind)) in
      (c ∷ pre, ap (λ x. c ∷ x) same)
]

rfind_bound : (substr s : Text) (p : ℕ) → rfind substr s ≡ some p → length substr ≤ length s
rfind_bound substr s p h = elim (Bool-cases (ltb (length s) (length substr))) [
  | inl long ↦
      let e : none ≡ some p = sym (rfind_long substr s (ground (arith, long))) ∙ h in
      absurd (ground (arith, e))
  | inr fits ↦ ground (arith, fits)
]

string_ends_with-rfind :
    (str substr : Text) (p : ℕ)
    → rfind substr str ≡ some p
    → string_ends_with str substr ≡ (p == length str - length substr)
unfolding string_ends_with
string_ends_with-rfind str substr p h = rw (string_ends_with, h) refl

string_ends_with_nowhere :
    (str substr : Text) → rfind substr str ≡ none → string_ends_with str substr ≡ false
unfolding string_ends_with
string_ends_with_nowhere str substr h = rw (string_ends_with, h) refl

-- `string_ends_with` returns true at the texts that end with `substr`, and at no others.
pub string_ends_with-decides :
    (str substr : Text)
    → (string_ends_with str substr ≡ true) ↔ ((pre : Text) × (str ≡ pre ++ substr))
string_ends_with-decides str substr = (ended, found)
  where
    ended : string_ends_with str substr ≡ true → (pre : Text) × (str ≡ pre ++ substr)
    ended h = elim (Option-cases (rfind substr str)) [
      | inl nowhere ↦
          let e : false ≡ true = sym (string_ends_with_nowhere str substr nowhere) ∙ h in
          absurd (ground (arith, e))
      | inr (p, at) ↦
          let e : (p == length str - length substr) ≡ true =
            sym (string_ends_with-rfind str substr p at) ∙ h in
          rfind_ends substr str p at (ground (arith, e, rfind_bound substr str p at))
    ]

    found : ((pre : Text) × (str ≡ pre ++ substr)) → string_ends_with str substr ≡ true
    found (pre, e) =
        let at : rfind substr str ≡ some (length pre) =
          ap (rfind substr) e ∙ rfind-append pre substr in
        let size : length str ≡ length pre + length substr =
          ap length e ∙ length-append {0} pre substr in
        string_ends_with-rfind str substr (length pre) at ∙ ground (arith, size)
