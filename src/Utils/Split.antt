-- ===== src/Utils/Split.antt =====
-- The pieces of `string_split`.
use rtc_client.Common.{
  ℕ, zero, suc, ◌-◌, ◌≤◌, ◌≡◌, refl, ap, ◌∙◌, sym, true, false, List, [], ◌∷◌, ◌++◌, drop, length,
  arith, append_assoc, append-nil, inl, inr, Bool-cases,
}
use rtc_client.Common.Text.{Text}
use rtc_client.Utils.{is_prefix, split_from, string_split}

-- Texts with a separator between each two.
unfoldable pub joined : Text → List Text → Text
joined seperator [] = []
joined seperator (x ∷ []) = x
joined seperator (x ∷ y ∷ ys) = x ++ (seperator ++ joined seperator (y ∷ ys))

-- A prefix with what stands behind it.
is_prefix-drop :
    (xs s : Text) → is_prefix xs s ≡ true → (s ≡ xs ++ drop (length xs) s) × (length xs ≤ length s)
is_prefix-drop [] s h = (refl, omega arith)
is_prefix-drop (x ∷ xs) [] h = absurd (ground (arith, h))
is_prefix-drop (x ∷ xs) (c ∷ s) h = ground (arith, h, is_prefix-drop xs s)

split_from-some :
    (sep : Text) (skip : ℕ) (piece s : Text)
    → (x : Text) × (xs : List Text) × (split_from sep skip piece s ≡ x ∷ xs)
unfolding split_from
split_from-some sep skip piece [] = (piece, [], refl)
split_from-some sep (suc skip) piece (c ∷ s) = split_from-some sep skip piece s
split_from-some sep zero piece (c ∷ s) = elim (Bool-cases (is_prefix sep (c ∷ s))) [
  | inl e ↦ (piece, split_from sep (length sep - 1) [] s, ground (arith, e))
  | inr e ↦
      let (x, xs, f) = split_from-some sep 0 (piece ++ (c ∷ [])) s in (x, xs, ground (arith, e, f))
]

joined-more :
    (sep x : Text) (ys : List Text) (y : Text) (rest : List Text)
    → ys ≡ y ∷ rest
    → joined sep (x ∷ ys) ≡ x ++ (sep ++ joined sep ys)
unfolding joined
joined-more sep x ys y rest e = rw e refl

split_from_skip :
    (sep : Text) (skip : ℕ) (piece s : Text) (c : ℕ)
    → split_from sep (suc skip) piece (c ∷ s) ≡ split_from sep skip piece s
unfolding split_from
split_from_skip sep skip piece s c = refl

split_from_hit :
    (sep piece s : Text) (c : ℕ)
    → is_prefix sep (c ∷ s) ≡ true
    → split_from sep 0 piece (c ∷ s) ≡ piece ∷ split_from sep (length sep - 1) [] s
unfolding split_from
split_from_hit sep piece s c e = ground (arith, e)

split_from_miss :
    (sep piece s : Text) (c : ℕ)
    → is_prefix sep (c ∷ s) ≡ false
    → split_from sep 0 piece (c ∷ s) ≡ split_from sep 0 (piece ++ (c ∷ [])) s
unfolding split_from
split_from_miss sep piece s c e = ground (arith, e)

joined-split_from :
    (a : ℕ) (r : Text) (skip : ℕ) (piece s : Text)
    → skip ≤ length s
    → joined (a ∷ r) (split_from (a ∷ r) skip piece s) ≡ piece ++ drop skip s
joined-split_from a r zero piece [] le = unfold split_from joined in sym (append-nil piece)
joined-split_from a r (suc skip) piece [] le = absurd (omega arith)
joined-split_from a r (suc skip) piece (c ∷ s) le =
    ap (joined (a ∷ r)) (split_from_skip (a ∷ r) skip piece s c)
    ∙ joined-split_from a r skip piece s (omega arith)
joined-split_from a r zero piece (c ∷ s) le = elim (Bool-cases (is_prefix (a ∷ r) (c ∷ s))) [
  | inl e ↦
      let (whole, short) = is_prefix-drop (a ∷ r) (c ∷ s) e in
      let one_less : length (a ∷ r) - 1 ≡ length r = omega arith in
      let (x, xs, f) = split_from-some (a ∷ r) (length (a ∷ r) - 1) [] s in
      ap (joined (a ∷ r)) (split_from_hit (a ∷ r) piece s c e)
      ∙ joined-more (a ∷ r) piece (split_from (a ∷ r) (length (a ∷ r) - 1) [] s) x xs f
      ∙ ap (λ n. piece ++ ((a ∷ r) ++ joined (a ∷ r) (split_from (a ∷ r) n [] s))) one_less
      ∙ ap (λ t. piece ++ ((a ∷ r) ++ t)) (joined-split_from a r (length r) [] s (omega arith))
      ∙ ap (◌++◌ piece) (sym whole)
  | inr e ↦
      ap (joined (a ∷ r)) (split_from_miss (a ∷ r) piece s c e)
      ∙ joined-split_from a r zero (piece ++ (c ∷ [])) s (omega arith)
      ∙ append_assoc piece (c ∷ []) s
]

-- The pieces of `string_split`, with the separator between each two, are the text again.
pub joined-string_split :
    (str seperator : Text) → joined seperator (string_split str seperator) ≡ str
unfolding string_split
joined-string_split str [] = unfold joined in refl
joined-string_split str (a ∷ r) = joined-split_from a r 0 [] str (omega arith)
