-- ===== src/Utf8/Chars.antt =====
-- `next_char` takes a character off a text, and nothing else.
use rtc_client.Common.{
  ℕ, ◌+◌, ◌-◌, ◌*◌, ◌/◌, ◌%◌, ◌^◌, ◌≤◌, ◌<◌, ◌≡◌, ap, sym, ◌∙◌, subst, inl, inr, Bool-cases, none,
  some, List, ◌∷◌, ◌++◌, if◌then◌else◌, bit_and, arith, dec_lt,
}
use rtc_client.Utf8.{is_refused, masked, least, next_char, finish_char}
use rtc_client.Utf8.Scalars.{IsScalar, encode}
use rtc_client.Utf8.Leads.{bits_2, bits_3, bits_4, IsFurther, mask_2, mask_3, mask_4}
use rtc_client.Utf8.Reads.{
  next_char-lead, next_char-1, read-2, read-3, read-4, IsFine, not_refused, refused_not,
}

-- The code points that the bytes of a character stand for.
abbrev cp_2 : ℕ → ℕ → ℕ
cp_2 b c = (b - 192) * 64 + (c - 128)

abbrev cp_3 : ℕ → ℕ → ℕ → ℕ
cp_3 b c d = ((b - 224) * 64 + (c - 128)) * 64 + (d - 128)

abbrev cp_4 : ℕ → ℕ → ℕ → ℕ → ℕ
cp_4 b c d e = (((b - 240) * 64 + (c - 128)) * 64 + (d - 128)) * 64 + (e - 128)

-- The characters, by the number of their bytes.
module _ (b c d e : ℕ) (s : List ℕ) (hc : IsFurther c) (hd : IsFurther d) (he : IsFurther e) where
  next_char-2 :
      192 ≤ b → b < 224 → next_char b (c ∷ s) ≡ (if is_refused (cp_2 b c) 2 then none else some s)
  unfolding finish_char masked
  next_char-2 l u =
      let m : bit_and (bits_2 b c) 0xfff ≡ cp_2 b c =
        omega (arith, mask_2 b c d e (omega arith) hc hd he) in
      next_char-lead b (c ∷ s) l (omega arith) ∙ rw (read-2 b c d e s hc hd he l u) (rw m)

  next_char-3 :
      224 ≤ b
      → b < 240
      → next_char b (c ∷ d ∷ s) ≡ (if is_refused (cp_3 b c d) 3 then none else some s)
  unfolding finish_char masked
  next_char-3 l u =
      let m : bit_and (bits_3 b c d) 0x1ffff ≡ cp_3 b c d =
        omega (arith, mask_3 b c d e (omega arith) hc hd he) in
      next_char-lead b (c ∷ d ∷ s) (omega arith) (omega arith)
      ∙ rw (read-3 b c d e s hc hd he l u) (rw m)

  next_char-4 :
      240 ≤ b
      → b < 248
      → next_char b (c ∷ d ∷ e ∷ s) ≡ (if is_refused (cp_4 b c d e) 4 then none else some s)
  unfolding finish_char masked
  next_char-4 l u =
      let m : bit_and (bits_4 b c d e) 0x3fffff ≡ cp_4 b c d e =
        omega (arith, mask_4 b c d e (omega arith) hc hd he) in
      next_char-lead b (c ∷ d ∷ e ∷ s) (omega arith) (omega arith)
      ∙ rw (read-4 b c d e s hc hd he l u) (rw m)

module _ (v n : ℕ) (s : List ℕ) where
  taken :
      (cp : ℕ)
      → v ≡ cp
      → least n ≤ cp
      → IsScalar cp
      → (if is_refused v n then none else some s) ≡ some s
  taken cp e l h = rw (refused_not v n (subst (λ x. IsFine x n) (sym e) (l, h.1, h.2, h.3)))

  taken-IsFine :
      (r : List ℕ) → (if is_refused v n then none else some s) ≡ some r → IsFine v n × (s ≡ r)
  taken-IsFine r h = elim (Bool-cases (is_refused v n)) [
    | inl bad ↦ absurd (none_some (rw bad at h))
    | inr fine ↦ (not_refused v n fine, some_eq (rw fine at h))
  ]
    where
      none_some : none ≡ some r → ⊥
      none_some e = cc

      some_eq : some s ≡ some r → s ≡ r
      some_eq e = cc

abbrev pub zero_bits : IsFurther 128
zero_bits = (omega arith, omega arith)

-- A character is taken off.
pub next_char-encode :
    (cp : ℕ) (s : List ℕ)
    → IsScalar cp
    → (b : ℕ) × (t : List ℕ) × (encode cp ++ s ≡ b ∷ t) × (0 < b) × (next_char b t ≡ some s)
unfolding least
next_char-encode cp s h = elim (dec_lt cp 0x80) [
  | yes p1 ↦ (cp, s, ground arith, h.0, next_char-1 cp s p1)
  | no p1 ↦ elim (dec_lt cp 0x800) [
    | yes p2 ↦ (
      0xc0 + cp / 64,
      (0x80 + cp % 64) ∷ s,
      ground arith,
      omega arith,
      next_char-2 (0xc0 + cp / 64) (0x80 + cp % 64) 128 128 s (omega arith, omega arith) zero_bits
            zero_bits (omega arith) (omega arith)
          ∙ taken _ 2 s cp (omega arith) (omega arith) h,
    )
    | no p2 ↦ elim (dec_lt cp 0x10000) [
      | yes p3 ↦ (
        0xe0 + cp / 4096,
        (0x80 + cp / 64 % 64) ∷ (0x80 + cp % 64) ∷ s,
        ground arith,
        omega arith,
        next_char-3 (0xe0 + cp / 4096) (0x80 + cp / 64 % 64) (0x80 + cp % 64) 128 s
              (omega arith, omega arith) (omega arith, omega arith) zero_bits (omega arith)
              (omega arith)
            ∙ taken _ 3 s cp (omega arith) (omega arith) h,
      )
      | no p3 ↦ (
        0xf0 + cp / 2 ^ 18,
        (0x80 + cp / 4096 % 64) ∷ (0x80 + cp / 64 % 64) ∷ (0x80 + cp % 64) ∷ s,
        ground arith,
        omega arith,
        next_char-4 (0xf0 + cp / 2 ^ 18) (0x80 + cp / 4096 % 64) (0x80 + cp / 64 % 64)
              (0x80 + cp % 64) s (omega arith, omega arith) (omega arith, omega arith)
              (omega arith, omega arith) (omega arith) (omega arith)
            ∙ taken _ 4 s cp (omega arith) (omega arith) h,
      )
    ]
  ]
]

-- What is taken off is a character.
abbrev pub Decoded : ℕ → List ℕ → List ℕ → Type 0
Decoded b s r = (cp : ℕ) × IsScalar cp × (b ∷ s ≡ encode cp ++ r)

module _ (b c d e : ℕ) (s r : List ℕ) (hc : IsFurther c) (hd : IsFurther d) (he : IsFurther e) where
  pub bytes_2-Decoded : 192 ≤ b → b < 224 → next_char b (c ∷ s) ≡ some r → Decoded b (c ∷ s) r
  unfolding least
  bytes_2-Decoded l u h =
      let (fine, tail) =
        taken-IsFine (cp_2 b c) 2 s r (sym (next_char-2 b c d e s hc hd he l u) ∙ h) in
      let bytes : b ∷ c ∷ s ≡ encode (cp_2 b c) ++ s = ground arith in
      (
        cp_2 b c,
        (omega arith, fine.1, fine.2, fine.3),
        bytes ∙ ap (λ t. encode (cp_2 b c) ++ t) tail,
      )

  pub bytes_3-Decoded :
      224 ≤ b → b < 240 → next_char b (c ∷ d ∷ s) ≡ some r → Decoded b (c ∷ d ∷ s) r
  unfolding least
  bytes_3-Decoded l u h =
      let (fine, tail) =
        taken-IsFine (cp_3 b c d) 3 s r (sym (next_char-3 b c d e s hc hd he l u) ∙ h) in
      let bytes : b ∷ c ∷ d ∷ s ≡ encode (cp_3 b c d) ++ s = ground arith in
      (
        cp_3 b c d,
        (omega arith, fine.1, fine.2, fine.3),
        bytes ∙ ap (λ t. encode (cp_3 b c d) ++ t) tail,
      )

  pub bytes_4-Decoded :
      240 ≤ b → b < 248 → next_char b (c ∷ d ∷ e ∷ s) ≡ some r → Decoded b (c ∷ d ∷ e ∷ s) r
  unfolding least
  bytes_4-Decoded l u h =
      let (fine, tail) =
        taken-IsFine (cp_4 b c d e) 4 s r (sym (next_char-4 b c d e s hc hd he l u) ∙ h) in
      let bytes : b ∷ c ∷ d ∷ e ∷ s ≡ encode (cp_4 b c d e) ++ s = ground arith in
      (
        cp_4 b c d e,
        (omega arith, fine.1, fine.2, fine.3),
        bytes ∙ ap (λ t. encode (cp_4 b c d e) ++ t) tail,
      )
