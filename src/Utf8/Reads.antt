-- ===== src/Utf8/Reads.antt =====
-- What `read_further` and `finish_char` make of the characters of one to four bytes.
use rtc_client.Common.{
  ℕ, ◌/◌, ◌≤◌, ◌<◌, ◌≡◌, ◌≢◌, refl, ◌∙◌, ◌⊎◌, inl, inr, Bool-cases, false, Option, none, some, List,
  ◌∷◌, bit_and, arith, dec_lt,
}
use rtc_client.Common.Bits.{and_0xc0, and_0x80, and_0x40, and_0x00, and_ones}
use rtc_client.Utf8.{Read, read_further, is_refused, masked, least, next_char, finish_char}
use rtc_client.Utf8.Leads.{
  further-stop, further-more, bits_2, bits_3, bits_4, IsFurther, test_2, test_3, test_4,
}

-- The first byte of a character of several bytes, and the loop behind it.
pub next_char-lead :
    (b : ℕ) (s : List ℕ) → 192 ≤ b → b < 254 → next_char b s ≡ finish_char (read_further b 0x40 1 s)
unfolding next_char
next_char-lead b s l u =
    let e : bit_and b 0x80 / 2 ≡ 0x40 = omega (arith, and_0x80 b (omega arith)) in
    rw e (ground (arith, and_0xc0 b (omega arith)))

module _ (b : ℕ) (s : List ℕ) where
  pub next_char-1 : b < 128 → next_char b s ≡ some s
  unfolding next_char finish_char masked is_refused least
  next_char-1 h =
      let top : bit_and b 0x80 / 2 ≡ 0 = omega (arith, and_0x80 b (omega arith)) in
      let stop : bit_and b 0 ≡ 0 = and_0x00 b (omega arith) in
      rw (top, further-stop b 0 1 s stop)
        (ground (arith, and_0xc0 b (omega arith), and_ones b (omega arith)))

-- The reads at the first bytes of characters of two, three and four bytes.
module _ (b c d e : ℕ) (s : List ℕ) (hc : IsFurther c) (hd : IsFurther d) (he : IsFurther e) where
  pub read-2 :
      192 ≤ b
      → b < 224
      → read_further b 0x40 1 (c ∷ s)
        ≡ some (record { codepoint = bits_2 b c; top = 0x800; bytes = 2; behind = s })
  read-2 l u =
      further-more b 0x40 1 c (bits_2 b c) s (omega (arith, and_0x40 b (omega arith))) hc.0 hc.1
        refl (omega arith)
      ∙ further-stop (bits_2 b c) 0x800 2 s (omega (arith, test_2 b c d e (omega arith) hc hd he))

  pub read-3 :
      224 ≤ b
      → b < 240
      → read_further b 0x40 1 (c ∷ d ∷ s)
        ≡ some (record { codepoint = bits_3 b c d; top = 0x10000; bytes = 3; behind = s })
  read-3 l u =
      further-more b 0x40 1 c (bits_2 b c) (d ∷ s) (omega (arith, and_0x40 b (omega arith))) hc.0
        hc.1 refl (omega arith)
      ∙ further-more (bits_2 b c) 0x800 2 d (bits_3 b c d) s
          (omega (arith, test_2 b c d e (omega arith) hc hd he)) hd.0 hd.1 refl (omega arith)
      ∙ further-stop (bits_3 b c d) 0x10000 3 s
          (omega (arith, test_3 b c d e (omega arith) hc hd he))

  pub read-4 :
      240 ≤ b
      → b < 248
      → read_further b 0x40 1 (c ∷ d ∷ e ∷ s)
        ≡ some (record { codepoint = bits_4 b c d e; top = 0x200000; bytes = 4; behind = s })
  read-4 l u =
      further-more b 0x40 1 c (bits_2 b c) (d ∷ e ∷ s) (omega (arith, and_0x40 b (omega arith)))
        hc.0 hc.1 refl (omega arith)
      ∙ further-more (bits_2 b c) 0x800 2 d (bits_3 b c d) (e ∷ s)
          (omega (arith, test_2 b c d e (omega arith) hc hd he)) hd.0 hd.1 refl (omega arith)
      ∙ further-more (bits_3 b c d) 0x10000 3 e (bits_4 b c d e) s
          (omega (arith, test_3 b c d e (omega arith) hc hd he)) he.0 he.1 refl (omega arith)
      ∙ further-stop (bits_4 b c d e) 0x200000 4 s
          (omega (arith, test_4 b c d e (omega arith) hc hd he))

pub finish_char-some :
    (o : Option Read) (t : List ℕ)
    → finish_char o ≡ some t
    → (r : Read) × (o ≡ some r) × (is_refused (masked r) r.bytes ≡ false) × (r.behind ≡ t)
unfolding finish_char
finish_char-some none t h = cc
finish_char-some (some r) t h = elim (Bool-cases (is_refused (masked r) r.bytes)) [
  | inl bad ↦ absurd (none_some (rw bad at h))
  | inr fine ↦ (r, refl, fine, some_eq (rw fine at h))
]
  where
    none_some : none ≡ some t → ⊥
    none_some e = cc

    some_eq : some r.behind ≡ some t → r.behind ≡ t
    some_eq e = cc

-- What is not refused.
abbrev pub IsFine : ℕ → ℕ → Type 0
IsFine cp n = (least n ≤ cp) × (cp < 0x110000) × (cp ≢ 0xfffe) × ((cp < 0xd800) ⊎ (0xdfff < cp))

pub not_refused : (cp n : ℕ) → is_refused cp n ≡ false → IsFine cp n
unfolding is_refused
not_refused cp n h = (
  ground arith,
  ground arith,
  λ e. ground arith,
  elim (dec_lt cp 0xd800) [ yes low ↦ inl low | no high ↦ inr (ground arith) ],
)

pub refused_not : (cp n : ℕ) → IsFine cp n → is_refused cp n ≡ false
unfolding is_refused
refused_not cp n h = ground (arith, h.2)
