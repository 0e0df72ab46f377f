-- ===== src/Utf8/Decoded.antt =====
-- `next_char` takes nothing but a character off a text.
use rtc_client.Common.{
  ℕ, ◌-◌, ◌*◌, ◌^◌, ◌≤◌, ◌<◌, ◌≡◌, ap, sym, ◌∙◌, subst, inl, true, false, some, List, ◌∷◌, arith,
  dec_lt,
}
use native.Mathlib.Nat.{pow-le-pow_right}
use rtc_client.Common.Bits.{and_0xc0, and_0x40}
use rtc_client.Utf8.{Read, read_further, is_refused, masked, least, next_char}
use rtc_client.Utf8.Leads.{
  further-some, further-le, bits_2, bits_3, bits_4, IsFurther, test_2, test_3, test_4,
}
use rtc_client.Utf8.Reads.{next_char-lead, next_char-1, finish_char-some}
use rtc_client.Utf8.Chars.{Decoded, bytes_2-Decoded, bytes_3-Decoded, bytes_4-Decoded, zero_bits}

-- As many further bytes stand behind a first byte as its tests of the loop ask for.
abbrev pub Further : List ℕ → (ℕ → List ℕ → Type 0) → Type 0
Further s P = (c : ℕ) × (t : List ℕ) × (s ≡ c ∷ t) × IsFurther c × P c t

pub further-1 :
    (b : ℕ) (s : List ℕ) (rd : Read)
    → 192 ≤ b
    → b < 254
    → read_further b 0x40 1 s ≡ some rd
    → Further s (λ c t. read_further (bits_2 b c) 0x800 2 t ≡ some rd)
further-1 b s rd l u e =
    let (c, t, es, lc, uc, e2) =
      further-some b 0x40 1 s rd (omega (arith, and_0x40 b (omega arith))) (omega arith) e in
    (c, t, es, (lc, uc), e2)

pub further-2 :
    (b c : ℕ) (s : List ℕ) (rd : Read)
    → 224 ≤ b
    → b < 254
    → IsFurther c
    → read_further (bits_2 b c) 0x800 2 s ≡ some rd
    → Further s (λ d t. read_further (bits_3 b c d) 0x10000 3 t ≡ some rd)
further-2 b c s rd l u hc e =
    let (d, t, es, ld, ud, e2) =
      further-some (bits_2 b c) 0x800 2 s rd
        (omega (arith, test_2 b c 128 128 (omega arith) hc zero_bits zero_bits)) (omega arith) e in
    (d, t, es, (ld, ud), e2)

pub further-3 :
    (b c d : ℕ) (s : List ℕ) (rd : Read)
    → 240 ≤ b
    → b < 254
    → IsFurther c
    → IsFurther d
    → read_further (bits_3 b c d) 0x10000 3 s ≡ some rd
    → Further s (λ e t. read_further (bits_4 b c d e) 0x200000 4 t ≡ some rd)
further-3 b c d s rd l u hc hd e =
    let (x, t, es, lx, ux, e2) =
      further-some (bits_3 b c d) 0x10000 3 s rd
        (omega (arith, test_3 b c d 128 (omega arith) hc hd zero_bits)) (omega arith) e in
    (x, t, es, (lx, ux), e2)

-- A character of five bytes or more is refused, whatever its code point.
refused_long : (cp n : ℕ) → 5 ≤ n → is_refused cp n ≡ true
unfolding is_refused least
refused_long cp n h =
    let grows : 2 ^ 21 ≤ 2 ^ (5 * n - 4) =
      pow-le-pow_right (omega arith) {i = 21} {j = 5 * n - 4} (omega arith) in
    ground (arith, grows)

module _ (b : ℕ) (s r : List ℕ) (h : next_char b s ≡ some r) where
  lead-some :
      192 ≤ b
      → b < 254
      → (rd : Read) × (read_further b 0x40 1 s ≡ some rd)
        × (is_refused (masked rd) rd.bytes ≡ false)
        × (rd.behind ≡ r)
  lead-some l u = finish_char-some _ r (sym (next_char-lead b s l u) ∙ h)

  not_between : 128 ≤ b → b < 256 → (192 ≤ b) × (b < 254)
  unfolding next_char
  not_between l u = ground (arith, and_0xc0 b u)

  decode-2 : 192 ≤ b → b < 224 → Decoded b s r
  decode-2 l u =
      let (rd, e, _, _) = lead-some l (omega arith) in
      let (c, t, es, hc, _) = further-1 b s rd l (omega arith) e in
      subst (λ x. Decoded b x r) (sym es)
        (bytes_2-Decoded b c 128 128 t r hc zero_bits zero_bits l u
          (subst (λ x. next_char b x ≡ some r) es h))

  decode-3 : 224 ≤ b → b < 240 → Decoded b s r
  decode-3 l u =
      let (rd, e, _, _) = lead-some (omega arith) (omega arith) in
      let (c, t, es, hc, e2) = further-1 b s rd (omega arith) (omega arith) e in
      let (d, t2, es2, hd, _) = further-2 b c t rd l (omega arith) hc e2 in
      let whole : s ≡ c ∷ d ∷ t2 = es ∙ ap (◌∷◌ c) es2 in
      subst (λ x. Decoded b x r) (sym whole)
        (bytes_3-Decoded b c d 128 t2 r hc hd zero_bits l u
          (subst (λ x. next_char b x ≡ some r) whole h))

  decode-4 : 240 ≤ b → b < 248 → Decoded b s r
  decode-4 l u =
      let (rd, e, _, _) = lead-some (omega arith) (omega arith) in
      let (c, t, es, hc, e2) = further-1 b s rd (omega arith) (omega arith) e in
      let (d, t2, es2, hd, e3) = further-2 b c t rd (omega arith) (omega arith) hc e2 in
      let (x, t3, es3, hx, _) = further-3 b c d t2 rd l (omega arith) hc hd e3 in
      let whole : s ≡ c ∷ d ∷ x ∷ t3 = es ∙ ap (◌∷◌ c) (es2 ∙ ap (◌∷◌ d) es3) in
      subst (λ y. Decoded b y r) (sym whole)
        (bytes_4-Decoded b c d x t3 r hc hd hx l u (subst (λ y. next_char b y ≡ some r) whole h))

  decode_long : 248 ≤ b → b < 254 → ⊥
  decode_long l u =
      let (rd, e, fine, _) = lead-some (omega arith) u in
      let (c, t, es, hc, e2) = further-1 b s rd (omega arith) u e in
      let (d, t2, es2, hd, e3) = further-2 b c t rd (omega arith) u hc e2 in
      let (x, t3, es3, hx, e4) = further-3 b c d t2 rd (omega arith) u hc hd e3 in
      let (y, t4, es4, ly, uy, e5) =
        further-some (bits_4 b c d x) 0x200000 4 t3 rd
          (omega (arith, test_4 b c d x (omega arith) hc hd hx)) (omega arith) e4 in
      let n : 5 ≤ rd.bytes = further-le _ _ _ t4 rd e5 in
      cc (refused_long (masked rd) rd.bytes n, fine)

  -- What is taken off a text that does not begin with its end is a character.
  pub next_char-Decoded : 0 < b → b < 256 → Decoded b s r
  next_char-Decoded pos byte = elim (dec_lt b 128) [
    | yes one ↦
        let e : some s ≡ some r = sym (next_char-1 b s one) ∙ h in
        (b, (pos, omega arith, λ e. omega arith, inl (omega arith)), ground arith)
    | no more ↦
        let (l, u) = not_between (omega arith) byte in
        elim (dec_lt b 224) [
          | yes two ↦ decode-2 l two
          | no more2 ↦ elim (dec_lt b 240) [
            | yes three ↦ decode-3 (omega arith) three
            | no more3 ↦ elim (dec_lt b 248) [
              | yes four ↦ decode-4 (omega arith) four
              | no more4 ↦ absurd (decode_long (omega arith) u)
            ]
          ]
        ]
  ]
