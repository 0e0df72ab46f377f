-- ===== src/Utf8/Agreement.antt =====
-- `is_utf8_str` against `is_utf8_chars`.
use rtc_client.Common.{
  ℕ, suc, ◌+◌, ◌/◌, ◌%◌, ◌^◌, ◌<◌, ◌≡◌, ◌≢◌, ◌↔◌, refl, ◌∙◌, true, none, some, List, [], ◌∷◌, ◌++◌,
  arith, dec_lt, All,
}
use rtc_client.Common.Bits.{and_0xc0}
use rtc_client.Utf8.{is_utf8_chars, is_utf8_str, str_loop, further_bytes}
use rtc_client.Utf8.Scalars.{IsScalar, encode, encode_all}
use rtc_client.Utf8.Accepted.{IsChar, Encodes, is_utf8_chars_iff}

further : (n x : ℕ) (s : List ℕ) → str_loop (suc n) ((0x80 + x % 64) ∷ s) ≡ str_loop n s
unfolding str_loop
further n x s = ground (arith, and_0xc0 (0x80 + x % 64) (omega arith))

lead : (b n : ℕ) (s : List ℕ) → further_bytes b ≡ some n → str_loop 0 (b ∷ s) ≡ str_loop n s
unfolding str_loop
lead b n s h = rw (h, str_loop) refl

str_loop-encode : (c : ℕ) (s : List ℕ) → c < 0x110000 → str_loop 0 (encode c ++ s) ≡ str_loop 0 s
unfolding further_bytes
str_loop-encode c s h = elim (dec_lt c 0x80) [
  | yes p1 ↦ ground (arith, lead c 0 s (ground arith))
  | no p1 ↦ elim (dec_lt c 0x800) [
    | yes p2 ↦
        let e : further_bytes (0xc0 + c / 64) ≡ some 1 = ground arith in
        ground (arith, lead (0xc0 + c / 64) 1 ((0x80 + c % 64) ∷ s) e, further 0 c s)
    | no p2 ↦ elim (dec_lt c 0x10000) [
      | yes p3 ↦
          let e : further_bytes (0xe0 + c / 4096) ≡ some 2 = ground arith in
          ground (
            arith,
            lead (0xe0 + c / 4096) 2 ((0x80 + c / 64 % 64) ∷ (0x80 + c % 64) ∷ s) e,
            further 1 (c / 64) ((0x80 + c % 64) ∷ s),
            further 0 c s,
          )
      | no p3 ↦
          let e : further_bytes (0xf0 + c / 2 ^ 18) ≡ some 3 = ground arith in
          ground (
            arith,
            lead (0xf0 + c / 2 ^ 18) 3
                ((0x80 + c / 4096 % 64) ∷ (0x80 + c / 64 % 64) ∷ (0x80 + c % 64) ∷ s) e,
            further 2 (c / 4096) ((0x80 + c / 64 % 64) ∷ (0x80 + c % 64) ∷ s),
            further 1 (c / 64) ((0x80 + c % 64) ∷ s),
            further 0 c s,
          )
    ]
  ]
]

str_loop-encode_all : (cs : List ℕ) → All IsScalar cs → str_loop 0 (encode_all cs) ≡ true
unfolding str_loop
str_loop-encode_all [] h = refl
str_loop-encode_all (c ∷ cs) h =
    str_loop-encode c (encode_all cs) h.0.1 ∙ str_loop-encode_all cs h.1

-- On a text of bytes other than 0 `is_utf8_chars` ends. It returns true exactly where the text is the
-- UTF-8 bytes of scalar values of Unicode other than U+FFFE, and what it accepts `is_utf8_str` accepts
-- too.
pub is_utf8_chars-decides :
    (s : List ℕ)
    → All IsChar s
    → (is_utf8_chars s ≢ none)
      × ((is_utf8_chars s ≡ some true) ↔ Encodes s)
      × (is_utf8_chars s ≡ some true → is_utf8_str s ≡ true)
unfolding is_utf8_str
is_utf8_chars-decides s h =
    let (ends, accepts) = is_utf8_chars_iff s h in
    (ends, accepts, λ e. let enc = accepts.0 e in rw (enc.2) (str_loop-encode_all enc.0 enc.1))
