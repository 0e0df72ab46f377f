-- ===== src/Utf8/Leads.antt =====
-- What `read_further` reads behind each first byte.
use rtc_client.Common.{
  ℕ, ◌+◌, ◌-◌, ◌*◌, ◌/◌, ◌%◌, ◌^◌, ◌≤◌, ◌<◌, ◌≡◌, refl, sym, ◌∙◌, some, List, [], ◌∷◌, bit_and,
  arith, length,
}
use rtc_client.Common.Bits.{
  bit_and-halves, and_0x20, and_0x10, and_0x08, and_0x3f, and_0x1f, and_0x0f,
}
use rtc_client.Utf8.{Read, read_further}

bit_and-even : (a b m n : ℕ) → n ≡ 2 * m → b ≡ a / 2 → bit_and a n ≡ 2 * bit_and b m
bit_and-even a b m n hn hb =
    let en : n / 2 ≡ m = omega arith in
    let e : bit_and (a / 2) (n / 2) ≡ bit_and b m = rw (en, hb) in
    omega (arith, bit_and-halves a n, e)

bit_and-odd : (a b m n : ℕ) → n ≡ 2 * m + 1 → b ≡ a / 2 → bit_and a n ≡ a % 2 + 2 * bit_and b m
bit_and-odd a b m n hn hb =
    let en : n / 2 ≡ m = omega arith in
    let e : bit_and (a / 2) (n / 2) ≡ bit_and b m = rw (en, hb) in
    omega (arith, bit_and-halves a n, e)

-- Behind six more bits the mask's further bits meet those that stood there.
pub bit_and-shift : (a t m : ℕ) → t < 64 → bit_and (a * 64 + t) (64 * m) ≡ 64 * bit_and a m
bit_and-shift a t m h = omega (
  arith,
  bit_and-even (a * 64 + t) (a * 32 + t / 2) (32 * m) (64 * m) (omega arith) (omega arith),
  bit_and-even (a * 32 + t / 2) (a * 16 + t / 4) (16 * m) (32 * m) (omega arith) (omega arith),
  bit_and-even (a * 16 + t / 4) (a * 8 + t / 8) (8 * m) (16 * m) (omega arith) (omega arith),
  bit_and-even (a * 8 + t / 8) (a * 4 + t / 16) (4 * m) (8 * m) (omega arith) (omega arith),
  bit_and-even (a * 4 + t / 16) (a * 2 + t / 32) (2 * m) (4 * m) (omega arith) (omega arith),
  bit_and-even (a * 2 + t / 32) a m (2 * m) (omega arith) (omega arith),
)

pub bit_and-shift_ones :
    (a t m : ℕ) → t < 64 → bit_and (a * 64 + t) (64 * m + 63) ≡ 64 * bit_and a m + t
bit_and-shift_ones a t m h = omega (
  arith,
  bit_and-odd (a * 64 + t) (a * 32 + t / 2) (32 * m + 31) (64 * m + 63) (omega arith) (omega arith),
  bit_and-odd (a * 32 + t / 2) (a * 16 + t / 4) (16 * m + 15) (32 * m + 31) (omega arith)
      (omega arith),
  bit_and-odd (a * 16 + t / 4) (a * 8 + t / 8) (8 * m + 7) (16 * m + 15) (omega arith)
      (omega arith),
  bit_and-odd (a * 8 + t / 8) (a * 4 + t / 16) (4 * m + 3) (8 * m + 7) (omega arith) (omega arith),
  bit_and-odd (a * 4 + t / 16) (a * 2 + t / 32) (2 * m + 1) (4 * m + 3) (omega arith) (omega arith),
  bit_and-odd (a * 2 + t / 32) a m (2 * m + 1) (omega arith) (omega arith),
)

-- The steps of `read_further`.
module _ (cp top n : ℕ) where
  pub further-stop :
      (s : List ℕ)
      → bit_and cp top ≡ 0
      → read_further cp top n s ≡ some (record { codepoint = cp; top = top; bytes = n; behind = s })
  unfolding read_further
  further-stop [] h = ground arith
  further-stop (c ∷ s) h = ground arith

  pub further-more :
      (c cp' : ℕ) (s : List ℕ)
      → 0 < bit_and cp top
      → 128 ≤ c
      → c < 192
      → cp' ≡ cp * 64 + (c - 128)
      → cp' < 2 ^ 32
      → read_further cp top n (c ∷ s) ≡ read_further cp' (top * 2 ^ 5 % 2 ^ 32) (n + 1) s
  unfolding read_further
  further-more c cp' s h l u e small =
      let e' : (cp * 2 ^ 6 + (c - 128)) % 2 ^ 32 ≡ cp' = omega arith in ground (arith, e')

  pub further-some :
      (s : List ℕ) (r : Read)
      → 0 < bit_and cp top
      → cp < 2 ^ 26
      → read_further cp top n s ≡ some r
      → (c : ℕ) × (t : List ℕ) × (s ≡ c ∷ t)
        × (128 ≤ c)
        × (c < 192)
        × (read_further (cp * 64 + (c - 128)) (top * 2 ^ 5 % 2 ^ 32) (n + 1) t ≡ some r)
  unfolding read_further
  further-some [] r h small e = absurd (ground arith)
  further-some (c ∷ t) r h small e =
      let l : 128 ≤ c = ground arith in
      let u : c < 192 = ground arith in
      (c, t, refl, l, u, sym (further-more c (cp * 64 + (c - 128)) t h l u refl (omega arith)) ∙ e)

-- Whatever is read, no byte is given back, and each is counted.
pub further-counts :
    (cp top n : ℕ) (s : List ℕ) (r : Read)
    → read_further cp top n s ≡ some r
    → r.bytes + length r.behind ≡ n + length s
unfolding read_further
further-counts cp top n [] r e = ground arith
further-counts cp top n (c ∷ s) r e =
    ground
      (arith, further-counts ((cp * 2 ^ 6 + (c - 128)) % 2 ^ 32) (top * 2 ^ 5 % 2 ^ 32) (n + 1) s r)

pub further-le :
    (cp top n : ℕ) (s : List ℕ) (r : Read) → read_further cp top n s ≡ some r → n ≤ r.bytes
unfolding read_further
further-le cp top n [] r e = ground arith
further-le cp top n (c ∷ s) r e =
    ground
      (arith, further-le ((cp * 2 ^ 6 + (c - 128)) % 2 ^ 32) (top * 2 ^ 5 % 2 ^ 32) (n + 1) s r)

-- The state behind a first byte and the six bits of each byte that follows it.
abbrev pub read_1 : ℕ → List ℕ → Read
read_1 b s = record { codepoint = b; top = 0; bytes = 1; behind = s }

abbrev pub bits_2 : ℕ → ℕ → ℕ
bits_2 b c = b * 64 + (c - 128)

abbrev pub bits_3 : ℕ → ℕ → ℕ → ℕ
bits_3 b c d = bits_2 b c * 64 + (d - 128)

abbrev pub bits_4 : ℕ → ℕ → ℕ → ℕ → ℕ
bits_4 b c d e = bits_3 b c d * 64 + (e - 128)

abbrev pub IsFurther : ℕ → Type 0
IsFurther c = (128 ≤ c) × (c < 192)

-- The tests of the loop at those states are tests of the first byte.
module _ (b c d e : ℕ) (hb : b < 256) (hc : IsFurther c) (hd : IsFurther d) (he : IsFurther e) where
  pub test_2 : bit_and (bits_2 b c) 0x800 ≡ b / 32 % 2 * 2048
  test_2 = omega (arith, bit_and-shift b (c - 128) 0x20 (omega arith), and_0x20 b hb)

  pub test_3 : bit_and (bits_3 b c d) 0x10000 ≡ b / 16 % 2 * 0x10000
  test_3 = omega (
    arith,
    bit_and-shift (bits_2 b c) (d - 128) 0x400 (omega arith),
    bit_and-shift b (c - 128) 0x10 (omega arith),
    and_0x10 b hb,
  )

  pub test_4 : bit_and (bits_4 b c d e) 0x200000 ≡ b / 8 % 2 * 0x200000
  test_4 = omega (
    arith,
    bit_and-shift (bits_3 b c d) (e - 128) 0x8000 (omega arith),
    bit_and-shift (bits_2 b c) (d - 128) 0x200 (omega arith),
    bit_and-shift b (c - 128) 0x08 (omega arith),
    and_0x08 b hb,
  )

  pub mask_2 : bit_and (bits_2 b c) 0xfff ≡ b % 64 * 64 + (c - 128)
  mask_2 = omega (arith, bit_and-shift_ones b (c - 128) 0x3f (omega arith), and_0x3f b hb)

  pub mask_3 : bit_and (bits_3 b c d) 0x1ffff ≡ (b % 32 * 64 + (c - 128)) * 64 + (d - 128)
  mask_3 = omega (
    arith,
    bit_and-shift_ones (bits_2 b c) (d - 128) 0x7ff (omega arith),
    bit_and-shift_ones b (c - 128) 0x1f (omega arith),
    and_0x1f b hb,
  )

  pub mask_4 :
      bit_and (bits_4 b c d e) 0x3fffff
      ≡ ((b % 16 * 64 + (c - 128)) * 64 + (d - 128)) * 64 + (e - 128)
  mask_4 = omega (
    arith,
    bit_and-shift_ones (bits_3 b c d) (e - 128) 0xffff (omega arith),
    bit_and-shift_ones (bits_2 b c) (d - 128) 0x3ff (omega arith),
    bit_and-shift_ones b (c - 128) 0x0f (omega arith),
    and_0x0f b hb,
  )
