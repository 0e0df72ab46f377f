-- ===== src/Codec/StartCode/ZeroByte.antt =====
-- The bit trick of `AVCFindStartCodeInternal`: a word that it passes over has no zero byte.
use rtc_client.Common.{
  ℕ, zero, suc, ◌+◌, ◌-◌, ◌/◌, ◌%◌, ◌^◌, ◌<◌, ◌≡◌, refl, ap, arith, bit_and, ◌∙◌,
}
use Prim.Native.Nat.{min}
use rtc_client.Common.Bits.{bit_and-halves}
use rtc_client.Common.Memory.{Memory, IsByte}
use rtc_client.Codec.StartCode.{zero_byte_bits, word_at}

bit : ℕ → ℕ → ℕ
bit zero x = x % 2
bit (suc k) x = bit k (x / 2)

bit-and : (k a b : ℕ) → bit k (bit_and a b) ≡ min (bit k a) (bit k b)
unfolding bit
bit-and zero a b = omega (arith, bit_and-halves a b)
bit-and (suc k) a b =
    let half : bit_and a b / 2 ≡ bit_and (a / 2) (b / 2) = omega (arith, bit_and-halves a b) in
    ap (bit k) half ∙ bit-and k (a / 2) (b / 2)

bit-7 : (x : ℕ) → bit 7 x ≡ x / 128 % 2
unfolding bit
bit-7 x = omega arith

eighth : (x : ℕ) → x / 2 / 2 / 2 / 2 / 2 / 2 / 2 / 2 ≡ x / 256
eighth x = omega arith

-- The top bits of the four bytes.
bit-15 : (x : ℕ) → bit 15 x ≡ x / 2 ^ 15 % 2
unfolding bit
bit-15 x =
    let shifted : bit 15 x ≡ bit 7 (x / 256) = ap (bit 7) (eighth x) in
    omega (arith, shifted, bit-7 (x / 256))

bit-23 : (x : ℕ) → bit 23 x ≡ x / 2 ^ 23 % 2
unfolding bit
bit-23 x =
    let shifted : bit 23 x ≡ bit 15 (x / 256) = ap (bit 15) (eighth x) in
    omega (arith, shifted, bit-15 (x / 256))

bit-31 : (x : ℕ) → bit 31 x ≡ x / 2 ^ 31 % 2
unfolding bit
bit-31 x =
    let shifted : bit 31 x ≡ bit 23 (x / 256) = ap (bit 23) (eighth x) in
    omega (arith, shifted, bit-23 (x / 256))

bit-0 : (k : ℕ) → bit k 0 ≡ 0
unfolding bit
bit-0 zero = refl
bit-0 (suc k) = bit-0 k

-- A digit that the mask and both factors have.
zero_byte_bits-bit :
    (k x : ℕ)
    → bit k ((x + 2 ^ 32 - 0x01010101) % 2 ^ 32) ≡ 1
    → bit k (2 ^ 32 - 1 - x) ≡ 1
    → bit k 0x80808080 ≡ 1
    → zero_byte_bits x ≡ 0
    → ⊥
zero_byte_bits-bit k x p q r z = omega (
  arith,
  ap (bit k) z,
  bit-0 k,
  bit-and k (bit_and ((x + 2 ^ 32 - 0x01010101) % 2 ^ 32) (2 ^ 32 - 1 - x)) 0x80808080,
  bit-and k ((x + 2 ^ 32 - 0x01010101) % 2 ^ 32) (2 ^ 32 - 1 - x),
)

positive : (n : ℕ) → (n ≡ 0 → ⊥) → 0 < n
positive zero h = absurd (h refl)
positive (suc n) h = omega arith

abbrev lowered : ℕ → ℕ
lowered x = (x + 2 ^ 32 - 0x01010101) % 2 ^ 32

module _ (m : Memory) (p : ℕ) (byte : (i : ℕ) → IsByte (m i))
    (z : zero_byte_bits (word_at m p) ≡ 0) where
  abbrev x : ℕ
  x = word_at m p

  -- The lowest zero byte keeps its bit, since no byte below it borrows.
  pub byte_0 : 0 < m p
  unfolding bit
  byte_0 = positive (m p) λ e.
      zero_byte_bits-bit 7 x
        (omega (arith, e, byte (p + 1), byte (p + 2), byte (p + 3), bit-7 (lowered x)))
        (omega (arith, e, byte (p + 1), byte (p + 2), byte (p + 3), bit-7 (2 ^ 32 - 1 - x))) refl z

  pub byte_1 : 0 < m (p + 1)
  unfolding bit
  byte_1 = positive (m (p + 1)) λ e.
      zero_byte_bits-bit 15 x
        (omega (arith, e, byte_0, byte p, byte (p + 2), byte (p + 3), bit-15 (lowered x)))
        (omega (arith, e, byte p, byte (p + 2), byte (p + 3), bit-15 (2 ^ 32 - 1 - x))) refl z

  pub byte_2 : 0 < m (p + 2)
  unfolding bit
  byte_2 = positive (m (p + 2)) λ e.
      zero_byte_bits-bit 23 x
        (omega (arith, e, byte_0, byte_1, byte p, byte (p + 1), byte (p + 3), bit-23 (lowered x)))
        (omega (arith, e, byte p, byte (p + 1), byte (p + 3), bit-23 (2 ^ 32 - 1 - x))) refl z

  pub byte_3 : 0 < m (p + 3)
  unfolding bit
  byte_3 = positive (m (p + 3)) λ e.
      zero_byte_bits-bit 31 x
        (omega (
          arith,
          e,
          byte_0,
          byte_1,
          byte_2,
          byte p,
          byte (p + 1),
          byte (p + 2),
          bit-31 (lowered x),
        ))
        (omega (arith, e, byte p, byte (p + 1), byte (p + 2), bit-31 (2 ^ 32 - 1 - x))) refl z
