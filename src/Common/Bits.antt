-- ===== src/Common/Bits.antt =====
-- Masks on one byte as arithmetic: each is a table of 256 entries, checked by evaluation.
use Prim.Native.Nat.{
  ℕ, zero, suc, ◌+◌, ◌*◌, ◌/◌, ◌%◌, ◌^◌, ◌≤◌, ◌<◌, bit_and, bit_or, bit_xor, min, digits,
  bit_and-bitwise,
}
use mathlib.Core.Path.{◌≡◌, refl}
use mathlib.Core.Bool.{Bool, true, false, ◌&&◌}
use native.Mathlib.Omega.{arith}
use rtc_client.Common.Tests.{◌==◌}

unfoldable same_below : (ℕ → ℕ) → (ℕ → ℕ) → ℕ → Bool
same_below f g zero = true
same_below f g (suc bound) = (f bound == g bound) && same_below f g bound

agree_at :
    (f g : ℕ → ℕ) (bound value : ℕ)
    → value < bound
    → same_below f g bound ≡ true
    → f value ≡ g value
unfolding same_below
agree_at f g zero value small table = absurd (omega arith)
agree_at f g (suc bound) value small table = ground (arith, agree_at f g bound value)

agree :
    (f g : ℕ → ℕ) (bound : ℕ)
    → same_below f g bound ≡ true
    → (value : ℕ) → value < bound
    → f value ≡ g value
agree f g bound table value small = agree_at f g bound value small table

pub and_0x1f : (x : ℕ) → x < 256 → bit_and x 0x1f ≡ x % 32
unfolding same_below
and_0x1f = agree _ _ 256 refl

pub and_0xe0 : (x : ℕ) → x < 256 → bit_and x 0xe0 ≡ x / 32 * 32
unfolding same_below
and_0xe0 = agree _ _ 256 refl

pub and_0x80 : (x : ℕ) → x < 256 → bit_and x 0x80 ≡ x / 128 * 128
unfolding same_below
and_0x80 = agree _ _ 256 refl

pub and_0x40 : (x : ℕ) → x < 256 → bit_and x 0x40 ≡ x / 64 % 2 * 64
unfolding same_below
and_0x40 = agree _ _ 256 refl

pub and_0x00 : (x : ℕ) → x < 256 → bit_and x 0 ≡ 0
unfolding same_below
and_0x00 = agree _ (λ x. 0) 256 refl

pub and_0xc0 : (x : ℕ) → x < 256 → bit_and x 0xc0 ≡ x / 64 * 64
unfolding same_below
and_0xc0 = agree _ _ 256 refl

pub and_0x20 : (x : ℕ) → x < 256 → bit_and x 0x20 ≡ x / 32 % 2 * 32
unfolding same_below
and_0x20 = agree _ _ 256 refl

pub and_0x10 : (x : ℕ) → x < 256 → bit_and x 0x10 ≡ x / 16 % 2 * 16
unfolding same_below
and_0x10 = agree _ _ 256 refl

pub and_0x08 : (x : ℕ) → x < 256 → bit_and x 0x08 ≡ x / 8 % 2 * 8
unfolding same_below
and_0x08 = agree _ _ 256 refl

pub and_0x3f : (x : ℕ) → x < 256 → bit_and x 0x3f ≡ x % 64
unfolding same_below
and_0x3f = agree _ _ 256 refl

pub and_0x0f : (x : ℕ) → x < 256 → bit_and x 0x0f ≡ x % 16
unfolding same_below
and_0x0f = agree _ _ 256 refl

pub and_ones : (x : ℕ) → x < 256 → bit_and x 0xffffffff ≡ x
unfolding same_below
and_ones = agree _ _ 256 refl

-- 0 at 3, and 1 at any other byte.
pub xor_0x03 :
    (x : ℕ) → x < 256 → min (bit_xor x 0x03) 1 ≡ elim (x == 3) as (λ b. ℕ) [ true ↦ 0 | false ↦ 1 ]
unfolding same_below
xor_0x03 =
    agree (λ x. min (bit_xor x 0x03) 1) (λ x. elim (x == 3) as (λ b. ℕ) [ true ↦ 0 | false ↦ 1 ])
      256 refl

-- The two bytes in front of a fragment of a unit with first byte `x`, and what is read off them.
abbrev pub fu_indicator : ℕ → ℕ
fu_indicator x = bit_or (bit_and x 0xe0) 0x1c

pub fu_indicator_type : (x : ℕ) → x < 256 → bit_and (fu_indicator x) 0x1f ≡ 28
unfolding same_below
fu_indicator_type = agree _ (λ x. 28) 256 refl

pub fu_start_bit : (x : ℕ) → x < 256 → bit_or 0x80 (bit_and x 0x1f) / 2 ^ 7 ≡ 1
unfolding same_below
fu_start_bit = agree _ (λ x. 1) 256 refl

pub fu_start_nal :
    (x : ℕ)
    → x < 256
    → bit_or (bit_and (fu_indicator x) 0xe0) (bit_and (bit_or 0x80 (bit_and x 0x1f)) 0x1f) ≡ x
unfolding same_below
fu_start_nal = agree _ (λ x. x) 256 refl

pub fu_end_start_bit : (x : ℕ) → x < 256 → bit_or 0x40 (bit_and x 0x1f) / 2 ^ 7 ≡ 0
unfolding same_below
fu_end_start_bit = agree _ (λ x. 0) 256 refl

pub fu_end_bit : (x : ℕ) → x < 256 → bit_and (bit_or 0x40 (bit_and x 0x1f)) 0x40 ≡ 64
unfolding same_below
fu_end_bit = agree _ (λ x. 64) 256 refl

pub fu_middle_start_bit : (x : ℕ) → x < 256 → bit_or 0x00 (bit_and x 0x1f) / 2 ^ 7 ≡ 0
unfolding same_below
fu_middle_start_bit = agree _ (λ x. 0) 256 refl

pub fu_middle_end_bit : (x : ℕ) → x < 256 → bit_and (bit_or 0x00 (bit_and x 0x1f)) 0x40 ≡ 0
unfolding same_below
fu_middle_end_bit = agree _ (λ x. 0) 256 refl

-- One binary digit of a conjunction. `bit_and` stands for a recursion on fuel, of which any fuel
-- from the first number on gives the same.
abbrev conj : ℕ → ℕ → ℕ → ℕ
conj fuel a b = digits (λ _. zero) min fuel a b

conj-fuel : (f g a b : ℕ) → a ≤ f → a ≤ g → conj f a b ≡ conj g a b
conj-fuel zero zero a b hf hg = refl
conj-fuel zero (suc g) a b hf hg = let e : a ≡ 0 = omega arith in rw e refl
conj-fuel (suc f) zero a b hf hg = let e : a ≡ 0 = omega arith in rw e refl
conj-fuel (suc f) (suc g) zero b hf hg = refl
conj-fuel (suc f) (suc g) (suc a) b hf hg =
    omega (arith, conj-fuel f g (suc a / 2) (b / 2) (omega arith) (omega arith))

pub bit_and-halves : (a b : ℕ) → bit_and a b ≡ min (a % 2) (b % 2) + 2 * bit_and (a / 2) (b / 2)
bit_and-halves zero b = omega (arith, bit_and-bitwise 0 b, bit_and-bitwise 0 (b / 2))
bit_and-halves (suc a) b = omega (
  arith,
  conj-fuel a (suc a / 2) (suc a / 2) (b / 2) (omega arith) (omega arith),
  bit_and-bitwise (suc a / 2) (b / 2),
  bit_and-bitwise (suc a) b,
)
