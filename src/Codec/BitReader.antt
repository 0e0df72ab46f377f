-- ===== src/Codec/BitReader.antt =====
-- The readers of bits `u`, `Ue` and `Se` of src/codec/codec_utils.cpp.
pub mod Golomb
use rtc_client.Common.{
  ℕ, zero, suc, ◌+◌, ◌-◌, ◌*◌, ◌/◌, ◌%◌, ◌^◌, Bool, true, false, not, ◌&&◌, ◌||◌, Option, none,
  some, List, [], ◌∷◌, ltb, ◌==◌, length, if◌then◌else◌, bit_and, bit_xor,
}
use rtc_client.Utils.{ℤ, pos, negsuc}

-- The bit at a position. `none` is a read outside the buffer. Buffers are shorter than 2 ^ 29 bytes:
-- no position wraps around.
abbrev pub get_elem? : List ℕ → ℕ → Option ℕ
get_elem? [] i = none
get_elem? (x ∷ xs) zero = some x
get_elem? (x ∷ xs) (suc i) = get_elem? xs i

unfoldable pub bit_at : List ℕ → ℕ → Option ℕ
bit_at buf k = elim (get_elem? buf (k / 8)) [
  | none ↦ none
  | some b ↦ some (if bit_and b (0x80 / 2 ^ (k % 8)) == 0 then 0 else 1)
]

-- A reader takes `nStartBit` and returns its value and the new `nStartBit`.
abbrev pub Reader : Type 0 → Type 0
Reader A = ℕ → Option (A × ℕ)

infixl 5 ◌>>=◌ ◌>>◌
unfoldable pub ◌>>=◌ : {A B : Type 0} → Reader A → (A → Reader B) → Reader B
◌>>=◌ m f k = elim (m k) [ none ↦ none | some (a, k') ↦ f a k' ]

abbrev pub ◌>>◌ : {A B : Type 0} → Reader A → Reader B → Reader B
m >> f = m >>= λ _. f

unfoldable pub pure : {A : Type 0} → A → Reader A
pure a k = some (a, k)

-- The loop that `u` and `Ue` share.
unfoldable pub bits_loop : List ℕ → ℕ → ℕ → Reader ℕ
unfolding bit_at
bits_loop buf zero ret k = some (ret, k)
bits_loop buf (suc count) ret k = elim (bit_at buf k) [
  | none ↦ none
  | some b ↦ bits_loop buf count ((ret * 2 + b) % 2 ^ 64) (k + 1)
]

unfoldable pub u : ℕ → List ℕ → Reader ℕ
unfolding bits_loop
u count buf = bits_loop buf count 0

-- The loop over the zeros in front, for the bits that are left.
unfoldable pub zeros_loop : List ℕ → ℕ → ℕ → Reader ℕ
unfolding bit_at
zeros_loop buf zero zeros k = some (zeros, k)
zeros_loop buf (suc left) zeros k = elim (bit_at buf k) [
  | none ↦ none
  | some b ↦ elim (b == 0) [
    | true ↦ zeros_loop buf left (zeros + 1) (k + 1)
    | false ↦ some (zeros, k)
  ]
]

-- `none` is also a shift of an `int` by 31 or more, which is not defined.
unfoldable pub ue : List ℕ → ℕ → Reader ℕ
unfolding zeros_loop bits_loop
ue buf size k = elim (zeros_loop buf (size * 8 - k) 0 k) [
  | none ↦ none
  | some (zeros, k') ↦ elim (bits_loop buf zeros 0 (k' + 1)) [
    | none ↦ none
    | some (ret, k'') ↦ if ltb zeros 31 then some ((2 ^ zeros - 1 + ret) % 2 ^ 32, k'') else none
  ]
]

-- The value of `Se` for the one of `Ue`: half of it rounded up, and negative where it is even.
unfoldable pub signed : ℕ → ℤ
signed v = if v % 2 == 0 then (if v == 0 then pos 0 else negsuc (v / 2 - 1)) else pos ((v + 1) / 2)

unfoldable pub se : List ℕ → ℕ → Reader ℤ
unfolding ue signed ◌>>=◌ pure
se buf size = do v ← ue buf size; pure (signed v)
