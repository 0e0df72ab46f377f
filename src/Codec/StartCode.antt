-- ===== src/Codec/StartCode.antt =====
-- Start codes in an Annex B byte stream: `AVCFindStartCodeInternal` and `avc_find_start_code` of
-- src/codec/codec_utils.cpp. A range [start, end) of pointers is a memory and two offsets into it;
-- the first byte of the memory has the address `base`, which decides where the words begin.
pub mod ZeroByte
pub mod Scan
pub mod First
use rtc_client.Common.{
  ℕ, zero, suc, ◌+◌, ◌-◌, ◌*◌, ◌/◌, ◌%◌, ◌^◌, Bool, true, false, not, ◌&&◌, ◌||◌, Option, none,
  some, List, [], ◌∷◌, ◌++◌, ltb, leb, ◌==◌, if◌then◌else◌, bit_and,
}
use Prim.Native.Nat.{min}
use mathlib.Core.Option.{get_or}
use rtc_client.Common.Memory.{Memory}

-- `p[0] == 0 && p[1] == 0 && p[2] == 1`
abbrev pub is_code : Memory → ℕ → Bool
is_code m p = m p == 0 && (m (p + 1) == 0 && m (p + 2) == 1)

-- `for (; start < end; start++)` over the positions [p, p + n): the first code among them.
unfoldable pub scan_bytes : Memory → ℕ → ℕ → Option ℕ
scan_bytes m p zero = none
scan_bytes m p (suc n) = let next = scan_bytes m (p + 1) n in if is_code m p then some p else next

-- `*(const uint32_t *)p`, and whether the bit trick finds a zero byte in it.
abbrev pub word_at : Memory → ℕ → ℕ
word_at m p = m p + m (p + 1) * 2 ^ 8 + m (p + 2) * 2 ^ 16 + m (p + 3) * 2 ^ 24

-- `(x - 0x01010101) & (~x) & 0x80808080`, in 32 bits.
abbrev pub zero_byte_bits : ℕ → ℕ
zero_byte_bits x =
    bit_and (bit_and ((x + 2 ^ 32 - 0x01010101) % 2 ^ 32) (2 ^ 32 - 1 - x)) 0x80808080

-- The tests of the loop over words, at one word.
unfoldable pub word_code : Memory → ℕ → Option ℕ
word_code m p =
    let high =
      if m (p + 3) == 0
      then (if m (p + 2) == 0 && m (p + 4) == 1
          then some (p + 2)
          else if m (p + 4) == 0 && m (p + 5) == 1
          then some (p + 3)
          else none)
      else none in
    if m (p + 1) == 0
    then (if m p == 0 && m (p + 2) == 1
        then some p
        else if m (p + 2) == 0 && m (p + 3) == 1
        then some (p + 1)
        else high)
    else high

-- The loop over words: `n` rounds from `p`, four bytes each.
unfoldable pub scan_words : Memory → ℕ → ℕ → Option ℕ
unfolding word_code
scan_words m p zero = none
scan_words m p (suc n) =
    let next = scan_words m (p + 4) n in
    if zero_byte_bits (word_at m p) == 0
    then next
    else elim (word_code m p) [ none ↦ next | some q ↦ some q ]

abbrev pub or_else {ℓ} : {A : Type ℓ} → Option A → Option A → Option A
or_else none o = o
or_else (some a) o = some a

-- The rounds of the three loops: up to the next word, over whole words while six bytes are left,
-- and over the rest. A loop whose end lies before its start makes no round.
abbrev pub head_rounds : ℕ → ℕ → ℕ → ℕ
head_rounds align start end = min (4 - align) (end - 3 - start)

abbrev pub word_rounds : ℕ → ℕ → ℕ
word_rounds p end = (end - 6 - p + 3) / 4

-- `AVCFindStartCodeInternal`; `base` is the address of the memory's first byte.
unfoldable pub find_internal : Memory → ℕ → ℕ → ℕ → ℕ
unfolding scan_bytes scan_words
find_internal m base start end =
    let n = head_rounds ((base + start) % 4) start end in
    let p = start + n in
    let k = word_rounds p end in
    let q = p + 4 * k in
    let found =
      or_else (scan_bytes m start n) (or_else (scan_words m p k) (scan_bytes m q (end - 3 - q))) in
    get_or found end

-- `avc_find_start_code`: one byte earlier where a zero byte stands before the code.
unfoldable pub avc_find_start_code : Memory → ℕ → ℕ → ℕ → ℕ
unfolding find_internal
avc_find_start_code m base start end =
    let pos = find_internal m base start end in
    if ltb start pos && (ltb pos end && m (pos - 1) == 0) then pos - 1 else pos
