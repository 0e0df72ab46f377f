-- ===== src/Codec/Emulation.antt =====
-- `de_emulation_prevention` of src/codec/codec_utils.cpp.
pub mod Stripping
pub mod Escapes
use rtc_client.Common.{
  ℕ, zero, suc, ◌+◌, ◌-◌, ◌*◌, ◌/◌, ◌%◌, ◌^◌, Bool, true, false, not, ◌&&◌, ◌||◌, Option, none,
  some, List, [], ◌∷◌, ltb, ◌==◌, length, if◌then◌else◌, bit_and, bit_xor,
}

-- The loop over `j`: each byte takes the value of the next one, and the last one stays.
unfoldable pub shift_left : List ℕ → List ℕ
shift_left [] = []
shift_left (x ∷ []) = x ∷ []
shift_left (x ∷ y ∷ s) = y ∷ shift_left (y ∷ s)

-- The loop over `i` from a position on, for the rounds that are left: the bytes from there on, and
-- how often the size went down.
unfoldable pub kick_loop : ℕ → List ℕ → List ℕ × ℕ
unfolding shift_left
kick_loop zero xs = (xs, 0)
kick_loop (suc rounds) [] = ([], 0)
kick_loop (suc rounds) (a ∷ []) = (a ∷ [], 0)
kick_loop (suc rounds) (a ∷ b ∷ []) = (a ∷ b ∷ [], 0)
kick_loop (suc rounds) (a ∷ b ∷ c ∷ s) =
    let hit = (a + b + bit_xor c 0x03) == 0 in
    let (rest, kicked) = kick_loop rounds (b ∷ (if hit then shift_left (c ∷ s) else c ∷ s)) in
    (a ∷ rest, (if hit then 1 else 0) + kicked)

-- `none` is a read outside the buffer: of fewer than two bytes the size less 2 is not negative.
unfoldable pub de_emulation_prevention : List ℕ → Option (List ℕ × ℕ)
unfolding kick_loop
de_emulation_prevention buf =
    let (buf', kicked) = kick_loop (length buf - 2) buf in
    if ltb (length buf) 2 then none else some (buf', length buf - kicked)
