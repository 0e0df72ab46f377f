-- ===== src/Rtp/H264Builder/Fragments.antt =====
-- `build_fua_packet`: one NAL unit in several packets.
use rtc_client.Common.{
  ℕ, zero, suc, ◌+◌, ◌<◌, ◌≡◌, refl, Bool, true, false, List, [], ◌∷◌, arith, leb, if◌then◌else◌,
  length, length-drop, take, drop, bit_and, bit_or, get_or,
}
use rtc_client.Rtp.H264Builder.{
  Work, Outcome, built, emit, fua_loop, fu_header, copy_length, build_fua_packet,
}
use rtc_client.Rtp.H264Builder.Sent.{Sent, After, After-if, Sent-After, Sent-emit}

-- The payloads of the fragments of one NAL unit, the first with the start bit.
unfoldable pub fragments : ℕ → ℕ → ℕ → Bool → List ℕ → List (List ℕ)
fragments zero fnri type start left = []
fragments (suc fuel) fnri type start left =
    let n = copy_length (length left) in
    let more = fragments fuel fnri type false (drop n left) in
    (bit_or fnri 0x1c ∷ fu_header start type n (length left) ∷ take n left)
    ∷ (if leb (length left) n then [] else more)

-- One round: the packet alone if it is the last, and what the other rounds send behind it if not.
fua_round-Sent :
    (last : Bool) (w : Work) (payload : List ℕ) (end : ℕ) (more : List (List ℕ)) (next : Outcome)
    → (last ≡ false → After (Sent (emit w payload end) more) next)
    → After
        (Sent w (payload ∷ (if last then [] else more)))
        (if last then built (emit w payload end) else next)
fua_round-Sent true w payload end more next h = Sent-emit w payload end
fua_round-Sent false w payload end more next h =
    Sent-After more (Sent-emit w payload end) next (h refl)

fua_loop-Sent :
    (fuel : ℕ) (w : Work) (fnri type : ℕ) (start : Bool) (left : List ℕ)
    → length left < fuel
    → After (Sent w (fragments fuel fnri type start left)) (fua_loop fuel w fnri type start left)
unfolding fua_loop fragments
fua_loop-Sent zero w fnri type start left h = absurd (omega arith)
fua_loop-Sent (suc fuel) w fnri type start left h =
    let n = copy_length (length left) in
    let p = w.pos + 12 + 16 in
    let payload = bit_or fnri 0x1c ∷ fu_header start type n (length left) ∷ take n left in
    let w' = emit w payload (p + 2 + n) in
    let P = Sent w (fragments (suc fuel) fnri type start left) in
    After-if P (leb w.buffer_end p) _ _ tt (
      After-if P (leb w.buffer_end (p + 2)) _ _ tt (
        After-if P (leb w.buffer_end (p + 2 + n)) _ _ tt (
          fua_round-Sent (leb (length left) n) w payload (p + 2 + n) _ _
            λ more. fua_loop-Sent fuel w' fnri type false (drop n left) (shorter more))))
  where
    shorter :
        leb (length left) (copy_length (length left)) ≡ false
        → length (drop (copy_length (length left)) left) < fuel
    shorter more = ground (arith, length-drop (copy_length (length left)) left)

-- The fragments that `build_fua_packet` makes of a NAL unit.
unfoldable pub nalu_fragments : List ℕ → List (List ℕ)
nalu_fragments nalu =
    fragments (length nalu) (bit_and (get_or nalu 0 0) 0xe0) (bit_and (get_or nalu 0 0) 0x1f) true
      (drop 1 nalu)

pub build_fua_packet-Sent :
    (w : Work) (nalu : List ℕ)
    → 0 < length nalu
    → After (Sent w (nalu_fragments nalu)) (build_fua_packet w nalu)
unfolding build_fua_packet nalu_fragments
build_fua_packet-Sent w [] h = absurd (omega arith)
build_fua_packet-Sent w (x ∷ left) h =
    fua_loop-Sent (suc (length left)) w (bit_and x 0xe0) (bit_and x 0x1f) true left (omega arith)
