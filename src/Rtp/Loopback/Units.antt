-- ===== src/Rtp/Loopback/Units.antt =====
-- Single NAL unit packets and STAP-A packets through the frame assembler.
use rtc_client.Common.{
  ℕ, zero, suc, ◌+◌, ◌-◌, ◌%◌, ◌^◌, ◌<◌, ◌≤◌, ◌≡◌, refl, ap, ap₂, ◌∙◌, true, List, [], ◌∷◌, ◌++◌,
  arith, length, length-append, Option, some, get_or, All, append_assoc, append-nil, le→leb, lt→leb,
}
use rtc_client.Common.Bits.{and_0x1f}
use rtc_client.Common.Memory.{
  Memory, of_list, advance, ntohs, read, read_behind, advance-append, read_all, htons, ntohs-htons,
}
use rtc_client.Rtp.Header.{int_len, int_len_small}
use rtc_client.Rtp.Assembler.{
  Assembler, with_frame, start_code, get_single_frame, stapa_loop, get_stapa_frame, push_payload,
  assembler_buffer_size,
}
use rtc_client.Rtp.H264Builder.Packing.{stap_units}

-- What the assembler makes of one unit: a start code and the unit.
unfoldable pub unit_frame : List ℕ → List ℕ
unit_frame nalu = start_code (get_or nalu 0 0) (get_or nalu 1 0) ++ nalu

unfoldable pub unit_frames : List (List ℕ) → List ℕ
unit_frames [] = []
unit_frames (nalu ∷ rest) = unit_frame nalu ++ unit_frames rest

-- A NAL unit that RFC 6184 sends as it is: two bytes at least, and a type below 24.
pub record IsUnit (nalu : List ℕ) : Type 0 where
  pub long : 2 ≤ length nalu
  pub byte : get_or nalu 0 0 < 256
  pub type : get_or nalu 0 0 % 32 < 24

pub length-unit_frame : (nalu : List ℕ) → length (unit_frame nalu) ≤ length nalu + 4
unfolding unit_frame start_code
length-unit_frame nalu = ground arith

pub push_payload-single :
    (a : Assembler) (nalu : List ℕ)
    → IsUnit nalu
    → length nalu + 4 ≤ assembler_buffer_size
    → push_payload a (of_list nalu) (length nalu) ≡ some (true, with_frame a (unit_frame nalu))
unfolding push_payload get_single_frame unit_frame start_code
push_payload-single a nalu u fits = ground (arith, read_all nalu, and_0x1f (get_or nalu 0 0) u.byte)

-- One round of the loop, with the size and the pointer behind it written apart.
abbrev round : ℕ → ℕ → List ℕ → ℕ → Memory → Option (Option (List ℕ))
round fuel left out size src =
    stapa_loop fuel (advance src size) (left - 2 - size)
      (out ++ (start_code (src 0) (src 1) ++ read src 0 size))

stapa_loop-round :
    (fuel : ℕ) (m : Memory) (left : ℕ) (out : List ℕ)
    → 2 < left
    → ntohs m 0 ≤ left - 2
    → stapa_loop (suc fuel) m left out ≡ round fuel left out (ntohs m 0) (advance m 2)
unfolding stapa_loop
stapa_loop-round fuel m left out h k = rw (lt→leb left 2 h, le→leb (ntohs m 0) (left - 2) k)

-- The round on a unit that is stored behind its size.
round-unit :
    (fuel left : ℕ) (out nalu rest : List ℕ)
    → left ≡ 2 + length nalu + length rest
    → 2 ≤ length nalu
    → round fuel left out (length nalu) (of_list (nalu ++ rest))
      ≡ stapa_loop fuel (of_list rest) (length rest) (out ++ unit_frame nalu)
unfolding unit_frame
round-unit fuel left out [] rest e h = absurd (omega arith)
round-unit fuel left out (x ∷ []) rest e h = absurd (omega arith)
round-unit fuel left out (x ∷ y ∷ n) rest e h =
    let nalu : List ℕ = x ∷ y ∷ n in
    let left' : left - 2 - length nalu ≡ length rest = omega arith in
    rw (advance-append nalu rest (length nalu) refl, read_behind [] nalu rest 0 refl, left')

stapa_loop-units :
    (fuel : ℕ) (vec : List (List ℕ)) (out : List ℕ)
    → length (stap_units vec) < fuel
    → All (λ n. (2 ≤ length n) × (length n < 2 ^ 16)) vec
    → stapa_loop fuel (of_list (stap_units vec)) (length (stap_units vec)) out
      ≡ some (some (out ++ unit_frames vec))
unfolding stap_units unit_frames
stapa_loop-units zero vec out f h = absurd (omega arith)
stapa_loop-units (suc fuel) [] out f h = unfold stapa_loop in rw append-nil
stapa_loop-units (suc fuel) (nalu ∷ rest) out f (h, hs) =
    stapa_loop-round fuel (of_list (stap_units (nalu ∷ rest))) left out (omega (arith, size))
      (omega (arith, size, split))
    ∙ ap₂ (round fuel left out) split
        (advance-append (htons (length nalu)) (nalu ++ stap_units rest) 2 refl)
    ∙ round-unit fuel left out nalu (stap_units rest) size h.0
    ∙ stapa_loop-units fuel rest (out ++ unit_frame nalu) (omega (arith, size)) hs
    ∙ ap (λ y. some (some y)) (append_assoc out (unit_frame nalu) (unit_frames rest))
  where
    left : ℕ
    left = length (stap_units (nalu ∷ rest))

    size : left ≡ 2 + length nalu + length (stap_units rest)
    size = omega (arith, length-append nalu (stap_units rest))

    split : ntohs (of_list (stap_units (nalu ∷ rest))) 0 ≡ length nalu
    split = ntohs-htons (length nalu) h.1

length-stap_units : (vec : List (List ℕ)) → length (stap_units vec) ≤ length (unit_frames vec)
unfolding stap_units unit_frames unit_frame start_code
length-stap_units [] = omega arith
length-stap_units (nalu ∷ rest) = ground (
  arith,
  length-stap_units rest,
  length-append nalu (stap_units rest),
  length-append (unit_frame nalu) (unit_frames rest),
)

get_stapa_frame-units :
    (a : Assembler) (vec : List (List ℕ))
    → All (λ n. (2 ≤ length n) × (length n < 2 ^ 16)) vec
    → length (unit_frames vec) ≤ assembler_buffer_size
    → get_stapa_frame a (of_list (stap_units vec)) (length (stap_units vec))
      ≡ some (true, with_frame a (unit_frames vec))
unfolding get_stapa_frame
get_stapa_frame-units a vec h fits =
    let short : int_len (length (stap_units vec)) ≡ length (stap_units vec) =
      int_len_small _ (omega (arith, fits, length-stap_units vec)) in
    ground (arith, short, stapa_loop-units (suc (length (stap_units vec))) vec [] (omega arith) h)

-- Units that share a packet come out as one frame: each behind its start code, in order.
pub push_payload-stap :
    (a : Assembler) (vec : List (List ℕ))
    → All (λ n. (2 ≤ length n) × (length n < 2 ^ 16)) vec
    → length (unit_frames vec) ≤ assembler_buffer_size
    → push_payload a (of_list (0x18 ∷ stap_units vec)) (length (0x18 ∷ stap_units vec))
      ≡ some (true, with_frame a (unit_frames vec))
unfolding push_payload
push_payload-stap a vec h fits =
    let behind = advance-append (0x18 ∷ []) (stap_units vec) 1 refl in
    let one_less : length (0x18 ∷ stap_units vec) - 1 ≡ length (stap_units vec) = omega arith in
    rw (behind, one_less) (get_stapa_frame-units a vec h fits)
