-- ===== src/Rtp/Loopback/Last.antt =====
-- The last payload of a list of NAL units completes a frame.
use rtc_client.Common.{
  ℕ, zero, suc, ◌+◌, ◌<◌, ◌≤◌, ◌≡◌, refl, subst, sym, Bool, true, false, List, [], ◌∷◌, ◌++◌, arith,
  length, some, bit_and, bit_or, dec_lt, drop, take, length-drop, get_or, All-append, if◌then◌else◌,
  ltb, ◌==◌, ◌&&◌,
}
use rtc_client.Common.Bits.{fu_indicator}
use rtc_client.Common.Memory.{of_list}
use rtc_client.Rtp.Assembler.{Assembler, push_payload, with_frame, assembler_buffer_size}
use rtc_client.Rtp.H264Builder.{payload_size}
use rtc_client.Rtp.H264Builder.Packing.{shared_payload}
use rtc_client.Rtp.H264Builder.Fragments.{fragments, nalu_fragments}
use rtc_client.Rtp.H264Builder.Receive.{waiting, payloads}
use rtc_client.Rtp.Loopback.Units.{
  IsUnit, unit_frame, unit_frames, push_payload-single, push_payload-stap,
}
use rtc_client.Rtp.Loopback.Fragments.{
  push_end, rest_of, rest_of_last, rest_of_more, fragments_first,
}
use rtc_client.Rtp.Loopback.Stream.{
  AllUnits, AllShort, frames_size, frames_size-append, stap_sizes, length-unit_frames,
}

-- The push of this payload returns true, whatever was pushed before.
abbrev pub Completes : List ℕ → Type 0
Completes x =
    (a : Assembler)
    → (f : List ℕ) × (push_payload a (of_list x) (length x) ≡ some (true, with_frame a f))

abbrev pub LastCompletes : List (List ℕ) → Type 0
LastCompletes [] = Unit {0}
LastCompletes (x ∷ []) = Completes x
LastCompletes (x ∷ y ∷ ys) = LastCompletes (y ∷ ys)

LastCompletes-append :
    (xs ys : List (List ℕ)) → LastCompletes xs → LastCompletes ys → LastCompletes (xs ++ ys)
LastCompletes-append [] ys hx hy = hy
LastCompletes-append (x ∷ []) [] hx hy = hx
LastCompletes-append (x ∷ []) (y ∷ ys) hx hy = hy
LastCompletes-append (x ∷ x' ∷ xs) ys hx hy = LastCompletes-append (x' ∷ xs) ys hx hy

-- In front of payloads that are there.
LastCompletes-cons :
    (x : List ℕ) (ys : List (List ℕ)) → 0 < length ys → LastCompletes ys → LastCompletes (x ∷ ys)
LastCompletes-cons x [] h hy = absurd (omega arith)
LastCompletes-cons x (y ∷ ys) h hy = hy

waiting-LastCompletes :
    (tmp : List (List ℕ))
    → AllShort tmp
    → frames_size tmp ≤ assembler_buffer_size
    → LastCompletes (waiting tmp)
unfolding waiting shared_payload
waiting-LastCompletes [] h fits = tt
waiting-LastCompletes (nalu ∷ []) ((u, short), hs) fits =
    λ a. (unit_frame nalu, push_payload-single a nalu u (omega arith))
waiting-LastCompletes (nalu ∷ next ∷ rest) h fits = λ a.
    let vec : List (List ℕ) = nalu ∷ next ∷ rest in
    (
      unit_frames vec,
      push_payload-stap a vec (stap_sizes vec h) (omega (arith, length-unit_frames vec)),
    )

module _ (x : ℕ) (byte : x < 256) where
  length-rest_of : (fuel : ℕ) (left : List ℕ) → 0 < fuel → 0 < length (rest_of x byte fuel left)
  unfolding fragments
  length-rest_of zero left h = absurd (omega arith)
  length-rest_of (suc fuel) left h = omega arith

  rest_of-LastCompletes :
      (fuel : ℕ) (left : List ℕ)
      → length left < fuel
      → 0 < length left
      → LastCompletes (rest_of x byte fuel left)
  rest_of-LastCompletes zero left h pos = absurd (omega arith)
  rest_of-LastCompletes (suc fuel) left h pos = elim (dec_lt 1370 (length left)) [
    | no short ↦
        subst LastCompletes (sym (rest_of_last x byte fuel left (omega arith)))
          λ a. (a.frame ++ left, push_end a x left byte pos (omega arith))
    | yes long ↦ subst LastCompletes (sym (rest_of_more x byte fuel left long)) (
        LastCompletes-cons (fu_indicator x ∷ bit_or 0x00 (bit_and x 0x1f) ∷ take 1370 left)
          (rest_of x byte fuel (drop 1370 left))
          (length-rest_of fuel (drop 1370 left) (omega arith))
          (rest_of-LastCompletes fuel (drop 1370 left) (omega (arith, length-drop 1370 left))
            (omega (arith, length-drop 1370 left))))
  ]

nalu_fragments-LastCompletes :
    (nalu : List ℕ)
    → get_or nalu 0 0 < 256
    → 1372 < length nalu
    → LastCompletes (nalu_fragments nalu)
unfolding nalu_fragments
nalu_fragments-LastCompletes [] byte long = absurd (omega arith)
nalu_fragments-LastCompletes (x ∷ l) byte long =
    subst LastCompletes (sym (fragments_first x byte (length l) l (omega arith))) (
      LastCompletes-cons (fu_indicator x ∷ bit_or 0x80 (bit_and x 0x1f) ∷ take 1370 l)
        (rest_of x byte (length l) (drop 1370 l))
        (length-rest_of x byte (length l) (drop 1370 l) (omega arith))
        (rest_of-LastCompletes x byte (length l) (drop 1370 l) (omega (arith, length-drop 1370 l))
          (omega (arith, length-drop 1370 l))))

choose-LastCompletes :
    (b : Bool) (xs ys : List (List ℕ))
    → (b ≡ true → LastCompletes xs)
    → (b ≡ false → LastCompletes ys)
    → LastCompletes (if b then xs else ys)
choose-LastCompletes true xs ys h h' = h refl
choose-LastCompletes false xs ys h h' = h' refl

payloads-LastCompletes :
    (tmp : List (List ℕ)) (total : ℕ) (nalus : List (List ℕ))
    → AllShort tmp
    → AllUnits nalus
    → frames_size tmp + frames_size nalus ≤ assembler_buffer_size
    → LastCompletes (payloads tmp total nalus)
unfolding payloads
payloads-LastCompletes tmp total [] ht hn fits = waiting-LastCompletes tmp ht (omega arith)
payloads-LastCompletes tmp total (nalu ∷ rest) ht (u, hn) fits =
    let before : LastCompletes (waiting tmp) = waiting-LastCompletes tmp ht (omega arith) in
    choose-LastCompletes (ltb payload_size (length nalu)) _ _
      (λ long. LastCompletes-append (waiting tmp) _ before (
        LastCompletes-append (nalu_fragments nalu) _
          (nalu_fragments-LastCompletes nalu u.byte (ground arith))
          (payloads-LastCompletes [] (if length tmp == 0 then total else 0) rest tt hn
            (omega arith))))
      λ short.
        let waits : AllShort (nalu ∷ []) = ((u, ground arith), tt) in
        choose-LastCompletes (ltb total payload_size && ltb payload_size (total + length nalu)) _ _
          (λ over.
            LastCompletes-append (waiting tmp) _ before
              (payloads-LastCompletes (nalu ∷ []) (length nalu) rest waits hn (omega arith)))
          λ together.
            payloads-LastCompletes (tmp ++ (nalu ∷ [])) (total + length nalu) rest
              (All-append (λ n. IsUnit n × (length n ≤ payload_size)) tmp (nalu ∷ []) ht waits) hn
              (omega (arith, frames_size-append tmp (nalu ∷ [])))

pub payloads-Last :
    (nalus : List (List ℕ))
    → AllUnits nalus
    → frames_size nalus ≤ assembler_buffer_size
    → LastCompletes (payloads [] 0 nalus)
payloads-Last nalus h fits = payloads-LastCompletes [] 0 nalus tt h (omega arith)
