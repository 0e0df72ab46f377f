-- ===== src/Rtp/Loopback/Payloads.antt =====
-- The payloads of NAL units are neither empty nor too long for a packet.
use rtc_client.Common.{
  ℕ, suc, zero, ◌+◌, ◌≤◌, ◌≡◌, refl, Bool, true, false, List, [], ◌∷◌, ◌++◌, arith, length,
  length-append, length-take, All, All-append, if◌then◌else◌, ltb, leb, ◌==◌, ◌&&◌,
}
use rtc_client.Rtp.Assembler.{assembler_buffer_size}
use rtc_client.Rtp.H264Builder.{payload_size, copy_length}
use rtc_client.Rtp.H264Builder.Packing.{stap_units, shared_payload}
use rtc_client.Rtp.H264Builder.Fragments.{fragments, nalu_fragments}
use rtc_client.Rtp.H264Builder.Receive.{waiting, payloads}
use rtc_client.Rtp.Loopback.Units.{IsUnit}
use rtc_client.Rtp.Loopback.Transport.{IsPayload}
use rtc_client.Rtp.Loopback.Stream.{AllUnits, AllShort, frames_size, frames_size-append}

length-stap_units : (vec : List (List ℕ)) → length (stap_units vec) ≤ frames_size vec
unfolding stap_units
length-stap_units [] = omega arith
length-stap_units (nalu ∷ rest) =
    omega (arith, length-append nalu (stap_units rest), length-stap_units rest)

waiting-IsPayload :
    (tmp : List (List ℕ))
    → AllShort tmp
    → frames_size tmp ≤ assembler_buffer_size
    → All IsPayload (waiting tmp)
unfolding waiting shared_payload
waiting-IsPayload [] h fits = tt
waiting-IsPayload (nalu ∷ []) ((u, short), hs) fits =
    let long : 2 ≤ length nalu = u.long in ((omega arith, omega arith), tt)
waiting-IsPayload (nalu ∷ next ∷ rest) h fits =
    ((omega arith, omega (arith, length-stap_units (nalu ∷ next ∷ rest))), tt)

All-if :
    (b : Bool) (xs ys : List (List ℕ))
    → (b ≡ true → All IsPayload xs)
    → (b ≡ false → All IsPayload ys)
    → All IsPayload (if b then xs else ys)
All-if true xs ys h h' = h refl
All-if false xs ys h h' = h' refl

fragments-IsPayload :
    (fuel fnri type : ℕ) (start : Bool) (left : List ℕ)
    → All IsPayload (fragments fuel fnri type start left)
unfolding fragments
fragments-IsPayload zero fnri type start left = tt
fragments-IsPayload (suc fuel) fnri type start left = (
  (omega arith, ground (arith, length-take (copy_length (length left)) left)),
  All-if (leb (length left) (copy_length (length left))) [] _ (λ last. tt)
      λ more. fragments-IsPayload fuel fnri type false _,
)

payloads-IsPayload :
    (tmp : List (List ℕ)) (total : ℕ) (nalus : List (List ℕ))
    → AllShort tmp
    → AllUnits nalus
    → frames_size tmp + frames_size nalus ≤ assembler_buffer_size
    → All IsPayload (payloads tmp total nalus)
unfolding payloads nalu_fragments
payloads-IsPayload tmp total [] ht hn fits = waiting-IsPayload tmp ht (omega arith)
payloads-IsPayload tmp total (nalu ∷ rest) ht (u, hn) fits =
    let before : All IsPayload (waiting tmp) = waiting-IsPayload tmp ht (omega arith) in
    All-if (ltb payload_size (length nalu)) _ _
      (λ long. All-append IsPayload (waiting tmp) _ before (
        All-append IsPayload (nalu_fragments nalu) _ (fragments-IsPayload _ _ _ _ _)
          (payloads-IsPayload [] (if length tmp == 0 then total else 0) rest tt hn (omega arith))))
      λ short.
        let waits : AllShort (nalu ∷ []) = ((u, ground arith), tt) in
        All-if (ltb total payload_size && ltb payload_size (total + length nalu)) _ _
          (λ over.
            All-append IsPayload (waiting tmp) _ before
              (payloads-IsPayload (nalu ∷ []) (length nalu) rest waits hn (omega arith)))
          λ together.
            payloads-IsPayload (tmp ++ (nalu ∷ [])) (total + length nalu) rest
              (All-append (λ n. IsUnit n × (length n ≤ payload_size)) tmp (nalu ∷ []) ht waits) hn
              (omega (arith, frames_size-append tmp (nalu ∷ [])))

-- Every payload that `receive_rtp_packets` makes of units whose frames fit the assembler's buffer
-- can be carried.
pub payloads-AllPayloads :
    (nalus : List (List ℕ))
    → AllUnits nalus
    → frames_size nalus ≤ assembler_buffer_size
    → All IsPayload (payloads [] 0 nalus)
payloads-AllPayloads nalus h fits = payloads-IsPayload [] 0 nalus tt h (omega arith)
