-- ===== src/Rtp/H264Builder/Packing.antt =====
-- `build_packet`: one NAL unit, or several under a STAP-A header, in one packet.
use rtc_client.Common.{
  ℕ, ◌+◌, ap, true, false, List, [], ◌∷◌, ◌++◌, append-nil, append_assoc, leb, ltb, length,
}
use rtc_client.Common.Memory.{htons}
use rtc_client.Rtp.H264Builder.{Work, stap_loop, fill_packet, build_packet}
use rtc_client.Rtp.H264Builder.Sent.{Sent, After, After-if, sends_as, Sent-emit}

-- The units of a STAP-A payload: size, then unit.
unfoldable pub stap_units : List (List ℕ) → List ℕ
stap_units [] = []
stap_units (nalu ∷ rest) = htons (length nalu) ++ (nalu ++ stap_units rest)

-- The payload for NAL units that share a packet.
unfoldable pub shared_payload : List (List ℕ) → List ℕ
shared_payload [] = []
shared_payload (nalu ∷ []) = nalu
shared_payload (nalu ∷ next ∷ rest) = 0x18 ∷ stap_units (nalu ∷ next ∷ rest)

stap_loop-Sent :
    (w : Work) (p : ℕ) (payload : List ℕ) (vec : List (List ℕ))
    → After (Sent w ((payload ++ stap_units vec) ∷ [])) (stap_loop w false p payload vec)
unfolding stap_loop stap_units
stap_loop-Sent w p payload [] = rw append-nil (Sent-emit w payload p)
stap_loop-Sent w p payload (nalu ∷ rest) =
    let joined = payload ++ (htons (length nalu) ++ nalu) in
    let end = p + 0 + 2 + length nalu in
    After-if (Sent w ((payload ++ stap_units (nalu ∷ rest)) ∷ []))
      (ltb (p + length nalu) w.buffer_end) _ _
      (sends_as w (stap_loop w false end joined rest)
        (ap (λ y. y ∷ []) (append_assoc payload (htons (length nalu) ++ nalu) (stap_units rest)))
        (stap_loop-Sent w end joined rest))
      tt

stap_loop_first-Sent :
    (w : Work) (p : ℕ) (nalu : List ℕ) (rest : List (List ℕ))
    → After (Sent w ((0x18 ∷ stap_units (nalu ∷ rest)) ∷ [])) (stap_loop w true p [] (nalu ∷ rest))
unfolding stap_loop stap_units
stap_loop_first-Sent w p nalu rest =
    After-if (Sent w ((0x18 ∷ stap_units (nalu ∷ rest)) ∷ [])) (ltb (p + length nalu) w.buffer_end)
      _ _ (stap_loop-Sent w (p + 1 + 2 + length nalu) (0x18 ∷ (htons (length nalu) ++ nalu)) rest)
      tt

fill_packet-Sent :
    (w : Work) (p : ℕ) (nalu : List ℕ) (rest : List (List ℕ))
    → After (Sent w (shared_payload (nalu ∷ rest) ∷ [])) (fill_packet w p (nalu ∷ rest))
unfolding fill_packet shared_payload
fill_packet-Sent w p nalu [] =
    After-if (Sent w (nalu ∷ [])) (ltb (p + length nalu) w.buffer_end) _ _
      (Sent-emit w nalu (p + length nalu)) tt
fill_packet-Sent w p nalu (next ∷ rest) = stap_loop_first-Sent w p nalu (next ∷ rest)

pub build_packet-Sent :
    (w : Work) (nalu : List ℕ) (rest : List (List ℕ))
    → After (Sent w (shared_payload (nalu ∷ rest) ∷ [])) (build_packet w (nalu ∷ rest))
unfolding build_packet
build_packet-Sent w nalu rest =
    After-if (Sent w (shared_payload (nalu ∷ rest) ∷ [])) (leb w.buffer_end (w.pos + 12 + 16)) _ _
      tt (fill_packet-Sent w (w.pos + 12 + 16) nalu rest)
