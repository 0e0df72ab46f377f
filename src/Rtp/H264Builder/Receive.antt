-- ===== src/Rtp/H264Builder/Receive.antt =====
-- `receive_rtp_packets`: which payloads carry a list of NAL units.
use rtc_client.Common.{
  ℕ, ◌+◌, ◌≡◌, refl, Bool, true, false, List, [], ◌∷◌, ◌++◌, arith, ltb, ◌==◌, if◌then◌else◌,
  length, ◌&&◌,
}
use rtc_client.Rtp.H264Builder.{
  Work, Outcome, build_fua_packet, flush, pack_loop, receive_rtp_packets, payload_size, Builder,
}
use rtc_client.Rtp.H264Builder.Sent.{
  Sent, After, After-mono, After-Sent, Sent-nil, numbered, next_sequence,
}
use rtc_client.Rtp.H264Builder.Packing.{shared_payload, build_packet-Sent}
use rtc_client.Rtp.H264Builder.Fragments.{nalu_fragments, build_fua_packet-Sent}

-- The payload, if any, of the units that wait.
unfoldable pub waiting : List (List ℕ) → List (List ℕ)
waiting [] = []
waiting (nalu ∷ rest) = shared_payload (nalu ∷ rest) ∷ []

-- The payloads, with no buffer and no counters: a unit too long for one payload goes in fragments,
-- any other waits for the units behind it while their sizes fit.
unfoldable pub payloads : List (List ℕ) → ℕ → List (List ℕ) → List (List ℕ)
payloads tmp total [] = waiting tmp
payloads tmp total (nalu ∷ rest) =
    let large =
      waiting tmp
      ++ (nalu_fragments nalu ++ payloads [] (if length tmp == 0 then total else 0) rest) in
    let apart = waiting tmp ++ payloads (nalu ∷ []) (length nalu) rest in
    let together = payloads (tmp ++ (nalu ∷ [])) (total + length nalu) rest in
    if ltb payload_size (length nalu)
    then large
    else if ltb total payload_size && ltb payload_size (total + length nalu)
    then apart
    else together

flush-Sent : (w : Work) (tmp : List (List ℕ)) → After (Sent w (waiting tmp)) (flush w tmp)
unfolding flush waiting
flush-Sent w [] = Sent-nil w
flush-Sent w (nalu ∷ rest) = build_packet-Sent w nalu rest

choose-Sent :
    (w : Work) (b : Bool) (xs ys : List (List ℕ)) (o o' : Outcome)
    → (b ≡ true → After (Sent w xs) o)
    → (b ≡ false → After (Sent w ys) o')
    → After (Sent w (if b then xs else ys)) (if b then o else o')
choose-Sent w true xs ys o o' h h' = h refl
choose-Sent w false xs ys o o' h h' = h' refl

pack_loop-Sent :
    (w : Work) (tmp : List (List ℕ)) (total : ℕ) (nalus : List (List ℕ))
    → After (Sent w (payloads tmp total nalus)) (pack_loop w tmp total nalus)
unfolding pack_loop payloads
pack_loop-Sent w tmp total [] = flush-Sent w tmp
pack_loop-Sent w tmp total (nalu ∷ rest) =
    choose-Sent w (ltb payload_size (length nalu)) _ _ _ _
      (λ long. After-Sent w _ _ (flush w tmp) _ (flush-Sent w tmp) λ v.
        After-Sent v _ _ (build_fua_packet v nalu) _ (build_fua_packet-Sent v nalu (ground arith))
          λ u. pack_loop-Sent u [] (if length tmp == 0 then total else 0) rest)
      λ short.
        choose-Sent w (ltb total payload_size && ltb payload_size (total + length nalu)) _ _ _ _
          (λ over.
            After-Sent w _ _ (flush w tmp) _ (flush-Sent w tmp)
              λ v. pack_loop-Sent v (nalu ∷ []) (length nalu) rest)
          λ fits. pack_loop-Sent w (tmp ++ (nalu ∷ [])) (total + length nalu) rest

-- What a finished run has left: the numbered packets, and the number that comes next.
pub record Delivers (b : Builder) (w : Work) : Type 0 where
  pub packets : w.packets ≡ numbered b.timestamp b.ssrc b.sequence (payloads [] 0 b.nalu_vec)
  pub sequence : w.sequence ≡ next_sequence b.sequence (payloads [] 0 b.nalu_vec)

-- `receive_rtp_packets` ends on every list of NAL units, and where it returns true its packets
-- carry the payloads in order, under the headers of the builder's timestamp and SSRC and of
-- sequence numbers that go up by one modulo 2 ^ 32, and the builder's sequence is the next number.
pub receive_rtp_packets-Delivers : (b : Builder) → After (Delivers b) (receive_rtp_packets b)
unfolding receive_rtp_packets
receive_rtp_packets-Delivers b =
    After-mono (pack_loop (record { builder = record b { pos = 0 }; packets = [] }) [] 0 b.nalu_vec)
      (λ w sent. record { packets = sent.packets; sequence = sent.sequence })
      (pack_loop-Sent _ [] 0 b.nalu_vec)
