-- ===== src/Rtp/H264Builder/Complete.antt =====
-- `receive_rtp_packets` with enough buffer: it returns true, and its packets carry every payload.
use rtc_client.Common.{arith, ◌<◌, ◌≡◌, refl, []}
use rtc_client.Rtp.H264Builder.{
  Builder, Work, Outcome, built, full, stuck, receive_rtp_packets, pack_loop,
}
use rtc_client.Rtp.H264Builder.Sent.{After}
use rtc_client.Rtp.H264Builder.Receive.{Delivers, receive_rtp_packets-Delivers}
use rtc_client.Rtp.H264Builder.Room.{Returns, Returns-mono, Within, cost, pack_loop-Within}

receive_rtp_packets-Returns :
    (b : Builder)
    → cost b.nalu_vec < b.buffer_end
    → Returns
        (Within (record { builder = record b { pos = 0 }; packets = [] }) (cost b.nalu_vec))
        (receive_rtp_packets b)
unfolding receive_rtp_packets
receive_rtp_packets-Returns b room =
    Returns-mono (pack_loop empty [] 0 b.nalu_vec)
      (λ w k. record { pos = omega (arith, k.pos); buffer_end = k.buffer_end })
      (pack_loop-Within empty [] 0 b.nalu_vec (omega arith))
  where
    empty : Work
    empty = record { builder = record b { pos = 0 }; packets = [] }

both :
    {P Q : Work → Type 0} (o : Outcome)
    → Returns P o
    → After Q o
    → (w : Work) × (o ≡ built w) × P w × Q w
both (built w) p q = (w, refl, p, q)
both (full w) p q = absurd p
both stuck p q = absurd p

-- If twice the bytes of the NAL units and 31 bytes more for each unit fit the packets buffer, then
-- `receive_rtp_packets` returns true without leaving the buffer, its packets are the payloads of
-- the units in order under headers with the builder's timestamp and SSRC and consecutive sequence
-- numbers modulo 2 ^ 32, and the builder's sequence is the number that comes next.
pub receive_rtp_packets-built :
    (b : Builder)
    → cost b.nalu_vec < b.buffer_end
    → (w : Work) × (receive_rtp_packets b ≡ built w) × (w.pos < b.buffer_end) × Delivers b w
receive_rtp_packets-built b room =
    let (w, e, within, delivers) =
      both (receive_rtp_packets b) (receive_rtp_packets-Returns b room)
        (receive_rtp_packets-Delivers b) in
    (w, e, omega (arith, within.pos), delivers)
