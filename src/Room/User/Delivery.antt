-- ===== src/Room/User/Delivery.antt =====
-- A frame from a video session to the callback of a user.
use rtc_client.Common.{
  ℕ, ◌+◌, ◌<◌, ◌≤◌, ◌%◌, ◌≡◌, refl, ap, ◌∙◌, true, Option, some, List, [], ◌∷◌, arith, length,
  length-append, All,
}
use rtc_client.Common.Memory.{Memory, IsU32}
use rtc_client.Rtp.Assembler.{Assembler, assembler_buffer_size, start_code}
use rtc_client.Rtp.H264Builder.{Builder}
use rtc_client.Rtp.H264Builder
use rtc_client.Rtp.H264Builder.Room.{cost}
use rtc_client.Rtp.H264Builder.Complete.{receive_rtp_packets-built}
use rtc_client.Rtp.H264Builder.Receive.{payloads}
use rtc_client.Rtp.H264Builder.Sent.{numbered}
use rtc_client.Rtp.Loopback.Fragments.{feed, large_frame}
use rtc_client.Rtp.Loopback.Last.{LastCompletes, payloads-Last}
use rtc_client.Rtp.Loopback.Payloads.{payloads-AllPayloads}
use rtc_client.Rtp.Loopback.Stream.{AllUnits, frames_size, sent_frame, sent_frames, Feeds-all}
use rtc_client.Rtp.Loopback.Transport.{IsPayload}
use rtc_client.Rtp.Loopback.Units.{unit_frame}
use rtc_client.Rtp.Transmitter.{Transmitter, Address}
use rtc_client.Rtp.VideoSession.{VideoSession, Sending, Sent, send_h264_data}
use rtc_client.Rtp.VideoSession.Delivery.{IsReliable, finish_all, sent_to, send_h264_data-reliable}
use rtc_client.Room.User.{RoomUser, recv_buffer_size}
use rtc_client.Room.User.Media.{watch, with_media, watch-finish_all}

-- The packets of some sendings.
unfoldable pub wire : List Sending → List (List ℕ)
wire [] = []
wire (x ∷ xs) = x.bytes ∷ wire xs

wire-sent_to : (ds : List Address) (packets : List (List ℕ)) → wire (sent_to ds packets) ≡ packets
unfolding wire
wire-sent_to ds [] = refl
wire-sent_to ds (x ∷ xs) = ap (◌∷◌ x) (wire-sent_to ds xs)

sent_frame-bounds :
    (nalu : List ℕ)
    → 0 < length nalu
    → (0 < length (sent_frame nalu)) × (length (sent_frame nalu) ≤ length nalu + 4)
unfolding sent_frame large_frame unit_frame start_code
sent_frame-bounds nalu h = ground arith

sent_frames-bounds :
    (vec : List (List ℕ)) → AllUnits vec → length (sent_frames vec) ≤ frames_size vec
unfolding sent_frames
sent_frames-bounds [] h = omega arith
sent_frames-bounds (nalu ∷ rest) (u, hs) = omega (
  arith,
  length-append (sent_frame nalu) (sent_frames rest),
  sent_frame-bounds nalu (omega (arith, u.long)),
  sent_frames-bounds rest hs,
)

sent_frames-some :
    (vec : List (List ℕ)) → AllUnits vec → 0 < length vec → 0 < length (sent_frames vec)
unfolding sent_frames
sent_frames-some [] h pos = absurd (omega arith)
sent_frames-some (nalu ∷ rest) (u, hs) pos = omega (
  arith,
  length-append (sent_frame nalu) (sent_frames rest),
  sent_frame-bounds nalu (omega (arith, u.long)),
)

module _ (u : RoomUser) (heard : u.has_h264_callback ≡ true) (now_ms c num : ℕ)
    (clock : IsU32 now_ms) (source : IsU32 c) (byte : num < 256) where
  watch-payloads :
      (a a' : Assembler) (s t : ℕ) (xs : List (List ℕ)) (out : List ℕ)
      → a.initialize ≡ true
      → All IsPayload xs
      → LastCompletes xs
      → feed a xs ≡ some (a', out)
      → 0 < length out
      → length out < recv_buffer_size
      → watch (with_media u a []) (finish_all now_ms num (numbered t c s xs))
        ≡ some (record { bytes = out; ssrc = c; timestamp = now_ms } ∷ [], with_media u a' [])
  watch-payloads a a' s t [] out i ps last e h room = absurd (unfold feed in ground (arith, e))
  watch-payloads a a' s t (x ∷ xs) out i ps last e h room =
      watch-finish_all u heard now_ms c num clock source byte a a' [] s t x xs out i ps last e
        (omega (arith, room))

-- A set-up session, a system that sends everything, and data whose units (one at least, each of at
-- least two bytes and a type below 24) fit the buffers of the builder and of the assembler:
-- `send_h264_data` returns true. The packets are such that, where each is parsed and handed to a
-- user's `handle_video` in the order in which they were sent, the user's callback is called once,
-- with all the units in order, each behind a start code, and with the SSRC and the time of the call.
-- This is not about the list that orders what a user receives: it loses the first packet, and hands
-- out a packet only when more of them wait behind it.
pub send_h264_data-watch :
    (sendto : Address → List ℕ → Option ℕ) (now_ms : ℕ) (m : Memory) (base len : ℕ)
    (s : VideoSession) (b b' : Builder) (t : Transmitter) (u : RoomUser) (a : Assembler)
    → IsReliable sendto
    → s.initialize ≡ true
    → s.builder ≡ some b
    → s.transmitter ≡ some t
    → H264Builder.send_data m base len b ≡ some (true, b')
    → 0 < length b'.nalu_vec
    → AllUnits b'.nalu_vec
    → cost b'.nalu_vec < b'.buffer_end
    → frames_size b'.nalu_vec ≤ assembler_buffer_size
    → IsU32 now_ms
    → IsU32 b'.ssrc
    → u.has_h264_callback ≡ true
    → a.initialize ≡ true
    → (sent : Sent) × (a' : Assembler) × (send_h264_data sendto now_ms m base len s ≡ some sent)
      × (sent.ok ≡ true)
      × (watch (with_media u a []) (wire sent.sendings)
          ≡ some (
            record { bytes = sent_frames b'.nalu_vec; ssrc = b'.ssrc; timestamp = now_ms } ∷ [],
            with_media u a' [],
          ))
send_h264_data-watch sendto now_ms m base len s b b' t u a reliable i eb et e some_data units room
      fits clock source heard j =
    let (w, f, within, d) = receive_rtp_packets-built b' room in
    let (a', k, g) = Feeds-all a b'.nalu_vec units fits in
    let num : ℕ = length w.packets % 256 in
    (
      _,
      a',
      send_h264_data-reliable sendto reliable now_ms m base len s b b' w t i eb et e f,
      refl,
      ap (watch (with_media u a [])) (wire-sent_to t.destinations (finish_all now_ms num w.packets))
          ∙ ap (λ packets. watch (with_media u a []) (finish_all now_ms num packets)) d.packets
          ∙ watch-payloads u heard now_ms b'.ssrc num clock source (omega arith) a a' b'.sequence
              b'.timestamp (payloads [] 0 b'.nalu_vec) (sent_frames b'.nalu_vec) j
              (payloads-AllPayloads b'.nalu_vec units fits) (payloads-Last b'.nalu_vec units fits) g
              (sent_frames-some b'.nalu_vec units some_data)
              (omega (arith, sent_frames-bounds b'.nalu_vec units)),
    )
