-- ===== src/Rtp/VideoSession/Delivery.antt =====
-- What a video session hands to its transmitter.
use rtc_client.Common.{ℕ, ◌%◌, ◌≡◌, refl, true, Option, some, List, [], ◌∷◌, arith, length}
use rtc_client.Common.Memory.{Memory}
use rtc_client.Common.Text.{is_empty}
use rtc_client.Rtp.H264Builder.{Builder, Work, built, receive_rtp_packets}
use rtc_client.Rtp.H264Builder
use rtc_client.Rtp.Transmitter.{Transmitter, Address, is_whole, send_loop}
use rtc_client.Rtp.Transmitter
use rtc_client.Rtp.VideoSession.{
  VideoSession, Sending, finish_packet, send_packets, send_built, send_through, send_h264_data,
}

-- The packets of a frame, each with the stores of the session.
unfoldable pub finish_all : ℕ → ℕ → List (List ℕ) → List (List ℕ)
finish_all now_ms num [] = []
finish_all now_ms num (packet ∷ rest) =
    finish_packet (is_empty rest) now_ms num packet ∷ finish_all now_ms num rest

-- The packets as the destinations get them.
abbrev pub sent_to : List Address → List (List ℕ) → List Sending
sent_to destinations [] = []
sent_to destinations (bytes ∷ rest) =
    record { bytes = bytes; called = destinations } ∷ sent_to destinations rest

-- Every call sends all its bytes.
abbrev pub IsReliable : (Address → List ℕ → Option ℕ) → Type 0
IsReliable sendto = (d : Address) (bytes : List ℕ) → is_whole (sendto d bytes) (length bytes) ≡ true

module _ (sendto : Address → List ℕ → Option ℕ) (reliable : IsReliable sendto) where
  send_loop-reliable : (bytes : List ℕ) (ds : List Address) → send_loop sendto bytes ds ≡ (true, ds)
  unfolding send_loop
  send_loop-reliable bytes [] = refl
  send_loop-reliable bytes (d ∷ ds) = ground (arith, send_loop-reliable bytes ds, reliable d bytes)

  pub send_data-reliable :
      (bytes : List ℕ) (t : Transmitter)
      → Transmitter.send_data sendto bytes t ≡ (true, t.destinations)
  unfolding Transmitter.send_data
  send_data-reliable bytes t = send_loop-reliable bytes t.destinations

  send_packets-reliable :
      (now_ms num : ℕ) (t : Transmitter) (packets : List (List ℕ))
      → send_packets sendto now_ms num t packets
        ≡ (true, sent_to t.destinations (finish_all now_ms num packets))
  unfolding send_packets finish_all
  send_packets-reliable now_ms num t [] = refl
  send_packets-reliable now_ms num t (x ∷ rest) =
      rw
        (
          send_data-reliable (finish_packet (is_empty rest) now_ms num x) t,
          send_packets-reliable now_ms num t rest,
        )
        refl

  pub send_h264_data-reliable :
      (now_ms : ℕ) (m : Memory) (base len : ℕ) (s : VideoSession) (b b' : Builder) (w : Work)
      (t : Transmitter)
      → s.initialize ≡ true
      → s.builder ≡ some b
      → s.transmitter ≡ some t
      → H264Builder.send_data m base len b ≡ some (true, b')
      → receive_rtp_packets b' ≡ built w
      → send_h264_data sendto now_ms m base len s
        ≡ some (record {
          ok = true;
          session = record s { builder = some w.builder };
          sendings = sent_to t.destinations (finish_all now_ms (length w.packets % 256) w.packets);
        })
  unfolding send_h264_data send_through send_built
  send_h264_data-reliable now_ms m base len s b b' w t i eb et e f =
      ground
        (arith, i, eb, et, e, f, send_packets-reliable now_ms (length w.packets % 256) t w.packets)
