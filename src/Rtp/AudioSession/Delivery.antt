-- ===== src/Rtp/AudioSession/Delivery.antt =====
-- The packet of an audio session, and what a receiver reads from it.
use rtc_client.Common.{
  ℕ, ◌+◌, ◌%◌, ◌^◌, ◌<◌, ◌≡◌, refl, true, Option, some, List, [], ◌∷◌, ◌++◌, arith, length,
}
use rtc_client.Common.Memory.{IsU32, of_list, htonl}
use rtc_client.Rtp.Header.{headers}
use rtc_client.Rtp.Packet.{RtpPacket, parse}
use rtc_client.Rtp.AacBuilder.{Builder, packets_buffer_size, store, receive_rtp_packet}
use rtc_client.Rtp.AacBuilder
use rtc_client.Rtp.AacBuilder.RoundTrip.{Ready}
use rtc_client.Rtp.Loopback.Parse.{received, parse-headers}
use rtc_client.Rtp.Transmitter.{Transmitter, Address}
use rtc_client.Rtp.VideoSession.{store_at}
use rtc_client.Rtp.VideoSession.Delivery.{IsReliable, send_data-reliable}
use rtc_client.Rtp.AudioSession.{AudioSession, send_through, send_aac_data}

store_at-headers :
    (now_ms s t c : ℕ) (x : List ℕ)
    → store_at 4 (htonl now_ms) (headers 97 s t c ++ x) ≡ headers 97 s now_ms c ++ x
unfolding store_at headers
store_at-headers now_ms s t c x = refl

module _ (sendto : Address → List ℕ → Option ℕ) (reliable : IsReliable sendto) where
  send_through-reliable :
      (now_ms : ℕ) (frame : List ℕ) (s : AudioSession) (b : Builder) (t : Transmitter)
      → b.initialize ≡ true
      → length frame + 28 < packets_buffer_size
      → send_through sendto now_ms frame s b t
        ≡ some (record {
          ok = true;
          session = record s { builder = some (store frame b) };
          sendings =
              record {
                bytes = headers 97 b.sequence now_ms b.ssrc ++ frame;
                called = t.destinations;
              }
              ∷ [];
        })
  unfolding send_through AacBuilder.send_data store receive_rtp_packet
  send_through-reliable now_ms frame s b t i fits = ground (
    arith,
    i,
    store_at-headers now_ms b.sequence b.timestamp b.ssrc frame,
    send_data-reliable sendto reliable (headers 97 b.sequence now_ms b.ssrc ++ frame) t,
  )

-- A set-up session, a system that sends everything, and a frame that is shorter than the buffer
-- less the 28 bytes of the headers: `send_aac_data` returns true, every destination gets one
-- packet, the builder stays set up with the next sequence modulo 2 ^ 32, and the packet parses to
-- the frame, with the whole sequence and the SSRC of the builder and the time of the call.
pub send_aac_data-parse :
    (sendto : Address → List ℕ → Option ℕ) (now_ms : ℕ) (frame : List ℕ) (s : AudioSession)
    (b : Builder) (t : Transmitter) (p : RtpPacket)
    → IsReliable sendto
    → s.initialize ≡ true
    → s.builder ≡ some b
    → s.transmitter ≡ some t
    → Ready b
    → length frame + 28 < packets_buffer_size
    → IsU32 now_ms
    → (bytes : List ℕ) × (b' : Builder) × (send_aac_data sendto now_ms frame s
        ≡ some (record {
          ok = true;
          session = record s { builder = some b' };
          sendings = record { bytes = bytes; called = t.destinations } ∷ [];
        }))
      × Ready b'
      × (b'.sequence ≡ (b.sequence + 1) % 2 ^ 32)
      × (parse p (of_list bytes) (length bytes)
          ≡ (true, received 97 b.sequence now_ms b.ssrc frame))
unfolding send_aac_data store
send_aac_data-parse sendto now_ms frame s b t p reliable i eb et r fits clock = (
  headers 97 b.sequence now_ms b.ssrc ++ frame,
  store frame b,
  ground (
    arith,
    i,
    eb,
    et,
    send_through-reliable sendto reliable now_ms frame s b t r.initialize fits,
  ),
  record {
    initialize = r.initialize;
    sequence = omega arith;
    timestamp = r.timestamp;
    ssrc = r.ssrc;
  },
  refl,
  parse-headers 97 b.sequence now_ms b.ssrc frame p (omega arith) r.sequence clock r.ssrc
      (omega arith),
)
