-- ===== src/Rtp/AacBuilder/RoundTrip.antt =====
-- AAC data from `send_data` to `RTPPacket::parse`.
use rtc_client.Common.{
  ℕ, ◌+◌, ◌%◌, ◌^◌, ◌<◌, ◌≤◌, ◌≡◌, refl, true, false, some, List, length, arith, length-append,
}
use rtc_client.Common.Memory.{IsU32, of_list}
use rtc_client.Rtp.Header.{length-headers, headers}
use rtc_client.Rtp.Packet.{RtpPacket, parse}
use rtc_client.Rtp.Loopback.Parse.{received, parse-headers}
use rtc_client.Rtp.AacBuilder.{Builder, store, send_data, receive_rtp_packet, packets_buffer_size}

-- The state of a builder that has been set up; its counters are `uint32_t`.
pub record Ready (b : Builder) : Type 0 where
  pub initialize : b.initialize ≡ true
  pub sequence : IsU32 b.sequence
  pub timestamp : IsU32 b.timestamp
  pub ssrc : IsU32 b.ssrc

-- The packet that `send_data` leaves on a set-up builder parses to the data, with the builder's
-- sequence, timestamp and SSRC and payload type 97; it fits the buffer; and the builder stays set
-- up, with the next sequence. The data has to be shorter than the buffer less the 28 bytes of the
-- headers.
pub send_data-parse :
    (b : Builder) (frame : List ℕ) (p : RtpPacket)
    → Ready b
    → length frame + 28 < packets_buffer_size
    → (b' : Builder) × (send_data frame b ≡ some (true, b'))
      × Ready b'
      × (b'.sequence ≡ (b.sequence + 1) % 2 ^ 32)
      × (length (receive_rtp_packet b') < packets_buffer_size)
      × (parse p (of_list (receive_rtp_packet b')) (length (receive_rtp_packet b'))
          ≡ (true, received 97 b.sequence b.timestamp b.ssrc frame))
unfolding send_data receive_rtp_packet
send_data-parse b frame p r fits = (
  store frame b,
  ground (arith, r.initialize),
  record {
    initialize = r.initialize;
    sequence = omega arith;
    timestamp = r.timestamp;
    ssrc = r.ssrc;
  },
  refl,
  omega (
    arith,
    length-append (headers 97 b.sequence b.timestamp b.ssrc) frame,
    length-headers 97 b.sequence b.timestamp b.ssrc,
  ),
  parse-headers 97 b.sequence b.timestamp b.ssrc frame p (omega arith) r.sequence r.timestamp r.ssrc
      (omega arith),
)

-- Data that the buffer has no room for is refused, and the builder stays as it is, its last packet
-- included.
pub send_data-refuses :
    (b : Builder) (frame : List ℕ)
    → packets_buffer_size ≤ length frame + 28
    → send_data frame b ≡ some (false, b)
unfolding send_data
send_data-refuses b frame h = ground arith
