-- ===== src/Rtp/Packet/Parse.antt =====
-- Which buffers `RTPPacket::parse` accepts, and what payload it reports for them.
use rtc_client.Common.{
  ℕ, ◌+◌, ◌-◌, ◌*◌, ◌^◌, ◌≤◌, ◌<◌, ◌≡◌, ◌≢◌, ◌↔◌, ◌⊎◌, true, false, some, arith,
}
use rtc_client.Common.Memory.{Memory, ntohs, ntohl, advance}
use rtc_client.Rtp.Header.{extension_size}
use rtc_client.Rtp.Packet.{
  RtpPacket, parse, payload_length, version_of, padding_of, marker_of, payload_type_of,
  extension_of, csrc_count_of, extension_at, padding_bytes, size_max,
}

-- The tests that a buffer must pass.
abbrev pub IsWellFormed : Memory → ℕ → Type 0
IsWellFormed m len =
    (12 < len)
    × (version_of m ≡ 2)
    × (extension_of m ≡ true)
    × (ntohs m (extension_at m + 2) ≡ 3)
    × ((padding_of m ≡ false) ⊎ (m (len - 1) ≢ 0))

-- `parse` returns true exactly on the buffers longer than the RTP header whose version is 2, whose
-- extension bit is set with an extension length of 3, and whose padding, where its bit is set, has
-- a last byte other than 0.
pub parse_accepts :
    (p : RtpPacket) (m : Memory) (len : ℕ) → ((parse p m len).0 ≡ true) ↔ IsWellFormed m len
unfolding parse
parse_accepts p m len = ground arith

-- All that stands in a buffer besides its payload.
abbrev pub overhead : Memory → ℕ → ℕ
overhead m len = 28 + csrc_count_of m * 4 + padding_bytes m len

pub parse_payload_len :
    (p : RtpPacket) (m : Memory) (len : ℕ)
    → (parse p m len).0 ≡ true
    → (parse p m len).1.payload_len ≡ payload_length m len
unfolding parse
parse_payload_len p m len h = ground arith

pub parse_payload_pointer :
    (p : RtpPacket) (m : Memory) (len : ℕ)
    → (parse p m len).0 ≡ true
    → (parse p m len).1.payload ≡ some (advance m (extension_at m + extension_size))
unfolding parse
parse_payload_pointer p m len h = ground arith

-- The buffer is long enough for its headers and its padding.
abbrev pub Fits : Memory → ℕ → Type 0
Fits m len = overhead m len ≤ len

payload_length-Fits :
    (m : Memory) (len : ℕ)
    → len < size_max
    → Fits m len
    → payload_length m len + overhead m len ≡ len
unfolding payload_length
payload_length-Fits m len h k = omega arith

payload_length_wraps :
    (m : Memory) (len : ℕ)
    → padding_bytes m len < 256
    → len < overhead m len
    → payload_length m len + overhead m len ≡ len + size_max
unfolding payload_length
payload_length_wraps m len h k = omega arith

-- On an accepted buffer shorter than 2 ^ 64 bytes that holds its headers and its padding, the
-- payload and these make up the whole buffer, and the payload pointer stands right behind the
-- headers.
pub parse_payload :
    (p : RtpPacket) (m : Memory) (len : ℕ)
    → len < size_max
    → (parse p m len).0 ≡ true
    → Fits m len
    → ((parse p m len).1.payload_len + overhead m len ≡ len)
      × ((parse p m len).1.payload ≡ some (advance m (extension_at m + extension_size)))
parse_payload p m len small h fits = (
  rw (parse_payload_len p m len h) (payload_length-Fits m len small fits),
  parse_payload_pointer p m len h,
)

-- The test for a negative payload length never fires, since the length is unsigned: an accepted
-- buffer that is too short for its headers and its padding gets a payload length longer than the
-- buffer, wrapped round 2 ^ 64.
pub parse_underflow :
    (p : RtpPacket) (m : Memory) (len : ℕ)
    → padding_bytes m len < 256
    → (parse p m len).0 ≡ true
    → len < overhead m len
    → ((parse p m len).1.payload_len + overhead m len ≡ len + size_max)
      × (len < (parse p m len).1.payload_len)
parse_underflow p m len b h short = rw (parse_payload_len p m len h) (wraps, omega (arith, wraps))
  where
    wraps : payload_length m len + overhead m len ≡ len + size_max
    wraps = payload_length_wraps m len b short

-- The packet that a successful `parse` leaves: every field comes from the buffer.
abbrev pub parsed : Memory → ℕ → RtpPacket
parsed m len = record {
  padding = padding_of m;
  extension = true;
  csrc_count = csrc_count_of m;
  marker = marker_of m;
  payload_type = payload_type_of m;
  sequence = ntohs m (extension_at m + 6) * 2 ^ 16 + ntohs m 2;
  timestamp = ntohl m 4;
  ssrc = ntohl m 8;
  extension_id = ntohs m (extension_at m);
  extension_len = 3;
  reserved = ntohs m (extension_at m + 4);
  msw = ntohl m (extension_at m + 8);
  lsw = ntohl m (extension_at m + 12);
  payload = some (advance m (extension_at m + extension_size));
  payload_len = payload_length m len;
  packet = some m;
  packet_len = len;
}

-- On a buffer that passes the tests `parse` returns true, and every field of the packet is read
-- from the buffer: nothing is left over from the packet that was parsed into the object before.
pub parse_parsed :
    (p : RtpPacket) (m : Memory) (len : ℕ)
    → IsWellFormed m len
    → parse p m len ≡ (true, parsed m len)
unfolding parse
parse_parsed p m len h = ground arith
