-- ===== src/Tests/Packets.antt =====
-- The theorems on packets, builders and the assembler at concrete inputs.
use rtc_client.Common.{◌+◌, ◌<◌, ◌≤◌, ◌≡◌, refl, ◌↔◌, inl, true, some, arith}
use rtc_client.Common.Memory.{advance}
use rtc_client.Rtp.Header.{headers}
use rtc_client.Rtp.Packet.{
  fresh, parse, padding_bytes, extension_at, size_max, set_ssrc, write_ssrc,
}
use rtc_client.Rtp.Packet.Parse.{
  IsWellFormed, overhead, parsed, parse_accepts, parse_payload, parse_underflow, parse_parsed,
}
use rtc_client.Rtp.Packet.Ssrc.{set_ssrc-parse}
use rtc_client.Tests.Data.{packet}

packet-IsWellFormed : IsWellFormed packet 30
unfolding headers
packet-IsWellFormed = (omega arith, refl, refl, refl, inl refl)

parse_accepts_example : ((parse fresh packet 30).0 ≡ true) ↔ IsWellFormed packet 30
parse_accepts_example = parse_accepts fresh packet 30

pub packet_accepted : (parse fresh packet 30).0 ≡ true
packet_accepted = (parse_accepts fresh packet 30).1 packet-IsWellFormed

packet_fits : overhead packet 30 ≤ 30
unfolding headers
packet_fits = omega arith

parse_payload_example :
    ((parse fresh packet 30).1.payload_len + overhead packet 30 ≡ 30)
    × ((parse fresh packet 30).1.payload ≡ some (advance packet (extension_at packet + 16)))
parse_payload_example = parse_payload fresh packet 30 (omega arith) packet_accepted packet_fits

-- A packet of which only 20 bytes arrive, in a buffer that holds the rest of it.
short-IsWellFormed : IsWellFormed packet 20
unfolding headers
short-IsWellFormed = (omega arith, refl, refl, refl, inl refl)

short_padding : padding_bytes packet 20 < 256
unfolding headers
short_padding = omega arith

short_overhead : 20 < overhead packet 20
unfolding headers
short_overhead = omega arith

parse_underflow_example :
    ((parse fresh packet 20).1.payload_len + overhead packet 20 ≡ 20 + size_max)
    × (20 < (parse fresh packet 20).1.payload_len)
parse_underflow_example =
    parse_underflow fresh packet 20 short_padding
      ((parse_accepts fresh packet 20).1 short-IsWellFormed) short_overhead

parse_parsed_example : parse fresh packet 30 ≡ (true, parsed packet 30)
parse_parsed_example = parse_parsed fresh packet 30 packet-IsWellFormed

set_ssrc-parse_example :
    (set_ssrc (parse fresh packet 30).1 77 ≡ some (write_ssrc packet 77))
    × (parse fresh (write_ssrc packet 77) 30 ≡ (
      true,
      record (parse fresh packet 30).1 { ssrc = 77; packet = some (write_ssrc packet 77) },
    ))
set_ssrc-parse_example = set_ssrc-parse fresh fresh packet 30 77 packet-IsWellFormed (omega arith)
