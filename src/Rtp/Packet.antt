-- ===== src/Rtp/Packet.antt =====
-- `RTPPacket` of src/rtp/rtp_packet.cpp: the view of a received buffer that `parse` takes. A buffer
-- is the memory behind a pointer and a length; reads that the code does not guard go past the
-- length into whatever that memory holds.
pub mod Parse
pub mod Ssrc
use rtc_client.Common.{
  ℕ, ◌+◌, ◌-◌, ◌*◌, ◌/◌, ◌%◌, ◌^◌, Bool, true, false, not, Option, none, some, leb, ltb, ◌==◌,
  if◌then◌else◌, get_or,
}
use rtc_client.Common.Memory.{Memory, advance, ntohs, ntohl, htonl}
use rtc_client.Rtp.Header.{header_size, extension_size}

-- A null pointer is `none`.
pub record RtpPacket : Type 0 where
  pub padding : Bool
  pub extension : Bool
  pub csrc_count : ℕ
  pub marker : Bool
  pub payload_type : ℕ
  pub sequence : ℕ
  pub timestamp : ℕ
  pub ssrc : ℕ
  pub extension_id : ℕ
  pub extension_len : ℕ
  pub reserved : ℕ
  pub msw : ℕ
  pub lsw : ℕ
  pub payload : Option Memory
  pub payload_len : ℕ
  pub packet : Option Memory
  pub packet_len : ℕ

abbrev pub fresh : RtpPacket
fresh = record {
  padding = false;
  extension = false;
  csrc_count = 0;
  marker = false;
  payload_type = 0;
  sequence = 0;
  timestamp = 0;
  ssrc = 0;
  extension_id = 0;
  extension_len = 0;
  reserved = 0;
  msw = 0;
  lsw = 0;
  payload = none;
  payload_len = 0;
  packet = none;
  packet_len = 0;
}

-- `reset` assigns every field.
unfoldable pub reset : RtpPacket → RtpPacket
reset p = fresh

-- The bit fields of the first two bytes.
abbrev pub version_of : Memory → ℕ
version_of m = m 0 / 64 % 4

abbrev pub padding_of : Memory → Bool
padding_of m = m 0 / 32 % 2 == 1

abbrev pub extension_of : Memory → Bool
extension_of m = m 0 / 16 % 2 == 1

abbrev pub csrc_count_of : Memory → ℕ
csrc_count_of m = m 0 % 16

abbrev pub marker_of : Memory → Bool
marker_of m = m 1 / 128 % 2 == 1

abbrev pub payload_type_of : Memory → ℕ
payload_type_of m = m 1 % 128

-- Where the extension header stands.
abbrev pub extension_at : Memory → ℕ
extension_at m = header_size + csrc_count_of m * 4

-- The assignments between the version check and the padding check.
unfoldable pub read_header : RtpPacket → Memory → RtpPacket
read_header p m = record p {
  padding = padding_of m;
  extension = extension_of m;
  csrc_count = csrc_count_of m;
  marker = marker_of m;
  payload_type = payload_type_of m;
  sequence = ntohs m 2;
  timestamp = ntohl m 4;
  ssrc = ntohl m 8;
}

-- `uint32_t paddingBytes`, the last byte of the buffer if the padding bit is set.
abbrev pub padding_bytes : Memory → ℕ → ℕ
padding_bytes m len = if padding_of m then m (len - 1) else 0

-- `m_payload_len` is a size_t, so the subtraction wraps and the test `< 0` behind it never holds.
abbrev pub size_max : ℕ
size_max = 2 ^ 64

unfoldable pub payload_length : Memory → ℕ → ℕ
payload_length m len =
    (len + size_max - (padding_bytes m len + header_size + csrc_count_of m * 4 + extension_size))
    % size_max

-- The rest of `parse` once the extension length is known to be 3. `high32 << 16` has no bit in
-- common with the 16 bits that it is or-ed to, so the two add up.
unfoldable pub read_extension : RtpPacket → Memory → RtpPacket
read_extension p m =
    let e = extension_at m in
    record p {
      sequence = ntohs m (e + 6) * 2 ^ 16 + p.sequence;
      reserved = ntohs m (e + 4);
      msw = ntohl m (e + 8);
      lsw = ntohl m (e + 12);
    }

unfoldable pub read_payload : RtpPacket → Memory → ℕ → RtpPacket
unfolding payload_length
read_payload p m len = record p {
  payload_len = payload_length m len;
  payload = some (advance m (extension_at m + extension_size));
}

-- Each early return leaves the fields that were assigned before it.
unfoldable pub parse_extension : RtpPacket → Memory → ℕ → Bool × RtpPacket
unfolding read_extension read_payload
parse_extension p m len =
    let e = extension_at m in
    let q = record p { extension_id = ntohs m e; extension_len = ntohs m (e + 2) } in
    if not p.extension
    then (false, p)
    else if not (q.extension_len == 3)
    then (false, q)
    else (true, read_payload (read_extension q m) m len)

unfoldable pub parse : RtpPacket → Memory → ℕ → Bool × RtpPacket
unfolding read_header parse_extension
parse p m len =
    let at = record p { packet = some m; packet_len = len } in
    let h = read_header at m in
    if leb len header_size
    then (false, p)
    else if not (version_of m == 2)
    then (false, at)
    else if padding_of m
    then (if m (len - 1) == 0 then (false, h) else parse_extension h m len)
    else parse_extension h m len

-- The store of `htonl (newSsrc)` into the buffer; `m_ssrc` keeps the parsed value.
unfoldable pub write_ssrc : Memory → ℕ → Memory
write_ssrc m v i = if ltb i 8 then m i else if ltb i 12 then get_or (htonl v) (i - 8) 0 else m i

-- With no packet `set_ssrc` would write through a null pointer: `none`.
unfoldable pub set_ssrc : RtpPacket → ℕ → Option Memory
unfolding write_ssrc
set_ssrc p v = elim p.packet [ none ↦ none | some m ↦ some (write_ssrc m v) ]

-- `index` is an int; a negative one reads before the list and is not modelled.
unfoldable pub get_csrc : RtpPacket → ℕ → Option ℕ
get_csrc p index =
    if leb p.csrc_count index
    then some 0
    else elim p.packet [ none ↦ none | some m ↦ some (ntohl m (header_size + index * 4)) ]
