-- ===== src/Rtp/H264Builder.antt =====
-- `RTPH264PacketBuilder` of src/rtp/rtp_h264_packet_builder.cpp: NAL units to RTP packets.
-- A packet is the list of its bytes: what the code keeps is a pointer into its buffer and a length,
-- and since `m_current_pos` only moves forward while packets are built, no later store touches a
-- packet that is already in the vector. `pos` and `buffer_end` are offsets into that buffer.
pub mod Sent
pub mod Packing
pub mod Fragments
pub mod Receive
pub mod Room
pub mod Complete
pub mod Merging
pub mod Splitting
use rtc_client.Common.{
  ℕ, zero, suc, ◌+◌, ◌-◌, ◌*◌, ◌%◌, ◌^◌, Bool, true, false, ◌&&◌, Option, none, some, List, [], ◌∷◌,
  ◌++◌, leb, ltb, ◌==◌, if◌then◌else◌, length, get_or, take, drop, bit_and, bit_or,
}
use rtc_client.Common.Memory.{Memory, htons, read}
use rtc_client.Codec.StartCode.{avc_find_start_code}
use rtc_client.Rtp.Header.{int_len, header_size, extension_size, headers}

-- RTP_PACKET_SIZE, RTP_PAYLOAD_SIZE and RTP_PACKETS_BUFFER_SIZE.
abbrev pub packet_size : ℕ
packet_size = 1400

abbrev pub payload_size : ℕ
payload_size = packet_size - header_size - extension_size

abbrev pub packets_buffer_size : ℕ
packets_buffer_size = 1024 * 256

-- `buffer_end` is 0 until the buffer is allocated, since both of its ends are then null. The fields
-- `m_load_type`, `m_ntp_timestamp` and `m_marker` are set by the constructor and never read.
pub record Builder : Type 0 where
  pub initialize : Bool
  pub ssrc : ℕ
  pub sequence : ℕ
  pub timestamp : ℕ
  pub nalu_vec : List (List ℕ)
  pub buffer_end : ℕ
  pub pos : ℕ

abbrev pub new : Builder
new = record {
  initialize = false;
  ssrc = 0;
  sequence = 0;
  timestamp = 0;
  nalu_vec = [];
  buffer_end = 0;
  pos = 0;
}

-- `allocated` is whether `new (std::nothrow)` returns a buffer.
unfoldable pub init : Bool → ℕ → ℕ → Builder → Bool × Builder
init allocated sequence_start timestamp_start b =
    if b.initialize
    then (true, b)
    else if allocated
    then (
      true,
      record b {
        initialize = true;
        buffer_end = packets_buffer_size;
        sequence = sequence_start;
        timestamp = timestamp_start;
      },
    )
    else (false, b)

unfoldable pub set_ssrc : ℕ → Builder → Builder
set_ssrc v b = record b { ssrc = v }

-- `uint32_t` addition.
unfoldable pub increment_timestamp_by : ℕ → Builder → Builder
increment_timestamp_by inc b = record b { timestamp = (b.timestamp + inc) % 2 ^ 32 }

-- `while (!*(startCode++));` with `fuel` bytes left in the range: `none` where it leaves the range.
unfoldable pub skip_code : ℕ → Memory → ℕ → Option ℕ
skip_code zero m p = none
skip_code (suc fuel) m p =
    let next = skip_code fuel m (p + 1) in if m p == 0 then next else some (p + 1)

-- The loop of `send_data`, with the units that it has pushed; `none` where a read leaves the range
-- or the loop is out of fuel. `base` is the address of `data`.
unfoldable pub send_loop : ℕ → Memory → ℕ → ℕ → ℕ → List (List ℕ) → Option (List (List ℕ))
unfolding skip_code int_len
send_loop zero m base p end vec = none
send_loop (suc fuel) m base p end vec =
    let next = λ (s : ℕ).
      let e = avc_find_start_code m base s end in
      let n = int_len (e - s) in
      send_loop fuel m base e end (if ltb 0 n then vec ++ (read m s n ∷ []) else vec) in
    if ltb p end then elim (skip_code (end - p) m p) [ none ↦ none | some s ↦ next s ] else some vec

-- Each round passes a byte at least.
unfoldable pub send_data : Memory → ℕ → ℕ → Builder → Option (Bool × Builder)
unfolding send_loop
send_data m base len b =
    elim (send_loop (suc len) m base (avc_find_start_code m base 0 len) len []) [
      | none ↦ none
      | some vec ↦ some (true, record b { nalu_vec = vec })
    ]

-- A builder at work, with the packets it has pushed to the caller's vector. `built` is a return of
-- true, `full` a return of false, and `stuck` no value of the code: a loop out of fuel.
pub record Work : Type 0 where
  pub builder : Builder
  pub open builder use *
  pub packets : List (List ℕ)

pub data Outcome : Type 0 where
  built : Work → Outcome
  full : Work → Outcome
  stuck : Outcome

-- `if (!step) return false;`
infixl 5 ◌>>=◌
abbrev pub ◌>>=◌ : Outcome → (Work → Outcome) → Outcome
built w >>= k = k w
full w >>= k = full w
stuck >>= k = stuck

-- The headers that `build_packet` and `build_fua_packet` store, at the builder's counters.
abbrev pub headers_of : Work → List ℕ
headers_of w = headers 96 w.sequence w.timestamp w.ssrc

-- `rtpvec.push_back (...); m_sequence++;` behind the store of `payload`, with the position at the
-- packet's end.
unfoldable pub emit : Work → List ℕ → ℕ → Work
emit w payload end = record {
  builder = record w.builder { pos = end; sequence = (w.sequence + 1) % 2 ^ 32 };
  packets = w.packets ++ ((headers_of w ++ payload) ∷ []);
}

abbrev pub moved_to : Work → ℕ → Work
moved_to w p = record w { builder = record w.builder { pos = p } }

-- The loop over `datavec` of a STAP-A packet: `first` is `it == datavec.begin ()`, `payload` what
-- has been stored behind the headers. The room check counts neither the type byte nor the two
-- bytes of the size.
unfoldable pub stap_loop : Work → Bool → ℕ → List ℕ → List (List ℕ) → Outcome
unfolding emit
stap_loop w first p payload [] = built (emit w payload p)
stap_loop w first p payload (nalu ∷ rest) =
    let head = if first then 0x18 ∷ [] else [] in
    let next =
      stap_loop w false (p + length head + 2 + length nalu)
        (payload ++ (head ++ (htons (length nalu) ++ nalu))) rest in
    if ltb (p + length nalu) w.buffer_end then next else full (moved_to w p)

-- A vector of one NAL unit makes a single NAL unit packet, any other a STAP-A packet.
unfoldable pub fill_packet : Work → ℕ → List (List ℕ) → Outcome
unfolding emit stap_loop
fill_packet w p (nalu ∷ []) =
    if ltb (p + length nalu) w.buffer_end
    then built (emit w nalu (p + length nalu))
    else full (moved_to w p)
fill_packet w p vec = stap_loop w true p [] vec

unfoldable pub build_packet : Work → List (List ℕ) → Outcome
unfolding fill_packet
build_packet w vec =
    if leb w.buffer_end (w.pos + header_size + extension_size)
    then full w
    else fill_packet w (w.pos + header_size + extension_size) vec

-- The two bytes in front of a fragment: FU indicator and FU header.
abbrev pub fu_header : Bool → ℕ → ℕ → ℕ → ℕ
fu_header start type copy_len left_len =
    if start
    then bit_or 0x80 type
    else if copy_len == left_len
    then bit_or 0x40 type
    else bit_or 0x00 type

abbrev pub fragment_size : ℕ
fragment_size = payload_size - 2

abbrev pub copy_length : ℕ → ℕ
copy_length left_len = if ltb fragment_size left_len then fragment_size else left_len

-- The loop of `build_fua_packet`, over what is left of the NAL unit.
unfoldable pub fua_loop : ℕ → Work → ℕ → ℕ → Bool → List ℕ → Outcome
unfolding emit
fua_loop zero w fnri type start left = stuck
fua_loop (suc fuel) w fnri type start left =
    let p = w.pos + header_size + extension_size in
    let copy_len = copy_length (length left) in
    let payload =
      bit_or fnri 0x1c ∷ fu_header start type copy_len (length left) ∷ take copy_len left in
    let w' = emit w payload (p + 2 + copy_len) in
    let next = fua_loop fuel w' fnri type false (drop copy_len left) in
    if leb w.buffer_end p
    then full w
    else if leb w.buffer_end (p + 2)
    then full (moved_to w p)
    else if leb w.buffer_end (p + 2 + copy_len)
    then full (moved_to w (p + 2))
    else if leb (length left) copy_len
    then built w'
    else next

-- Each round takes at least a byte of the NAL unit.
unfoldable pub build_fua_packet : Work → List ℕ → Outcome
unfolding fua_loop
build_fua_packet w nalu =
    fua_loop (length nalu) w (bit_and (get_or nalu 0 0) 0xe0) (bit_and (get_or nalu 0 0) 0x1f) true
      (drop 1 nalu)

-- `if (tmp.size () > 0) { if (!build_packet (tmp, packets)) return false; }`
unfoldable pub flush : Work → List (List ℕ) → Outcome
unfolding build_packet
flush w [] = built w
flush w (nalu ∷ rest) = build_packet w (nalu ∷ rest)

-- The loop of `receive_rtp_packets`: `tmp` holds NAL units that wait to share a packet, `total` is
-- `totalLen`.
unfoldable pub pack_loop : Work → List (List ℕ) → ℕ → List (List ℕ) → Outcome
unfolding flush build_fua_packet
pack_loop w tmp total [] = flush w tmp
pack_loop w tmp total (nalu ∷ rest) =
    let large = flush w tmp >>= λ w'. build_fua_packet w' nalu >>= λ w''.
    pack_loop w'' [] (if length tmp == 0 then total else 0) rest in
    let apart = flush w tmp >>= λ w'. pack_loop w' (nalu ∷ []) (length nalu) rest in
    let together = pack_loop w (tmp ++ (nalu ∷ [])) (total + length nalu) rest in
    if ltb payload_size (length nalu)
    then large
    else if ltb total payload_size && ltb payload_size (total + length nalu)
    then apart
    else together

unfoldable pub receive_rtp_packets : Builder → Outcome
unfolding pack_loop
receive_rtp_packets b =
    pack_loop (record { builder = record b { pos = 0 }; packets = [] }) [] 0 b.nalu_vec
