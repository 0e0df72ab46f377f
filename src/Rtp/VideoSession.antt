-- ===== src/Rtp/VideoSession.antt =====
-- `RTPSessionVideo` of src/rtp/rtp_session_video.cpp: H.264 frames through a packet builder and out
-- of a transmitter. `none` as the result of an operation is a read through a null pointer, or a
-- builder's loop out of fuel, which is no value of the code.
pub mod Wire
pub mod Delivery
use rtc_client.Common.{
  ℕ, ◌+◌, ◌%◌, ◌^◌, Bool, true, false, not, Option, none, some, List, [], ◌∷◌, ◌++◌, length, take,
  drop, get_or, bit_or, if◌then◌else◌,
}
use rtc_client.Common.Memory.{Memory, htons, htonl}
use rtc_client.Common.Text.{is_empty}
use rtc_client.Rtp.Header.{header_size}
use rtc_client.Rtp.H264Builder.{Outcome, built, full, stuck}
use rtc_client.Rtp.H264Builder
use rtc_client.Rtp.Transmitter.{Transmitter, Address}
use rtc_client.Rtp.Transmitter

pub record VideoSession : Type 0 where
  pub initialize : Bool
  pub builder : Option H264Builder.Builder
  pub transmitter : Option Transmitter

abbrev pub new : VideoSession
new = record { initialize = false; builder = none; transmitter = none }

-- What the system does during `init`: whether the builder's buffer is allocated, and what the
-- transmitter's `init` is given.
pub record Setup : Type 0 where
  pub allocated : Bool
  pub free_port : ℕ
  pub socket_made : Bool
  pub bound : Bool

-- `new` throws where it fails, so the tests behind it never do.
unfoldable pub init : Setup → ℕ → ℕ → ℕ → VideoSession → Bool × VideoSession
init e sequence_start timestamp_start ssrc s =
    let (made, b) = H264Builder.init e.allocated sequence_start timestamp_start H264Builder.new in
    let (opened, t) = Transmitter.init none e.free_port e.socket_made e.bound Transmitter.new in
    if s.initialize
    then (true, s)
    else if not made
    then (false, new)
    else if not opened
    then (false, new)
    else (
      true,
      record {
        initialize = true;
        builder = some (H264Builder.set_ssrc ssrc b);
        transmitter = some t;
      },
    )

unfoldable pub add_destination : Address → VideoSession → Option (Bool × VideoSession)
add_destination a s = if not s.initialize then some (false, s) else elim s.transmitter [
  | none ↦ none
  | some t ↦ some (true, record s { transmitter = some (Transmitter.add_destination a t) })
]

unfoldable pub delete_destination : Address → VideoSession → Option (Bool × VideoSession)
delete_destination a s = if not s.initialize then some (false, s) else elim s.transmitter [
  | none ↦ none
  | some t ↦ some (true, record s { transmitter = some (Transmitter.delete_destination a t) })
]

-- This one does not test `m_initialize`.
unfoldable pub clear_destination : VideoSession → Option (Bool × VideoSession)
clear_destination s = elim s.transmitter [
  | none ↦ none
  | some t ↦ some (true, record s { transmitter = some (Transmitter.clear_destination t) })
]

-- A store of some bytes at an offset of a packet.
unfoldable pub store_at : ℕ → List ℕ → List ℕ → List ℕ
store_at i xs bytes = take i bytes ++ (xs ++ drop (i + length xs) bytes)

-- The stores into a packet before it is sent: `reserved` and `seqHigh16` of the extension header,
-- the marker of the last packet, and the timestamp.
unfoldable pub finish_packet : Bool → ℕ → ℕ → List ℕ → List ℕ
unfolding store_at
finish_packet last now_ms num packet =
    let extended = store_at (header_size + 4) (htons num ++ htons 0) packet in
    let marked =
      if last then store_at 1 (bit_or (get_or extended 1 0) 0x80 ∷ []) extended else extended in
    store_at 4 (htonl now_ms) marked

-- A packet as it is handed to the transmitter, and the destinations that were called with it.
pub record Sending : Type 0 where
  pub bytes : List ℕ
  pub called : List Address

-- The loop over the packets. `sendto` is what the call of the system returns.
unfoldable pub send_packets :
    (Address → List ℕ → Option ℕ) → ℕ → ℕ → Transmitter → List (List ℕ) → Bool × List Sending
unfolding finish_packet
send_packets sendto now_ms num t [] = (true, [])
send_packets sendto now_ms num t (packet ∷ rest) =
    let bytes = finish_packet (is_empty rest) now_ms num packet in
    let (sent, called) = Transmitter.send_data sendto bytes t in
    let (ok, later) = send_packets sendto now_ms num t rest in
    let this : Sending = record { bytes = bytes; called = called } in
    if sent then (ok, this ∷ later) else (false, this ∷ [])

-- What a call of `send_h264_data` leaves.
pub record Sent : Type 0 where
  pub ok : Bool
  pub session : VideoSession
  pub sendings : List Sending

-- `num` is a uint8_t.
unfoldable pub send_built :
    (Address → List ℕ → Option ℕ) → ℕ → VideoSession → Transmitter → Outcome → Option Sent
unfolding send_packets
send_built sendto now_ms s t (built w) =
    let (ok, sendings) = send_packets sendto now_ms (length w.packets % 256) t w.packets in
    some (record { ok = ok; session = record s { builder = some w.builder }; sendings = sendings })
send_built sendto now_ms s t (full w) =
    some (record { ok = false; session = record s { builder = some w.builder }; sendings = [] })
send_built sendto now_ms s t stuck = none

unfoldable pub send_through :
    (Address → List ℕ → Option ℕ)
    → ℕ
    → Memory
    → ℕ
    → ℕ
    → VideoSession
    → H264Builder.Builder
    → Transmitter
    → Option Sent
unfolding send_built
send_through sendto now_ms m base len s b t = elim (H264Builder.send_data m base len b) [
  | none ↦ none
  | some (ok, b') ↦
      if not ok
      then some (record { ok = false; session = record s { builder = some b' }; sendings = [] })
      else send_built sendto now_ms s t (H264Builder.receive_rtp_packets b')
]

-- `now_ms` is the processor time in milliseconds, a uint32_t.
unfoldable pub send_h264_data :
    (Address → List ℕ → Option ℕ) → ℕ → Memory → ℕ → ℕ → VideoSession → Option Sent
unfolding send_through
send_h264_data sendto now_ms m base len s =
    let idle : Sent = record { ok = false; session = s; sendings = [] } in
    if not s.initialize then some idle else elim s.builder [
      | none ↦ none
      | some b ↦ elim s.transmitter [
        | none ↦ none
        | some t ↦ send_through sendto now_ms m base len s b t
      ]
    ]
