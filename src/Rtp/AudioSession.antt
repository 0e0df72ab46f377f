-- ===== src/Rtp/AudioSession.antt =====
-- `RTPSessionAudio` of src/rtp/rtp_session_audio.cpp: AAC data through a packet builder and out of
-- a transmitter. `none` as the result of an operation is a read through a null pointer.
pub mod Delivery
use rtc_client.Common.{
  ℕ, ◌+◌, Bool, true, false, not, Option, none, some, List, [], ◌∷◌, ◌++◌, if◌then◌else◌,
}
use rtc_client.Common.Memory.{htonl}
use rtc_client.Rtp.AacBuilder
use rtc_client.Rtp.Transmitter.{Transmitter, Address}
use rtc_client.Rtp.Transmitter
use rtc_client.Rtp.VideoSession.{Setup, store_at, Sending}

pub record AudioSession : Type 0 where
  pub initialize : Bool
  pub builder : Option AacBuilder.Builder
  pub transmitter : Option Transmitter

abbrev pub new : AudioSession
new = record { initialize = false; builder = none; transmitter = none }

-- `new` throws where it fails, so the tests behind it never do.
unfoldable pub init : Setup → ℕ → ℕ → ℕ → AudioSession → Bool × AudioSession
init e sequence_start timestamp_start ssrc s =
    let (made, b) = AacBuilder.init e.allocated sequence_start timestamp_start AacBuilder.new in
    let (opened, t) = Transmitter.init none e.free_port e.socket_made e.bound Transmitter.new in
    if s.initialize
    then (true, s)
    else if not made
    then (false, new)
    else if not opened
    then (false, new)
    else (
      true,
      record {
        initialize = true;
        builder = some (AacBuilder.set_ssrc ssrc b);
        transmitter = some t;
      },
    )

unfoldable pub add_destination : Address → AudioSession → Option (Bool × AudioSession)
add_destination a s = if not s.initialize then some (false, s) else elim s.transmitter [
  | none ↦ none
  | some t ↦ some (true, record s { transmitter = some (Transmitter.add_destination a t) })
]

unfoldable pub delete_destination : Address → AudioSession → Option (Bool × AudioSession)
delete_destination a s = if not s.initialize then some (false, s) else elim s.transmitter [
  | none ↦ none
  | some t ↦ some (true, record s { transmitter = some (Transmitter.delete_destination a t) })
]

-- This one does not test `m_initialize`.
unfoldable pub clear_destination : AudioSession → Option (Bool × AudioSession)
clear_destination s = elim s.transmitter [
  | none ↦ none
  | some t ↦ some (true, record s { transmitter = some (Transmitter.clear_destination t) })
]

-- What a call of `send_aac_data` leaves.
pub record Sent : Type 0 where
  pub ok : Bool
  pub session : AudioSession
  pub sendings : List Sending

-- The timestamp is stored into the packet that the builder has made.
unfoldable pub send_through :
    (Address → List ℕ → Option ℕ)
    → ℕ
    → List ℕ
    → AudioSession
    → AacBuilder.Builder
    → Transmitter
    → Option Sent
unfolding store_at
send_through sendto now_ms frame s b t = elim (AacBuilder.send_data frame b) [
  | none ↦ none
  | some (made, b') ↦
      let bytes = store_at 4 (htonl now_ms) (AacBuilder.receive_rtp_packet b') in
      let (sent, called) = Transmitter.send_data sendto bytes t in
      let s' : AudioSession = record s { builder = some b' } in
      let this : Sending = record { bytes = bytes; called = called } in
      some (
        if made
        then record { ok = sent; session = s'; sendings = this ∷ [] }
        else record { ok = false; session = s'; sendings = [] })
]

-- `now_ms` is the processor time in milliseconds, a uint32_t.
unfoldable pub send_aac_data :
    (Address → List ℕ → Option ℕ) → ℕ → List ℕ → AudioSession → Option Sent
unfolding send_through
send_aac_data sendto now_ms frame s =
    let idle : Sent = record { ok = false; session = s; sendings = [] } in
    if not s.initialize then some idle else elim s.builder [
      | none ↦ none
      | some b ↦ elim s.transmitter [
        | none ↦ none
        | some t ↦ send_through sendto now_ms frame s b t
      ]
    ]
