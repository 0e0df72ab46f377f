-- ===== src/Rtp/AacBuilder.antt =====
-- `RTPAACPacketBuilder` of src/rtp/rtp_aac_packet_builder.cpp: one packet at a time, in one buffer.
-- The buffer's contents are a list: the bytes up to `m_current_pos`.
pub mod RoundTrip
use rtc_client.Common.{
  ℕ, ◌+◌, ◌*◌, ◌%◌, ◌^◌, Bool, true, false, Option, none, some, List, [], ◌++◌, leb, if◌then◌else◌,
  length,
}
use rtc_client.Rtp.Header.{header_size, extension_size, headers}

-- RTP_PACKETS_BUFFER_SIZE of this file.
abbrev pub packets_buffer_size : ℕ
packets_buffer_size = 1024 * 128

-- `packet` is `none` where `m_current_pos` is null. The buffer is allocated exactly when
-- `initialize` is set. `m_load_type`, `m_ntp_timestamp` and `m_marker` are never read.
pub record Builder : Type 0 where
  pub initialize : Bool
  pub ssrc : ℕ
  pub sequence : ℕ
  pub timestamp : ℕ
  pub packet : Option (List ℕ)

abbrev pub new : Builder
new = record { initialize = false; ssrc = 0; sequence = 0; timestamp = 0; packet = none }

-- `allocated` is whether `new (std::nothrow)` returns a buffer.
unfoldable pub init : Bool → ℕ → ℕ → Builder → Bool × Builder
init allocated sequence_start timestamp_start b =
    if b.initialize
    then (true, b)
    else if allocated
    then (
      true,
      record b { initialize = true; sequence = sequence_start; timestamp = timestamp_start },
    )
    else (false, b)

unfoldable pub set_ssrc : ℕ → Builder → Builder
set_ssrc v b = record b { ssrc = v }

-- `uint32_t` addition.
unfoldable pub increment_timestamp_by : ℕ → Builder → Builder
increment_timestamp_by inc b = record b { timestamp = (b.timestamp + inc) % 2 ^ 32 }

-- The stores of `send_data` behind its check, and the moves of `m_current_pos`.
unfoldable pub store : List ℕ → Builder → Builder
store frame b = record b {
  packet = some (headers 97 b.sequence b.timestamp b.ssrc ++ frame);
  sequence = (b.sequence + 1) % 2 ^ 32;
}

-- `none` is a store through the null buffer of a builder that `init` has not set up.
unfoldable pub send_data : List ℕ → Builder → Option (Bool × Builder)
unfolding store
send_data frame b =
    if leb packets_buffer_size (length frame + header_size + extension_size)
    then some (false, b)
    else if b.initialize
    then some (true, store frame b)
    else none

-- The pointer and the length of the pair; a null pointer is an empty packet.
unfoldable pub receive_rtp_packet : Builder → List ℕ
receive_rtp_packet b = elim b.packet [ none ↦ [] | some p ↦ p ]
