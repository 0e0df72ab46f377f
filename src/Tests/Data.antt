-- ===== src/Tests/Data.antt =====
-- Inputs that the tests share.
use rtc_client.Common.{ℕ, zero, suc, true, List, [], ◌∷◌, ◌++◌, All, arith}
use rtc_client.Common.Memory.{Memory, IsByte, of_list}
use rtc_client.Rtp.Header.{headers}
use rtc_client.Rtp.H264Builder.{Builder, packets_buffer_size}

-- A parameter set, a key frame and another slice, as NAL units.
abbrev pub parameter_set : List ℕ
parameter_set = 0x67 ∷ 1 ∷ []

abbrev pub key_frame : List ℕ
key_frame = 0x65 ∷ 0x88 ∷ 0x80 ∷ []

abbrev pub two_units : List (List ℕ)
two_units = parameter_set ∷ key_frame ∷ []

-- A unit too long for one packet.
abbrev pub filler : ℕ → List ℕ
filler zero = []
filler (suc n) = 0x55 ∷ filler n

abbrev pub long_unit : List ℕ
long_unit = 0x41 ∷ 0x9a ∷ filler 1398

abbrev pub three_units : List (List ℕ)
three_units = parameter_set ∷ key_frame ∷ long_unit ∷ []

abbrev pub h264_builder : Builder
h264_builder = record {
  initialize = true;
  ssrc = 7;
  sequence = 4294967295;
  timestamp = 9;
  nalu_vec = three_units;
  buffer_end = packets_buffer_size;
  pos = 0;
}

abbrev pub packet_bytes : List ℕ
packet_bytes = headers 96 65537 9 7 ++ parameter_set

abbrev pub packet : Memory
packet = of_list packet_bytes

-- An Annex B stream: a unit behind four bytes of start code, one behind three, and trailing zeros.
abbrev pub stream_bytes : List ℕ
stream_bytes = 0 ∷ 0 ∷ 0 ∷ 1 ∷ 0x67 ∷ 1 ∷ 0 ∷ 0 ∷ 1 ∷ 0x65 ∷ 0x88 ∷ 0 ∷ []

abbrev pub stream : Memory
stream = of_list stream_bytes

pub of_list-IsByte : (l : List ℕ) → All IsByte l → (i : ℕ) → IsByte (of_list l i)
of_list-IsByte [] h i = omega arith
of_list-IsByte (x ∷ xs) h zero = h.0
of_list-IsByte (x ∷ xs) h (suc i) = of_list-IsByte xs h.1 i

pub stream_ok : (i : ℕ) → IsByte (stream i)
stream_ok = of_list-IsByte stream_bytes (ground arith)
