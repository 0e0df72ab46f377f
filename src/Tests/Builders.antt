-- ===== src/Tests/Builders.antt =====
-- The theorems on the packet builders and the assembler at concrete inputs.
use rtc_client.Common.{ℕ, ◌<◌, ◌≤◌, ◌≡◌, refl, true, some, List, [], ◌∷◌, arith, length}
use rtc_client.Rtp.Assembler.{Assembler, start_code, assembler_buffer_size}
use rtc_client.Rtp.H264Builder.{Work, built, receive_rtp_packets, send_data, pack_loop, flush}
use rtc_client.Rtp.H264Builder.Receive.{Delivers}
use rtc_client.Rtp.H264Builder.Complete.{receive_rtp_packets-built}
use rtc_client.Rtp.H264Builder.Merging.{pack_loop-merges}
use rtc_client.Rtp.H264Builder.Splitting.{Splits, send_data-Splits}
use rtc_client.Rtp.Loopback.Units.{unit_frame, unit_frames}
use rtc_client.Rtp.Loopback.Stream.{AllUnits, sent_frames}
use rtc_client.Rtp.Loopback.Transport.{play}
use rtc_client.Rtp.Loopback.EndToEnd.{receive_rtp_packets-play}
use rtc_client.Codec.StartCode.{avc_find_start_code}
use rtc_client.Tests.Data.{h264_builder, three_units, two_units, parameter_set, stream, stream_ok}

three_units-AllUnits : AllUnits three_units
three_units-AllUnits = (
  record { long = omega arith; byte = omega arith; type = omega arith },
  (
    record { long = omega arith; byte = omega arith; type = omega arith },
    (record { long = omega arith; byte = omega arith; type = omega arith }, tt),
  ),
)

abbrev started : Assembler
started = record { initialize = true; frame = [] }

receive_rtp_packets-play_example :
    (w : Work) × (a' : Assembler) × (receive_rtp_packets h264_builder ≡ built w)
    × (play started w.packets ≡ some (a', sent_frames three_units))
receive_rtp_packets-play_example =
    receive_rtp_packets-play h264_builder started (omega arith) three_units-AllUnits (omega arith)
      (omega arith) (omega arith) (omega arith) refl

receive_rtp_packets-built_example :
    (w : Work) × (receive_rtp_packets h264_builder ≡ built w)
    × (w.pos < h264_builder.buffer_end)
    × Delivers h264_builder w
receive_rtp_packets-built_example = receive_rtp_packets-built h264_builder (omega arith)

abbrev empty_work : Work
empty_work = record { builder = h264_builder; packets = [] }

pack_loop-merges_example :
    pack_loop empty_work (parameter_set ∷ []) 1372 two_units
    ≡ flush empty_work (parameter_set ∷ two_units)
pack_loop-merges_example =
    pack_loop-merges empty_work (parameter_set ∷ []) 1372 two_units (omega arith)
      (omega arith, (omega arith, tt))

send_data-Splits_example :
    (units : List (List ℕ)) × (send_data stream 0 12 h264_builder
      ≡ some (true, record h264_builder { nalu_vec = units }))
    × Splits stream 0 12 (avc_find_start_code stream 0 0 12) units
send_data-Splits_example = send_data-Splits stream 0 12 h264_builder stream_ok (omega arith)

two_frames_fit : length (unit_frames two_units) ≤ assembler_buffer_size
unfolding unit_frames unit_frame start_code
two_frames_fit = omega arith
