-- ===== src/Tests/Streams.antt =====
-- The theorems on elementary streams at concrete inputs.
use rtc_client.Common.{ℕ, zero, suc, ◌<◌, ◌≡◌, refl, none, some, List, [], ◌∷◌, arith, length}
use mathlib.Core.Option.{get_or}
use rtc_client.Common.Memory.{Memory, of_list, advance}
use rtc_client.Codec.StartCode.{scan_bytes, find_internal, avc_find_start_code}
use rtc_client.Codec.StartCode.Scan.{find_internal-scan}
use rtc_client.Codec.StartCode.First.{IsFirst, StepsBack, avc_find_start_code-IsFirst}
use rtc_client.Codec.Units.{
  count_frames, count_avc_key_frames, avc_find_key_frame, avc_find_sps_pps_idr,
}
use rtc_client.Codec.Units.Walk.{Units, keys, first_is_key, any_parameter_or_key, walks_agree}
use rtc_client.Codec.Adts.{AdtsHeader, header_of, parse_adts_header, count_loop, count_aac_frames}
use rtc_client.Codec.Adts.Frames.{
  Frame, Chain, HasProgress, Counted, count_aac_frames-Counted, count_aac_frames-hangs,
}
use rtc_client.Tests.Data.{stream, stream_ok}

find_internal-scan_example : find_internal stream 2 0 12 ≡ get_or (scan_bytes stream 0 9) 12
find_internal-scan_example = find_internal-scan stream 2 0 12 stream_ok

avc_find_start_code-IsFirst_example :
    (q : ℕ) × IsFirst stream 5 12 q × StepsBack stream 5 12 q (avc_find_start_code stream 0 5 12)
avc_find_start_code-IsFirst_example =
    avc_find_start_code-IsFirst stream 0 5 12 stream_ok (omega arith)

walks_agree_example :
    (types : List ℕ) × Units stream 0 12 (avc_find_start_code stream 0 0 12) types
    × (count_frames stream 0 12 ≡ some (length types))
    × (count_avc_key_frames stream 0 12 ≡ some (keys types))
    × (avc_find_key_frame stream 0 12 ≡ some (first_is_key types))
    × (avc_find_sps_pps_idr stream 0 12 ≡ some (any_parameter_or_key types))
walks_agree_example = walks_agree stream 0 12 stream_ok

-- One ADTS frame of eight bytes, and a header with a frame length of 0.
abbrev frame_bytes : Memory
frame_bytes = of_list (0xff ∷ 0xf1 ∷ 0x50 ∷ 0x80 ∷ 1 ∷ 0 ∷ 0 ∷ 7 ∷ [])

abbrev empty_frame : Memory
empty_frame = of_list (0xff ∷ 0xf1 ∷ 0x50 ∷ 0x80 ∷ 0 ∷ 0 ∷ 0 ∷ 7 ∷ [])

frame_at_0 :
    (h : AdtsHeader) → parse_adts_header (advance frame_bytes 0) 7 ≡ some h → 0 < h.aac_frame_length
unfolding parse_adts_header header_of
frame_at_0 h e = ground arith

no_frame_at_1 : (h : AdtsHeader) → parse_adts_header (advance frame_bytes 1) 7 ≡ some h → ⊥
unfolding parse_adts_header
no_frame_at_1 h e = ground arith

frame_bytes-HasProgress : HasProgress frame_bytes 8
frame_bytes-HasProgress zero h f = frame_at_0 h f.parsed
frame_bytes-HasProgress (suc zero) h f = absurd (no_frame_at_1 h f.parsed)
frame_bytes-HasProgress (suc (suc p)) h f = absurd (omega (arith, f.room))

count_aac_frames-Counted_example : Counted frame_bytes 8 0 (count_aac_frames frame_bytes 8) 0
count_aac_frames-Counted_example = count_aac_frames-Counted frame_bytes 8 frame_bytes-HasProgress

empty_frame-Frame : Frame empty_frame 8 0 (header_of empty_frame)
unfolding parse_adts_header
empty_frame-Frame = record { room = omega arith; parsed = refl }

count_aac_frames-hangs_example : count_loop 1000 empty_frame 8 0 0 ≡ none
unfolding header_of
count_aac_frames-hangs_example =
    count_aac_frames-hangs 1000 empty_frame 8 0 0 (header_of empty_frame) Chain.here
      empty_frame-Frame empty_length
  where
    empty_length : (header_of empty_frame).aac_frame_length ≡ 0
    empty_length = refl
