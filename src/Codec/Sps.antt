-- ===== src/Codec/Sps.antt =====
-- `h264_decode_sps` of src/codec/codec_utils.cpp.
pub mod Syntax
pub mod Parts
pub mod Decoded
pub mod Whole
use rtc_client.Common.{
  ℕ, zero, suc, ◌+◌, ◌-◌, ◌*◌, ◌/◌, ◌%◌, ◌^◌, Bool, true, false, not, ◌&&◌, ◌||◌, Option, none,
  some, List, [], ◌∷◌, ltb, ◌==◌, length, if◌then◌else◌, bit_and, bit_xor,
}
use rtc_client.Utils.{ℤ, pos, negsuc, to_int}
use rtc_client.Codec.BitReader.{Reader, ◌>>=◌, ◌>>◌, pure, u, ue, se}
use rtc_client.Codec.Emulation.{de_emulation_prevention}

-- The loop over `offset_for_ref_frame`. A value of `Ue` is less than 2 ^ 31: as an `int` it is not
-- negative.
unfoldable pub se_loop : List ℕ → ℕ → ℕ → Reader (Unit {0})
unfolding se
se_loop buf size zero = pure tt
se_loop buf size (suc n) = se buf size >> se_loop buf size n

unfoldable pub flags_loop : List ℕ → ℕ → Reader (Unit {0})
unfolding u
flags_loop buf zero = pure tt
flags_loop buf (suc n) = u 1 buf >> flags_loop buf n

-- `if (flag) { ... }`
abbrev pub when : Bool → Reader (Unit {0}) → Reader (Unit {0})
when c m = if c then m else pure tt

-- The parts of `h264_decode_sps` in order. What is read into a variable that nothing uses is dropped.
abbrev pub is_high : ℕ → Bool
is_high profile = profile == 100 || (profile == 110 || (profile == 122 || profile == 144))

unfoldable pub read_chroma : List ℕ → ℕ → Reader (Unit {0})
unfolding u ue flags_loop
read_chroma buf size = do
  chroma_format_idc ← ue buf size
  when (chroma_format_idc == 3) (u 1 buf >> pure tt)
  ue buf size
  ue buf size
  u 1 buf
  seq_scaling_matrix_present_flag ← u 1 buf
  when (not (seq_scaling_matrix_present_flag == 0)) (flags_loop buf 8)

unfoldable pub read_cycle : List ℕ → ℕ → Reader (Unit {0})
unfolding u ue se se_loop
read_cycle buf size = do
  u 1 buf
  se buf size
  se buf size
  num_ref_frames_in_pic_order_cnt_cycle ← ue buf size
  se_loop buf size num_ref_frames_in_pic_order_cnt_cycle

unfoldable pub read_order : List ℕ → ℕ → Reader (Unit {0})
unfolding ue read_cycle
read_order buf size = do
  pic_order_cnt_type ← ue buf size
  if pic_order_cnt_type == 0
      then ue buf size >> pure tt
      else when (pic_order_cnt_type == 1) (read_cycle buf size)

unfoldable pub read_fields : List ℕ → Reader (Unit {0})
unfolding u
read_fields buf = do
  frame_mbs_only_flag ← u 1 buf
  when (frame_mbs_only_flag == 0) (u 1 buf >> pure tt)

unfoldable pub read_cropping : List ℕ → ℕ → Reader (Unit {0})
unfolding u ue
read_cropping buf size = do
  frame_cropping_flag ← u 1 buf
  when (not (frame_cropping_flag == 0))
      (ue buf size >> (ue buf size >> (ue buf size >> (ue buf size >> pure tt))))

unfoldable pub read_aspect : List ℕ → Reader (Unit {0})
unfolding u
read_aspect buf = do
  aspect_ratio_idc ← u 8 buf
  when (aspect_ratio_idc == 255) (u 16 buf >> (u 16 buf >> pure tt))

unfoldable pub read_signal_type : List ℕ → Reader (Unit {0})
unfolding u
read_signal_type buf = do
  u 3 buf
  u 1 buf
  colour_description_present_flag ← u 1 buf
  when (not (colour_description_present_flag == 0)) (u 8 buf >> (u 8 buf >> (u 8 buf >> pure tt)))

-- `if (u (1, ...)) { ... }`
unfoldable pub optional : List ℕ → Reader (Unit {0}) → Reader (Unit {0})
unfolding u
optional buf m = do flag ← u 1 buf; when (not (flag == 0)) m

-- The quotient of two `int`; `none` is a division by 0.
unfoldable pub quotient : ℤ → ℤ → Option ℤ
quotient a (pos zero) = none
quotient (pos a) (pos (suc b)) = some (pos (a / suc b))
quotient (pos a) (negsuc b) = let q = a / suc b in some (if q == 0 then pos 0 else negsuc (q - 1))
quotient (negsuc a) (pos (suc b)) =
    let q = suc a / suc b in some (if q == 0 then pos 0 else negsuc (q - 1))
quotient (negsuc a) (negsuc b) = some (pos (suc a / suc b))

-- The frames per second, or what `*fps` was before.
unfoldable pub read_timing : List ℕ → ℤ → Reader ℤ
unfolding u to_int quotient
read_timing buf fps = do
  timing_info_present_flag ← u 1 buf
  if timing_info_present_flag == 0 then pure fps else do
    num_units_in_tick ← u 32 buf
    time_scale ← u 32 buf
    λ k. elim (quotient (to_int (pos time_scale)) (to_int (pos (2 * num_units_in_tick)))) [
      | none ↦ none
      | some q ↦ some (q, k)
    ]

unfoldable pub read_vui : List ℕ → ℕ → ℤ → Reader ℤ
unfolding u ue optional read_aspect read_signal_type read_timing
read_vui buf size fps = do
  vui_parameter_present_flag ← u 1 buf
  if vui_parameter_present_flag == 0 then pure fps else do
    optional buf (read_aspect buf)
    optional buf (u 1 buf >> pure tt)
    optional buf (read_signal_type buf)
    optional buf (ue buf size >> (ue buf size >> pure tt))
    read_timing buf fps

-- What the caller's three variables hold.
pub record Picture : Type 0 where
  pub width : ℤ
  pub height : ℤ
  pub fps : ℤ

-- The `int` of a number of macroblocks in samples.
unfoldable pub samples : ℕ → ℤ
unfolding to_int
samples macroblocks_minus1 = to_int (pos ((macroblocks_minus1 + 1) * 16))

unfoldable pub read_picture : List ℕ → ℕ → Picture → Reader Picture
unfolding u ue samples read_fields read_cropping read_vui
read_picture buf size picture = do
  ue buf size
  u 1 buf
  pic_width_in_mbs_minus1 ← ue buf size
  pic_height_in_map_units_minus1 ← ue buf size
  read_fields buf
  u 1 buf
  read_cropping buf size
  fps ← read_vui buf size picture.fps
  pure (record {
    width = samples pic_width_in_mbs_minus1;
    height = samples pic_height_in_map_units_minus1;
    fps = fps;
  })

unfoldable pub read_sps : List ℕ → ℕ → Picture → Reader Picture
unfolding u ue read_chroma read_order read_picture
read_sps buf size picture = do
  profile_idc ← u 8 buf
  u 1 buf
  u 1 buf
  u 1 buf
  u 1 buf
  u 4 buf
  u 8 buf
  ue buf size
  when (is_high profile_idc) (read_chroma buf size)
  ue buf size
  read_order buf size
  read_picture buf size picture

-- A set behind its first byte, on the buffer without its escapes.
unfoldable pub read_unit : List ℕ → ℕ → Picture → Reader (Bool × Picture)
unfolding u read_sps
read_unit buf size picture = do
  u 1 buf
  u 2 buf
  nal_unit_type ← u 5 buf
  if nal_unit_type == 7
      then (do picture' ← read_sps buf size picture; pure (true, picture'))
      else pure (false, picture)

-- `none` is a fault: a read outside the buffer, a shift that is not defined, or a division by 0.
unfoldable pub h264_decode_sps : List ℕ → Picture → Option (Bool × Picture)
unfolding de_emulation_prevention read_unit
h264_decode_sps buf picture = elim (de_emulation_prevention buf) [
  | none ↦ none
  | some (buf', size) ↦ elim (read_unit buf' size picture 0) [
    | none ↦ none
    | some (result, k) ↦ some result
  ]
]
