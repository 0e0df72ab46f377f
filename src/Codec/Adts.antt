-- ===== src/Codec/Adts.antt =====
-- `parse_adts_header` and `count_aac_frames` of src/codec/codec_utils.cpp.
pub mod Frames
pub mod Sync
use rtc_client.Common.{
  ℕ, zero, suc, ◌+◌, ◌-◌, ◌*◌, ◌/◌, ◌%◌, ◌^◌, Bool, true, false, not, ◌&&◌, ◌||◌, Option, none,
  some, ltb, leb, ◌==◌, if◌then◌else◌, bit_and, bit_or,
}
use rtc_client.Common.Memory.{Memory, advance}

-- `struct ADTSHeader` of src/codec/codec_utils.h. `parse_adts_header` leaves `syncword` at the 0
-- that its `memset` stores.
pub record AdtsHeader : Type 0 where
  pub syncword : ℕ
  pub id : ℕ
  pub layer : ℕ
  pub protection_absent : ℕ
  pub profile : ℕ
  pub sampling_freq_index : ℕ
  pub private_bit : ℕ
  pub channel_cfg : ℕ
  pub original_copy : ℕ
  pub home : ℕ
  pub copyright_identification_bit : ℕ
  pub copyright_identification_start : ℕ
  pub aac_frame_length : ℕ
  pub adts_buffer_fullness : ℕ
  pub number_of_raw_data_blocks_in_frame : ℕ

-- The masked and shifted bits that the fields are put together from. Bits that are or-ed have no
-- position in common.
unfoldable pub header_of : Memory → AdtsHeader
header_of m = record {
  syncword = 0;
  id = bit_and (m 1) 0x08 / 2 ^ 3;
  layer = bit_and (m 1) 0x06 / 2;
  protection_absent = bit_and (m 1) 0x01;
  profile = bit_and (m 2) 0xc0 / 2 ^ 6;
  sampling_freq_index = bit_and (m 2) 0x3c / 2 ^ 2;
  private_bit = bit_and (m 2) 0x02 / 2;
  channel_cfg = bit_and (m 2) 0x01 * 2 ^ 2 + bit_and (m 3) 0xc0 / 2 ^ 6;
  original_copy = bit_and (m 3) 0x20 / 2 ^ 5;
  home = bit_and (m 3) 0x10 / 2 ^ 4;
  copyright_identification_bit = bit_and (m 3) 0x08 / 2 ^ 3;
  copyright_identification_start = bit_and (m 3) 0x04 / 2 ^ 2;
  aac_frame_length =
      bit_and (m 3) 0x03 * 2 ^ 11 + bit_and (m 4) 0xff * 2 ^ 3 + bit_and (m 5) 0xe0 / 2 ^ 5;
  adts_buffer_fullness = bit_and (m 5) 0x1f * 2 ^ 6 + bit_and (m 6) 0xfc / 2 ^ 2;
  number_of_raw_data_blocks_in_frame = bit_and (m 6) 0x03;
}

-- `none` is a return of false.
unfoldable pub parse_adts_header : Memory → ℕ → Option AdtsHeader
unfolding header_of
parse_adts_header m len =
    if ltb len 7
    then none
    else if not (m 0 == 0xff) || not (bit_and (m 1) 0xf0 == 0xf0)
    then none
    else some (header_of m)

-- The loop of `count_aac_frames`; `none` is no value of the code: the loop out of fuel.
unfoldable pub count_loop : ℕ → Memory → ℕ → ℕ → ℕ → Option ℕ
unfolding parse_adts_header
count_loop zero m size pos count = none
count_loop (suc fuel) m size pos count =
    let next = λ (h : AdtsHeader). count_loop fuel m size (pos + h.aac_frame_length) (count + 1) in
    if leb (pos + 7) size
    then elim (parse_adts_header (advance m pos) 7) [ none ↦ some count | some h ↦ next h ]
    else some count

-- A frame takes at least seven bytes of a real stream; where each takes at least one, these rounds
-- are enough.
unfoldable pub count_aac_frames : Memory → ℕ → Option ℕ
unfolding count_loop
count_aac_frames m size = count_loop (suc size) m size 0 0
