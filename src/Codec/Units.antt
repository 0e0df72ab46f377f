-- ===== src/Codec/Units.antt =====
-- The walks over the NAL units of an Annex B stream: `avc_find_key_frame`, `avc_find_sps_pps_idr`,
-- `count_avc_key_frames` and `count_frames` of src/codec/codec_utils.cpp. Each repeats the same
-- loop; `none` is no value of the code: the loop out of fuel. `base` is the address of `data`.
pub mod Walk
use rtc_client.Common.{
  ℕ, zero, suc, ◌+◌, ◌-◌, Bool, true, false, ◌||◌, Option, none, some, ◌==◌, if◌then◌else◌, bit_and,
}
use rtc_client.Common.Memory.{Memory}
use rtc_client.Codec.StartCode.{avc_find_start_code}

-- `while (nalStart < end && !*(nalStart++));` with `n` bytes left: past the first byte that is
-- not 0, or the end.
unfoldable pub skip_zeros : Memory → ℕ → ℕ → ℕ
skip_zeros m p zero = p
skip_zeros m p (suc n) = let next = skip_zeros m (p + 1) n in if m p == 0 then next else p + 1

abbrev pub nal_type : Memory → ℕ → ℕ
nal_type m p = bit_and (m p) 0x1f

unfoldable pub key_frame_loop : ℕ → Memory → ℕ → ℕ → ℕ → Option Bool
unfolding skip_zeros
key_frame_loop zero m base p end = none
key_frame_loop (suc fuel) m base p end =
    let q = skip_zeros m p (end - p) in
    let next = key_frame_loop fuel m base (avc_find_start_code m base q end) end in
    if q == end
    then some false
    else if nal_type m q == 5 || nal_type m q == 1
    then some (nal_type m q == 5)
    else next

unfoldable pub sps_pps_idr_loop : ℕ → Memory → ℕ → ℕ → ℕ → Option Bool
unfolding skip_zeros
sps_pps_idr_loop zero m base p end = none
sps_pps_idr_loop (suc fuel) m base p end =
    let q = skip_zeros m p (end - p) in
    let next = sps_pps_idr_loop fuel m base (avc_find_start_code m base q end) end in
    if q == end
    then some false
    else if nal_type m q == 5 || (nal_type m q == 7 || nal_type m q == 8)
    then some true
    else next

unfoldable pub key_frames_loop : ℕ → Memory → ℕ → ℕ → ℕ → ℕ → Option ℕ
unfolding skip_zeros
key_frames_loop zero m base p end count = none
key_frames_loop (suc fuel) m base p end count =
    let q = skip_zeros m p (end - p) in
    let count' = if nal_type m q == 5 then count + 1 else count in
    let next = key_frames_loop fuel m base (avc_find_start_code m base q end) end count' in
    if q == end then some count else next

unfoldable pub frames_loop : ℕ → Memory → ℕ → ℕ → ℕ → ℕ → Option ℕ
unfolding skip_zeros
frames_loop zero m base p end count = none
frames_loop (suc fuel) m base p end count =
    let q = skip_zeros m p (end - p) in
    let next = frames_loop fuel m base (avc_find_start_code m base q end) end (count + 1) in
    if q == end then some count else next

-- Each round passes a byte at least.
unfoldable pub avc_find_key_frame : Memory → ℕ → ℕ → Option Bool
unfolding key_frame_loop
avc_find_key_frame m base size =
    key_frame_loop (suc size) m base (avc_find_start_code m base 0 size) size

unfoldable pub avc_find_sps_pps_idr : Memory → ℕ → ℕ → Option Bool
unfolding sps_pps_idr_loop
avc_find_sps_pps_idr m base size =
    sps_pps_idr_loop (suc size) m base (avc_find_start_code m base 0 size) size

unfoldable pub count_avc_key_frames : Memory → ℕ → ℕ → Option ℕ
unfolding key_frames_loop
count_avc_key_frames m base size =
    key_frames_loop (suc size) m base (avc_find_start_code m base 0 size) size 0

unfoldable pub count_frames : Memory → ℕ → ℕ → Option ℕ
unfolding frames_loop
count_frames m base size = frames_loop (suc size) m base (avc_find_start_code m base 0 size) size 0
