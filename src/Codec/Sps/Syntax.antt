-- ===== src/Codec/Sps/Syntax.antt =====
-- A sequence parameter set and its bits, as sections 7.3.2.1.1 and E.1.1 of H.264 have them, up to
-- the timing. Scaling matrices are left out.
use rtc_client.Common.{
  ℕ, ◌+◌, ◌^◌, ◌<◌, Bool, Option, none, some, List, [], ◌∷◌, ◌++◌, ◌||◌, ◌==◌, if◌then◌else◌, All,
  length,
}
use rtc_client.Codec.BitReader.Golomb.{fixed, golomb}

abbrev pub flag : Bool → List ℕ
flag b = fixed 1 (if b then 1 else 0)

-- A part behind a flag that says whether it is there.
abbrev pub present {ℓ} : {A : Type ℓ} → (A → List ℕ) → Option A → List ℕ
present bits none = fixed 1 0
present bits (some x) = fixed 1 1 ++ bits x

abbrev pub Within {ℓ} : {A : Type ℓ} → (A → Type 0) → Option A → Type 0
Within P none = Unit {0}
Within P (some x) = P x

-- What the code reads without an overflow.
abbrev pub IsCode : ℕ → Type 0
IsCode v = v + 1 < 2 ^ 31

pub record Chroma : Type 0 where
  pub chroma_format_idc : ℕ
  pub separate_colour_plane : Bool
  pub bit_depth_luma_minus8 : ℕ
  pub bit_depth_chroma_minus8 : ℕ
  pub transform_bypass : Bool

abbrev pub chroma_bits : Chroma → List ℕ
chroma_bits c =
    golomb c.chroma_format_idc
    ++ ((if c.chroma_format_idc == 3 then flag c.separate_colour_plane else [])
        ++ (golomb c.bit_depth_luma_minus8
            ++ (golomb c.bit_depth_chroma_minus8 ++ (flag c.transform_bypass ++ fixed 1 0))))

abbrev pub IsChroma : Chroma → Type 0
IsChroma c =
    IsCode c.chroma_format_idc × IsCode c.bit_depth_luma_minus8 × IsCode c.bit_depth_chroma_minus8

-- `pic_order_cnt_type` with what it brings. A signed code is the code of the number that stands for
-- it.
pub data Order : Type 0 where
  lsb : ℕ → Order
  cycle : Bool → ℕ → ℕ → List ℕ → Order
  output : Order

abbrev pub offsets_bits : List ℕ → List ℕ
offsets_bits [] = []
offsets_bits (v ∷ vs) = golomb v ++ offsets_bits vs

abbrev pub order_bits : Order → List ℕ
order_bits (lsb log2_max) = golomb 0 ++ golomb log2_max
order_bits (cycle always_zero non_ref top offsets) =
    golomb 1
    ++ (flag always_zero
        ++ (golomb non_ref ++ (golomb top ++ (golomb (length offsets) ++ offsets_bits offsets))))
order_bits output = golomb 2

abbrev pub IsOrder : Order → Type 0
IsOrder (lsb log2_max) = IsCode log2_max
IsOrder (cycle always_zero non_ref top offsets) =
    IsCode non_ref × IsCode top × IsCode (length offsets) × All IsCode offsets
IsOrder output = Unit {0}

pub record Cropping : Type 0 where
  pub left : ℕ
  pub right : ℕ
  pub above : ℕ
  pub below : ℕ

abbrev pub cropping_bits : Cropping → List ℕ
cropping_bits c = golomb c.left ++ (golomb c.right ++ (golomb c.above ++ golomb c.below))

abbrev pub IsCropping : Cropping → Type 0
IsCropping c = IsCode c.left × IsCode c.right × IsCode c.above × IsCode c.below

pub data Aspect : Type 0 where
  listed : ℕ → Aspect
  extended : ℕ → ℕ → Aspect

abbrev pub aspect_bits : Aspect → List ℕ
aspect_bits (listed idc) = fixed 8 idc
aspect_bits (extended w h) = fixed 8 255 ++ (fixed 16 w ++ fixed 16 h)

abbrev pub IsAspect : Aspect → Type 0
IsAspect (listed idc) = idc < 255
IsAspect (extended w h) = (w < 2 ^ 16) × (h < 2 ^ 16)

pub record Colours : Type 0 where
  pub primaries : ℕ
  pub transfer : ℕ
  pub matrix : ℕ

abbrev pub colours_bits : Colours → List ℕ
colours_bits c = fixed 8 c.primaries ++ (fixed 8 c.transfer ++ fixed 8 c.matrix)

abbrev pub IsColours : Colours → Type 0
IsColours c = (c.primaries < 2 ^ 8) × (c.transfer < 2 ^ 8) × (c.matrix < 2 ^ 8)

pub record Signal : Type 0 where
  pub video_format : ℕ
  pub full_range : Bool
  pub colours : Option Colours

abbrev pub signal_bits : Signal → List ℕ
signal_bits s = fixed 3 s.video_format ++ (flag s.full_range ++ present colours_bits s.colours)

abbrev pub IsSignal : Signal → Type 0
IsSignal s = (s.video_format < 2 ^ 3) × Within IsColours s.colours

pub record Timing : Type 0 where
  pub units : ℕ
  pub scale : ℕ

abbrev pub timing_bits : Timing → List ℕ
timing_bits t = fixed 32 t.units ++ fixed 32 t.scale

-- As the standard asks, the units are not 0, and both numbers are such that the code's `int` holds
-- what it computes.
abbrev pub IsTiming : Timing → Type 0
IsTiming t = (0 < t.units) × (t.units < 2 ^ 30) × (t.scale < 2 ^ 31)

pub record Vui : Type 0 where
  pub aspect : Option Aspect
  pub overscan : Option Bool
  pub signal : Option Signal
  pub locations : Option (ℕ × ℕ)
  pub timing : Option Timing

abbrev pub locations_bits : ℕ × ℕ → List ℕ
locations_bits (t, b) = golomb t ++ golomb b

abbrev pub IsLocations : ℕ × ℕ → Type 0
IsLocations (t, b) = IsCode t × IsCode b

abbrev pub vui_bits : Vui → List ℕ
vui_bits v =
    present aspect_bits v.aspect
    ++ (present flag v.overscan
        ++ (present signal_bits v.signal
            ++ (present locations_bits v.locations ++ present timing_bits v.timing)))

abbrev pub IsVui : Vui → Type 0
IsVui v =
    Within IsAspect v.aspect
    × Within IsSignal v.signal
    × Within IsLocations v.locations
    × Within IsTiming v.timing

pub record Sps : Type 0 where
  pub profile_idc : ℕ
  pub constraint_0 : Bool
  pub constraint_1 : Bool
  pub constraint_2 : Bool
  pub constraint_3 : Bool
  pub reserved : ℕ
  pub level_idc : ℕ
  pub id : ℕ
  pub chroma : Chroma
  pub log2_max_frame_num_minus4 : ℕ
  pub order : Order
  pub num_ref_frames : ℕ
  pub gaps_allowed : Bool
  pub pic_width_in_mbs_minus1 : ℕ
  pub pic_height_in_map_units_minus1 : ℕ
  -- `none` is a set of frames only, a flag is `mb_adaptive_frame_field_flag`
  pub fields : Option Bool
  pub direct_8x8_inference : Bool
  pub cropping : Option Cropping
  pub vui : Option Vui

-- The profiles that bring the part on chroma.
abbrev pub has_chroma : ℕ → Bool
has_chroma p =
    p == 100
    || (p == 110
        || (p == 122
            || (p == 244
                || (p == 44
                    || (p == 83
                        || (p == 86
                            || (p == 118
                                || (p == 128
                                    || (p == 138 || (p == 139 || (p == 134 || p == 135)))))))))))

abbrev pub fields_bits : Option Bool → List ℕ
fields_bits none = fixed 1 1
fields_bits (some adaptive) = fixed 1 0 ++ flag adaptive

abbrev pub picture_bits : Sps → List ℕ
picture_bits s =
    golomb s.num_ref_frames
    ++ (flag s.gaps_allowed
        ++ (golomb s.pic_width_in_mbs_minus1
            ++ (golomb s.pic_height_in_map_units_minus1
                ++ (fields_bits s.fields
                    ++ (flag s.direct_8x8_inference
                        ++ (present cropping_bits s.cropping ++ present vui_bits s.vui))))))

abbrev pub sps_bits : Sps → List ℕ
sps_bits s =
    fixed 8 s.profile_idc
    ++ (flag s.constraint_0
        ++ (flag s.constraint_1
            ++ (flag s.constraint_2
                ++ (flag s.constraint_3
                    ++ (fixed 4 s.reserved
                        ++ (fixed 8 s.level_idc
                            ++ (golomb s.id
                                ++ ((if has_chroma s.profile_idc then chroma_bits s.chroma else [])
                                    ++ (golomb s.log2_max_frame_num_minus4
                                        ++ (order_bits s.order ++ picture_bits s))))))))))

-- The header of the NAL unit, with `nal_ref_idc`, and the set.
abbrev pub unit_bits : ℕ → Sps → List ℕ
unit_bits ref_idc s = fixed 1 0 ++ (fixed 2 ref_idc ++ (fixed 5 7 ++ sps_bits s))

pub record IsSps (s : Sps) : Type 0 where
  pub profile : s.profile_idc < 2 ^ 8
  pub spare : s.reserved < 2 ^ 4
  pub level : s.level_idc < 2 ^ 8
  pub number : IsCode s.id
  pub colour : IsChroma s.chroma
  pub frame_num : IsCode s.log2_max_frame_num_minus4
  pub counts : IsOrder s.order
  pub refs : IsCode s.num_ref_frames
  pub wide : s.pic_width_in_mbs_minus1 < 2 ^ 26
  pub high : s.pic_height_in_map_units_minus1 < 2 ^ 26
  pub crops : Within IsCropping s.cropping
  pub usability : Within IsVui s.vui
