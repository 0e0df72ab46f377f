-- ===== src/Tests/Codecs.antt =====
-- Runs of the theorems on UTF-8 and on parameter sets.
use rtc_client.Common.{
  ℕ, ◌+◌, ◌≡◌, ◌≢◌, ◌↔◌, refl, Bool, true, false, ◌&&◌, Option, none, some, List, [], ◌∷◌, ◌==◌,
  arith, All,
}
use rtc_client.Utils.{pos}
use rtc_client.Codec.BitReader.{bit_at}
use rtc_client.Codec.Sps.{Picture}
use rtc_client.Codec.Sps.Syntax
use rtc_client.Codec.Sps.Syntax.{Sps}
use rtc_client.Utf8.{is_utf8_chars, is_utf8_str}
use rtc_client.Utf8.Accepted.{IsChar, Encodes}
use rtc_client.Utf8.Agreement.{is_utf8_chars-decides}

-- An accented letter, a sign of three bytes and a letter.
abbrev text : List ℕ
text = 0xc3 ∷ 0xa9 ∷ 0xe2 ∷ 0x82 ∷ 0xac ∷ 0x41 ∷ []

text_chars : All IsChar text
text_chars = omega arith

is_utf8_chars-decides_example :
    (is_utf8_chars text ≢ none)
    × ((is_utf8_chars text ≡ some true) ↔ Encodes text)
    × (is_utf8_chars text ≡ some true → is_utf8_str text ≡ true)
is_utf8_chars-decides_example = is_utf8_chars-decides text text_chars

-- A byte that no text has, and that `is_utf8_str` takes for the first of five.
str_accepts_0xff : is_utf8_str (0xff ∷ 0x80 ∷ 0x80 ∷ 0x80 ∷ 0x80 ∷ []) ≡ true
unfolding is_utf8_str
str_accepts_0xff = refl

-- Frames of 640 by 480, 25 in a second.
abbrev vga : Sps
vga = record {
  profile_idc = 66;
  constraint_0 = false;
  constraint_1 = false;
  constraint_2 = false;
  constraint_3 = false;
  reserved = 0;
  level_idc = 30;
  id = 0;
  chroma = record {
    chroma_format_idc = 1;
    separate_colour_plane = false;
    bit_depth_luma_minus8 = 0;
    bit_depth_chroma_minus8 = 0;
    transform_bypass = false;
  };
  log2_max_frame_num_minus4 = 0;
  order = Syntax.lsb 0;
  num_ref_frames = 1;
  gaps_allowed = false;
  pic_width_in_mbs_minus1 = 39;
  pic_height_in_map_units_minus1 = 29;
  fields = none;
  direct_8x8_inference = true;
  cropping = none;
  vui = some (record {
    aspect = none;
    overscan = none;
    signal = none;
    locations = none;
    timing = some (record { units = 1; scale = 50 });
  });
}

abbrev vga_bytes : List ℕ
vga_bytes = 103 ∷ 66 ∷ 0 ∷ 30 ∷ 244 ∷ 5 ∷ 1 ∷ 237 ∷ 8 ∷ 0 ∷ 0 ∷ 0 ∷ 8 ∷ 0 ∷ 0 ∷ 1 ∷ 148 ∷ []

abbrev unknown : Picture
unknown = record { width = pos 0; height = pos 0; fps = pos 0 }

abbrev holds_bit : Option ℕ → ℕ → Bool
holds_bit none b = false
holds_bit (some c) b = c == b

abbrev spelled : List ℕ → ℕ → List ℕ → Bool
spelled buf p [] = true
spelled buf p (b ∷ bits) = holds_bit (bit_at buf p) b && spelled buf (p + 1) bits
