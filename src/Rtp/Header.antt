-- ===== src/Rtp/Header.antt =====
-- The two headers in front of each payload: `RTPHeader` and `RTPExtensionHeader` of
-- src/rtp/rtp_packet.h, and the stores by which the builders fill them in.
use rtc_client.Common.{
  if◌then◌else◌, ltb, arith, ◌<◌, ℕ, ◌+◌, ◌*◌, ◌/◌, ◌%◌, ◌^◌, ◌≡◌, refl, List, [], ◌∷◌, ◌++◌,
  length,
}
use rtc_client.Common.Memory.{htons, htonl}

-- The bit fields of the first two bytes (the little-endian branch of the `#ifdef`), lowest bits
-- first: csrcCount 4, extension 1, padding 1, version 2; payloadType 7, marker 1.
pub record Flags : Type 0 where
  pub version : ℕ
  pub padding : ℕ
  pub extension : ℕ
  pub csrc_count : ℕ
  pub marker : ℕ
  pub payload_type : ℕ

abbrev pub flag_bytes : Flags → List ℕ
flag_bytes f =
    (f.csrc_count + f.extension * 16 + f.padding * 32 + f.version * 64)
    ∷ (f.payload_type + f.marker * 128)
    ∷ []

-- `sizeof (RTPHeader)` and `sizeof (RTPExtensionHeader)`.
abbrev pub header_size : ℕ
header_size = 12

abbrev pub extension_size : ℕ
extension_size = 16

-- What `RTPHeader` and `RTPExtensionHeader` are assigned before each payload. `load` is 96 for
-- H.264 and 97 for AAC; the 32-bit sequence is split over both headers.
unfoldable pub headers : ℕ → ℕ → ℕ → ℕ → List ℕ
headers load sequence timestamp ssrc =
    flag_bytes (record {
      version = 2;
      padding = 0;
      extension = 1;
      csrc_count = 0;
      marker = 0;
      payload_type = load;
    })
    ++ (htons (sequence % 2 ^ 16)
        ++ (htonl timestamp
            ++ (htonl ssrc
                ++ (htons 0
                    ++ (htons 3
                        ++ (htons 0
                            ++ (htons (sequence / 2 ^ 16 % 2 ^ 16) ++ (htonl 0 ++ htonl 0))))))))

pub length-headers :
    (load sequence timestamp ssrc : ℕ) → length (headers load sequence timestamp ssrc) ≡ 28
unfolding headers
length-headers load sequence timestamp ssrc = refl

-- A length that is cast to `int`, where a negative one counts as 0: it is tested against 0 or 2.
unfoldable pub int_len : ℕ → ℕ
int_len n = let u = n % 2 ^ 32 in if ltb u (2 ^ 31) then u else 0

pub int_len_small : (n : ℕ) → n < 2 ^ 31 → int_len n ≡ n
unfolding int_len
int_len_small n h = ground (arith, h)
