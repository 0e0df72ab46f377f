-- ===== src/Rtp/Loopback/Parse.antt =====
-- `RTPPacket::parse` on a packet that starts with the headers of a builder.
use rtc_client.Common.{
  ℕ, ◌+◌, ◌^◌, ◌<◌, ◌≡◌, refl, ap, ◌∙◌, sym, true, false, List, ◌++◌, inl, arith, length,
  length-append, fun_ext, some, get_or, get_or-append_right,
}
use rtc_client.Common.Memory.{IsU32, of_list, advance}
use rtc_client.Rtp.Header.{headers, length-headers}
use rtc_client.Rtp.Packet.{RtpPacket, parse, payload_length}
use rtc_client.Rtp.Packet.Parse.{parsed, IsWellFormed, parse_parsed}

-- What a packet with these headers and this payload parses to.
abbrev pub received : ℕ → ℕ → ℕ → ℕ → List ℕ → RtpPacket
received load sequence timestamp ssrc payload = record {
  padding = false;
  extension = true;
  csrc_count = 0;
  marker = false;
  payload_type = load;
  sequence = sequence;
  timestamp = timestamp;
  ssrc = ssrc;
  extension_id = 0;
  extension_len = 3;
  reserved = 0;
  msw = 0;
  lsw = 0;
  payload = some (of_list payload);
  payload_len = length payload;
  packet = some (of_list (headers load sequence timestamp ssrc ++ payload));
  packet_len = 28 + length payload;
}

module _ (load sequence timestamp ssrc : ℕ) (payload : List ℕ) where
  abbrev pub bytes : List ℕ
  bytes = headers load sequence timestamp ssrc ++ payload

  headers-IsWellFormed : IsWellFormed (of_list bytes) (28 + length payload)
  unfolding headers
  headers-IsWellFormed = (omega arith, refl, refl, refl, inl refl)

  payload_pointer : advance (of_list bytes) 28 ≡ of_list payload
  payload_pointer = fun_ext λ i.
      ap (λ n. get_or bytes (n + i) 0) (sym (length-headers load sequence timestamp ssrc))
      ∙ get_or-append_right (headers load sequence timestamp ssrc) payload i 0

  parsed-headers :
      load < 128
      → IsU32 sequence
      → IsU32 timestamp
      → IsU32 ssrc
      → length payload < 2 ^ 32
      → parsed (of_list bytes) (28 + length payload) ≡ received load sequence timestamp ssrc payload
  unfolding headers payload_length
  parsed-headers l s t c n = ground (arith, payload_pointer)

  -- A packet with the builders' headers is accepted, whatever was parsed before, and gives back
  -- the sequence, the timestamp, the SSRC and the payload that it was built from.
  pub parse-headers :
      (p : RtpPacket)
      → load < 128
      → IsU32 sequence
      → IsU32 timestamp
      → IsU32 ssrc
      → length payload < 2 ^ 32
      → parse p (of_list bytes) (length bytes)
        ≡ (true, received load sequence timestamp ssrc payload)
  parse-headers p l s t c n =
      ap (parse p (of_list bytes)) size
      ∙ parse_parsed p (of_list bytes) (28 + length payload) headers-IsWellFormed
      ∙ ap (λ q. (true, q)) (parsed-headers l s t c n)
    where
      size : length bytes ≡ 28 + length payload
      size = omega (
        arith,
        length-append (headers load sequence timestamp ssrc) payload,
        length-headers load sequence timestamp ssrc,
      )
