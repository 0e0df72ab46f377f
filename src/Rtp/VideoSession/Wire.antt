-- ===== src/Rtp/VideoSession/Wire.antt =====
-- The bytes that leave a video session.
use rtc_client.Common.{
  ℕ, ◌+◌, ◌%◌, ◌^◌, ◌<◌, ◌≡◌, refl, ap, ◌∙◌, sym, Bool, true, false, some, List, ◌++◌, arith,
  length, inl, fun_ext, get_or, length-append, get_or-append_right, if◌then◌else◌,
}
use rtc_client.Common.Memory.{IsU32, of_list, advance, htons, htonl}
use rtc_client.Rtp.Header.{headers, flag_bytes}
use rtc_client.Rtp.Packet.{RtpPacket, parse, payload_length}
use rtc_client.Rtp.Packet.Parse.{parsed, IsWellFormed, parse_parsed}
use rtc_client.Rtp.VideoSession.{finish_packet, store_at}

-- The headers of a packet of a video session.
unfoldable pub video_headers : Bool → ℕ → ℕ → ℕ → ℕ → List ℕ
video_headers last sequence now_ms ssrc num =
    flag_bytes (record {
      version = 2;
      padding = 0;
      extension = 1;
      csrc_count = 0;
      marker = if last then 1 else 0;
      payload_type = 96;
    })
    ++ (htons (sequence % 2 ^ 16)
        ++ (htonl now_ms
            ++ (htonl ssrc
                ++ (htons 0 ++ (htons 3 ++ (htons num ++ (htons 0 ++ (htonl 0 ++ htonl 0))))))))

pub finish_packet-headers :
    (last : Bool) (now_ms num s t c : ℕ) (x : List ℕ)
    → finish_packet last now_ms num (headers 96 s t c ++ x) ≡ video_headers last s now_ms c num ++ x
unfolding finish_packet headers video_headers store_at
finish_packet-headers true now_ms num s t c x = refl
finish_packet-headers false now_ms num s t c x = refl

-- What a packet with these headers parses to: the high half of the sequence is gone.
abbrev pub received_video : Bool → ℕ → ℕ → ℕ → ℕ → List ℕ → RtpPacket
received_video last sequence now_ms ssrc num payload = record {
  padding = false;
  extension = true;
  csrc_count = 0;
  marker = last;
  payload_type = 96;
  sequence = sequence % 2 ^ 16;
  timestamp = now_ms;
  ssrc = ssrc;
  extension_id = 0;
  extension_len = 3;
  reserved = num;
  msw = 0;
  lsw = 0;
  payload = some (of_list payload);
  payload_len = length payload;
  packet = some (of_list (video_headers last sequence now_ms ssrc num ++ payload));
  packet_len = 28 + length payload;
}

length-video_headers :
    (last : Bool) (s now_ms c num : ℕ) → length (video_headers last s now_ms c num) ≡ 28
unfolding video_headers
length-video_headers last s now_ms c num = refl

module _ (s now_ms c num : ℕ) (payload : List ℕ) where
  video_bytes : Bool → List ℕ
  video_bytes last = video_headers last s now_ms c num ++ payload

  video_headers-IsWellFormed :
      (last : Bool)
      → IsWellFormed (of_list (video_headers last s now_ms c num ++ payload)) (28 + length payload)
  unfolding video_headers
  video_headers-IsWellFormed true = (omega arith, refl, refl, refl, inl refl)
  video_headers-IsWellFormed false = (omega arith, refl, refl, refl, inl refl)

  video_pointer :
      (last : Bool)
      → advance (of_list (video_headers last s now_ms c num ++ payload)) 28 ≡ of_list payload
  video_pointer last = fun_ext λ i.
      ap (λ n. get_or (video_headers last s now_ms c num ++ payload) (n + i) 0)
        (sym (length-video_headers last s now_ms c num))
      ∙ get_or-append_right (video_headers last s now_ms c num) payload i 0

  parsed-video :
      (last : Bool)
      → IsU32 now_ms
      → IsU32 c
      → num < 256
      → length payload < 2 ^ 32
      → parsed (of_list (video_headers last s now_ms c num ++ payload)) (28 + length payload)
        ≡ received_video last s now_ms c num payload
  unfolding video_headers payload_length
  parsed-video true t k b n = ground (arith, video_pointer true)
  parsed-video false t k b n = ground (arith, video_pointer false)

  -- A packet as a video session sends it is accepted, and gives back its payload, the timestamp,
  -- the SSRC and the marker, but only the low half of its sequence.
  pub parse-video :
      (last : Bool) (p : RtpPacket)
      → IsU32 now_ms
      → IsU32 c
      → num < 256
      → length payload < 2 ^ 32
      → parse p
          (of_list (video_headers last s now_ms c num ++ payload))
          (length (video_headers last s now_ms c num ++ payload))
        ≡ (true, received_video last s now_ms c num payload)
  parse-video last p t k b n =
      ap (parse p (of_list (video_headers last s now_ms c num ++ payload))) size
      ∙ parse_parsed p (of_list (video_headers last s now_ms c num ++ payload))
          (28 + length payload) (video_headers-IsWellFormed last)
      ∙ ap (λ q. (true, q)) (parsed-video last t k b n)
    where
      size : length (video_headers last s now_ms c num ++ payload) ≡ 28 + length payload
      size = omega (
        arith,
        length-append (video_headers last s now_ms c num) payload,
        length-video_headers last s now_ms c num,
      )
