-- ===== src/Rtp/Packet/Ssrc.antt =====
-- Rewriting the SSRC of a packet in place.
use rtc_client.Common.{ℕ, ◌+◌, ◌-◌, ◌≤◌, ◌<◌, ◌≡◌, ◌⊎◌, inr, true, some, arith, fun_ext}
use rtc_client.Common.Memory.{Memory, IsU32, ntohs, ntohl, advance, ntohl-htonl}
use rtc_client.Rtp.Header.{extension_size}
use rtc_client.Rtp.Packet.{payload_length, RtpPacket, parse, set_ssrc, write_ssrc, extension_at}
use rtc_client.Rtp.Packet.Parse.{parsed, IsWellFormed, parse_parsed}

write_ssrc_outside : (m : Memory) (v i : ℕ) → (i < 8) ⊎ (12 ≤ i) → write_ssrc m v i ≡ m i
unfolding write_ssrc
write_ssrc_outside m v i h = ground arith

ntohl-write_ssrc : (m : Memory) (v : ℕ) → IsU32 v → ntohl (write_ssrc m v) 8 ≡ v
unfolding write_ssrc
ntohl-write_ssrc m v h = ntohl-htonl v h

parsed-write_ssrc :
    (m : Memory) (v len : ℕ)
    → IsWellFormed m len
    → IsU32 v
    → parsed (write_ssrc m v) len
      ≡ record (parsed m len) { ssrc = v; packet = some (write_ssrc m v) }
unfolding write_ssrc payload_length
parsed-write_ssrc m v len w h = ground (
  arith,
  ntohl-htonl v h,
  ntohs-far (extension_at m),
  ntohs-far (extension_at m + 4),
  ntohs-far (extension_at m + 6),
  ntohl-far (extension_at m + 8),
  ntohl-far (extension_at m + 12),
  outside (len - 1),
  advance-far (extension_at m + extension_size),
)
  where
    outside : (i : ℕ) → 12 ≤ i → write_ssrc m v i ≡ m i
    outside i far = write_ssrc_outside m v i (inr far)

    ntohs-far : (i : ℕ) → 12 ≤ i → ntohs (write_ssrc m v) i ≡ ntohs m i
    ntohs-far i far = rw (outside i far, outside (i + 1) (omega arith))

    ntohl-far : (i : ℕ) → 12 ≤ i → ntohl (write_ssrc m v) i ≡ ntohl m i
    ntohl-far i far = rw (
      outside i far,
      outside (i + 1) (omega arith),
      outside (i + 2) (omega arith),
      outside (i + 3) (omega arith),
    )

    advance-far : (i : ℕ) → 12 ≤ i → advance (write_ssrc m v) i ≡ advance m i
    advance-far i far = fun_ext λ j. outside (i + j) (omega arith)

write_ssrc-IsWellFormed :
    (m : Memory) (v len : ℕ) → IsWellFormed m len → IsWellFormed (write_ssrc m v) len
unfolding write_ssrc
write_ssrc-IsWellFormed m v len w = ground (
  arith,
  write_ssrc_outside m v (extension_at m + 2),
  write_ssrc_outside m v (extension_at m + 3),
  write_ssrc_outside m v (len - 1),
)

-- `set_ssrc` on an accepted packet rewrites the buffer so that parsing it again gives the new SSRC
-- and every other field, the payload included, as it was.
pub set_ssrc-parse :
    (p q : RtpPacket) (m : Memory) (len v : ℕ)
    → IsWellFormed m len
    → IsU32 v
    → (set_ssrc (parse p m len).1 v ≡ some (write_ssrc m v))
      × (parse q (write_ssrc m v) len
          ≡ (true, record (parse p m len).1 { ssrc = v; packet = some (write_ssrc m v) }))
unfolding set_ssrc
set_ssrc-parse p q m len v w h = ground (
  arith,
  parse_parsed p m len w,
  parse_parsed q (write_ssrc m v) len (write_ssrc-IsWellFormed m v len w),
  parsed-write_ssrc m v len w h,
)
