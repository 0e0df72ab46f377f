-- ===== src/Rtp/Assembler.antt =====
-- `RTPH264FrameAssembler` of src/rtp/rtp_h264_frame_assembler.cpp: RTP payloads to Annex B frames.
-- The assembler's buffer is the list of its first `m_buffer_used_len` bytes: each store goes to the
-- start of the buffer or to the end of what is used.
use rtc_client.Common.{
  ℕ, zero, suc, ◌+◌, ◌-◌, ◌*◌, ◌/◌, ◌%◌, ◌^◌, Bool, true, false, not, Option, none, some, List, [],
  ◌∷◌, ◌++◌, leb, ltb, ◌==◌, ◌&&◌, ◌||◌, if◌then◌else◌, length, bit_and, bit_or,
}
use rtc_client.Rtp.Header.{int_len}
use rtc_client.Common.Memory.{Memory, advance, ntohs, read}
use rtc_client.Rtp.Packet.{RtpPacket}

-- ASSEMBLER_BUFFER_SIZE, START_CODE and SHORT_START_CODE.
abbrev pub assembler_buffer_size : ℕ
assembler_buffer_size = 1024 * 256

abbrev pub long_start_code : List ℕ
long_start_code = 0 ∷ 0 ∷ 0 ∷ 1 ∷ []

abbrev pub short_start_code : List ℕ
short_start_code = 0 ∷ 0 ∷ 1 ∷ []

pub record Assembler : Type 0 where
  pub initialize : Bool
  pub frame : List ℕ

abbrev pub new : Assembler
new = record { initialize = false; frame = [] }

-- `new uint8_t[…]` throws where it fails, so the test behind it never does.
unfoldable pub start : Assembler → Assembler
start a = record a { initialize = true }

-- The test that chooses the short start code: an IDR slice, or a slice that continues a picture.
abbrev pub is_short : ℕ → ℕ → Bool
is_short first second =
    first == 0x65 || ((first == 0x61 || first == 0x41) && bit_and second 0x80 == 0)

unfoldable pub start_code : ℕ → ℕ → List ℕ
start_code first second = if is_short first second then short_start_code else long_start_code

abbrev pub with_frame : Assembler → List ℕ → Assembler
with_frame a f = record a { frame = f }

unfoldable pub get_single_frame : Assembler → Memory → ℕ → Bool × Assembler
unfolding start_code
get_single_frame a m len =
    let code = start_code (m 0) (m 1) in
    if ltb assembler_buffer_size ((len + length code) % 2 ^ 64)
    then (false, with_frame a [])
    else (true, with_frame a (code ++ read m 0 len))

-- The loop over the units of a STAP-A payload: `m` is `src`, `left` is `srcLen`, `out` the bytes
-- stored so far. The outer `none` is no value of the code: the loop out of fuel. The inner one is
-- the early return on a size that is longer than what is left.
unfoldable pub stapa_loop : ℕ → Memory → ℕ → List ℕ → Option (Option (List ℕ))
unfolding start_code
stapa_loop zero m left out = none
stapa_loop (suc fuel) m left out =
    let size = ntohs m 0 in
    let src = advance m 2 in
    let next =
      stapa_loop fuel (advance src size) (left - 2 - size)
        (out ++ (start_code (src 0) (src 1) ++ read src 0 size)) in
    if leb left 2 then some (some out) else if leb size (left - 2) then next else some none

-- Each round takes two bytes at least.
unfoldable pub get_stapa_frame : Assembler → Memory → ℕ → Option (Bool × Assembler)
unfolding stapa_loop int_len
get_stapa_frame a m len = elim (stapa_loop (suc (int_len len)) m (int_len len) []) [
  | none ↦ none
  | some none ↦ some (false, with_frame a [])
  | some (some out) ↦ some (
      if ltb assembler_buffer_size (length out)
      then (false, with_frame a [])
      else (true, with_frame a out))
]

-- `data` is moved past the two FU bytes before its first byte is tested for the start code.
unfoldable pub get_fua_frame : Assembler → Memory → ℕ → Bool × Assembler
unfolding start_code
get_fua_frame a m len =
    let start_bit = m 1 / 2 ^ 7 in
    let end_bit = bit_and (m 1) 0x40 in
    let nal = bit_or (bit_and (m 0) 0xe0) (bit_and (m 1) 0x1f) in
    if ltb len 3 || ltb assembler_buffer_size len
    then (false, with_frame a [])
    else if not (start_bit == 0)
    then (false, with_frame a (start_code (m 2) (m 3) ++ (nal ∷ read m 2 (len - 2))))
    else if not (end_bit == 0)
    then (true, with_frame a (a.frame ++ read m 2 (len - 2)))
    else (false, with_frame a (a.frame ++ read m 2 (len - 2)))

-- `push_packet` behind its first checks: the switch on the type, where 0 stands with 1 to 23.
unfoldable pub push_payload : Assembler → Memory → ℕ → Option (Bool × Assembler)
unfolding get_single_frame get_stapa_frame get_fua_frame
push_payload a m len =
    let type = bit_and (m 0) 0x1f in
    if leb type 23
    then some (get_single_frame a m len)
    else if type == 24
    then get_stapa_frame a (advance m 1) (len - 1)
    else if type == 28
    then some (get_fua_frame a m len)
    else some (false, a)

-- `none` where the payload pointer is null, with a payload length other than 0.
unfoldable pub push_packet : Assembler → RtpPacket → Option (Bool × Assembler)
unfolding push_payload
push_packet a p =
    if not a.initialize
    then some (false, a)
    else if p.payload_len == 0
    then some (false, a)
    else elim p.payload [ none ↦ none | some m ↦ push_payload a m p.payload_len ]
