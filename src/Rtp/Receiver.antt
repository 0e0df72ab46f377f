-- ===== src/Rtp/Receiver.antt =====
-- `RTPSessionReceiver` of src/rtp/rtp_session_receiver.cpp: packets put back in sequence order.
-- What `m_transmitter->receive_data` delivers is an argument of each call: the length that it
-- returns, 0 where nothing came, and the memory behind the buffer that it fills. Allocations do not
-- fail: `new` throws where they would.
pub mod Order
pub mod Receive
pub mod Contents
use rtc_client.Common.{
  ℕ, ◌≤◌, ◌<◌, Bool, true, false, not, Option, none, some, List, [], ◌∷◌, ltb, leb, ◌==◌, ◌||◌,
  if◌then◌else◌, length,
}
use rtc_client.Common.Memory.{Memory}
use rtc_client.Rtp.Packet.{RtpPacket, parse, fresh}

-- `m_reorder_list` is held back to front: its head is the last element of the list. `m_rtp_packet`
-- is the packet that the calls without reordering parse into. The transmitter that `init` creates
-- and the buffer that it allocates are not part of the record.
pub record Receiver : Type 0 where
  pub initialize : Bool
  pub reorder : Bool
  pub reorder_list : List RtpPacket
  pub rtp_packet : RtpPacket

abbrev pub new : Receiver
new = record { initialize = false; reorder = false; reorder_list = []; rtp_packet = fresh }

-- What `receive_data` delivers.
pub record Datagram : Type 0 where
  pub len : ℕ
  pub bytes : Memory

-- `transmitter_ok` is whether the transmitter's `init` returns true; `add_destination` always does.
unfoldable pub init : Bool → Bool → Receiver → Bool × Receiver
init transmitter_ok reorder r =
    if r.initialize
    then (true, r)
    else if transmitter_ok
    then (true, record r { initialize = true; reorder = reorder; rtp_packet = fresh })
    else (false, record r { reorder = reorder })

-- `receive_rtp_packet (timeout_us)`
unfoldable pub receive_plain : Receiver → Datagram → Option RtpPacket × Receiver
receive_plain r d =
    let (accepted, p) = parse r.rtp_packet d.bytes d.len in
    if not r.initialize
    then (none, r)
    else if d.len == 0
    then (none, r)
    else (if accepted then some p else none, record r { rtp_packet = p })

-- The loop that walks from the back of the list to the place of `p`; a packet whose sequence is
-- there already is dropped.
unfoldable pub insert : RtpPacket → List RtpPacket → List RtpPacket
insert p [] = p ∷ []
insert p (q ∷ qs) =
    let before = q ∷ insert p qs in
    if ltb p.sequence q.sequence
    then before
    else if ltb q.sequence p.sequence
    then p ∷ q ∷ qs
    else q ∷ qs

-- The list after a datagram has come, or none. On an empty list the packet that is pushed is a new
-- one: the datagram is not parsed into it.
unfoldable pub enqueue : List RtpPacket → Datagram → List RtpPacket
unfolding insert
enqueue [] d = fresh ∷ []
enqueue (q ∷ qs) d =
    let (accepted, p) = parse fresh d.bytes d.len in
    if ltb 0 d.len then (if accepted then insert p (q ∷ qs) else q ∷ qs) else q ∷ qs

-- `front ()` and `pop_front ()`, at the end of the list as it is held here.
unfoldable pub pop_front : RtpPacket → List RtpPacket → RtpPacket × List RtpPacket
pop_front q [] = (q, [])
pop_front q (p ∷ ps) = let (front, rest) = pop_front p ps in (front, q ∷ rest)

unfoldable pub take_front : ℕ → List RtpPacket → Option RtpPacket × List RtpPacket
unfolding pop_front
take_front reorder_len [] = (none, [])
take_front reorder_len (q ∷ qs) =
    let (front, rest) = pop_front q qs in
    if ltb reorder_len (length (q ∷ qs)) then (some front, rest) else (none, q ∷ qs)

-- `receive_rtp_packet (reorderLen, timeout_us)`; a `reorder_len` of 0 stands for any up to 0. With
-- `reorder` set by an `init` that failed, the code calls a null transmitter; a datagram stands only
-- for a call on a transmitter that is there.
unfoldable pub receive_reordered : Receiver → ℕ → Datagram → Option RtpPacket × Receiver
unfolding receive_plain enqueue take_front
receive_reordered r reorder_len d =
    let (front, rest) = take_front reorder_len (enqueue r.reorder_list d) in
    if reorder_len == 0 || not r.reorder
    then receive_plain r d
    else (front, record r { reorder_list = rest })
