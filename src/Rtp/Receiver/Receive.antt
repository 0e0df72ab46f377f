-- ===== src/Rtp/Receiver/Receive.antt =====
-- `receive_rtp_packet` with reordering: what holds after every call, and what a call returns.
use rtc_client.Common.{ℕ, ◌+◌, ◌≤◌, Option, List, [], ◌∷◌, arith, length}
use rtc_client.Rtp.Packet.{RtpPacket}
use rtc_client.Rtp.Receiver.{Receiver, Datagram, enqueue, take_front, receive_reordered}
use rtc_client.Rtp.Receiver.Order.{
  IsOrdered, enqueue-IsOrdered, length-enqueue, pop_front-IsOrdered, length-pop_front,
}

-- The list is in strict sequence order and at most `n` packets long.
pub record Inv (n : ℕ) (r : Receiver) : Type 0 where
  pub ordered : IsOrdered r.reorder_list
  pub bounded : length r.reorder_list ≤ n

take_front-IsOrdered : (n : ℕ) (l : List RtpPacket) → IsOrdered l → IsOrdered (take_front n l).1
unfolding take_front
take_front-IsOrdered n [] o = tt
take_front-IsOrdered n (q ∷ qs) o = ground (arith, pop_front-IsOrdered q qs o)

length-take_front : (n : ℕ) (l : List RtpPacket) → length l ≤ n + 1 → length (take_front n l).1 ≤ n
unfolding take_front
length-take_front n [] h = omega arith
length-take_front n (q ∷ qs) h = ground (arith, length-pop_front q qs)

-- Every call with the same reorder length keeps the list in strict sequence order, so with no
-- sequence twice, and no longer than that length.
pub receive_reordered-Inv :
    (r : Receiver) (n : ℕ) (d : Datagram) → Inv n r → Inv n (receive_reordered r n d).1
unfolding receive_reordered
receive_reordered-Inv r n d v = ground (
  arith,
  take_front-IsOrdered n (enqueue r.reorder_list d) (enqueue-IsOrdered r.reorder_list d v.ordered),
  length-take_front n (enqueue r.reorder_list d),
  length-enqueue r.reorder_list d,
)

-- Calls in a row, with the packets that they return.
unfoldable pub run : Receiver → ℕ → List Datagram → List (Option RtpPacket) × Receiver
run r n [] = ([], r)
run r n (d ∷ ds) =
    let (front, r') = receive_reordered r n d in
    let (later, r'') = run r' n ds in (front ∷ later, r'')

run-Inv : (r : Receiver) (n : ℕ) (ds : List Datagram) → Inv n r → Inv n (run r n ds).1
unfolding run
run-Inv r n [] v = v
run-Inv r n (d ∷ ds) v = run-Inv (receive_reordered r n d).1 n ds (receive_reordered-Inv r n d v)
