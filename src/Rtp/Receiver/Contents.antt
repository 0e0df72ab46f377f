-- ===== src/Rtp/Receiver/Contents.antt =====
-- The reorder list as a map from sequences to packets.
use rtc_client.Common.{
  ℕ, ◌+◌, ◌≤◌, ◌<◌, ◌≡◌, refl, true, Option, none, some, List, [], ◌∷◌, arith, length, ltb, All,
  if◌then◌else◌, ◌==◌, ◌⊎◌, inl, inr, Bool-cases, subst,
}
use rtc_client.Rtp.Packet.{RtpPacket}
use rtc_client.Rtp.Receiver.{Receiver, Datagram, enqueue, pop_front, take_front, receive_reordered}
use rtc_client.Rtp.Receiver.Order.{
  Below, IsOrdered, pop_front-lt, pop_front-lowest, enqueue-IsOrdered,
}

unfoldable pub find : ℕ → List RtpPacket → Option RtpPacket
find s [] = none
find s (p ∷ ps) = if p.sequence == s then some p else find s ps

-- The map that `insert` should give: the first packet of a sequence stays.
abbrev pub with_packet : RtpPacket → ℕ → Option RtpPacket → Option RtpPacket
with_packet p s (some q) = some q
with_packet p s none = if p.sequence == s then some p else none

find-pop_front :
    (s n : ℕ) (q : RtpPacket) (qs : List RtpPacket)
    → Below n (q ∷ qs)
    → find s (pop_front q qs).1
      ≡ (if (pop_front q qs).0.sequence == s then none else find s (q ∷ qs))
unfolding find pop_front
find-pop_front s n q [] b = ground arith
find-pop_front s n q (p ∷ ps) b =
    ground (arith, find-pop_front s q.sequence p ps b.1, pop_front-lt q.sequence p ps b.1)

find_front :
    (n : ℕ) (q : RtpPacket) (qs : List RtpPacket)
    → Below n (q ∷ qs)
    → find (pop_front q qs).0.sequence (q ∷ qs) ≡ some (pop_front q qs).0
unfolding find pop_front
find_front n q [] b = ground arith
find_front n q (p ∷ ps) b =
    ground (arith, find_front q.sequence p ps b.1, pop_front-lt q.sequence p ps b.1)

-- What a call hands over, `f` out of the list `l` with `rest` left: the packet of the lowest
-- sequence, all of whose sequence is gone from the list, and no other.
pub record Serves (l : List RtpPacket) (f : RtpPacket) (rest : List RtpPacket) : Type 0 where
  pub held : find f.sequence l ≡ some f
  pub lowest : All (λ p. f.sequence < p.sequence) rest
  pub removed : (s : ℕ) → find s rest ≡ (if f.sequence == s then none else find s l)

pop_front-Serves :
    (q : RtpPacket) (qs : List RtpPacket)
    → IsOrdered (q ∷ qs)
    → Serves (q ∷ qs) (pop_front q qs).0 (pop_front q qs).1
pop_front-Serves q qs o =
    let b : Below (q.sequence + 1) (q ∷ qs) = (omega arith, o) in
    record {
      held = find_front (q.sequence + 1) q qs b;
      lowest = pop_front-lowest q qs o;
      removed = λ s. find-pop_front s (q.sequence + 1) q qs b;
    }

take_front-Serves :
    (n : ℕ) (l : List RtpPacket)
    → IsOrdered l
    → ((length l ≤ n) × (take_front n l ≡ (none, l)))
      ⊎ ((f : RtpPacket) × (n < length l)
          × ((take_front n l).0 ≡ some f)
          × Serves l f (take_front n l).1)
unfolding take_front
take_front-Serves n [] o = inl (omega arith, refl)
take_front-Serves n (q ∷ qs) o = elim (Bool-cases (ltb n (length (q ∷ qs)))) [
  | inl over ↦ inr ((pop_front q qs).0, ground arith, rw over, rw over (pop_front-Serves q qs o))
  | inr under ↦ inl (ground arith, rw under)
]

-- With reordering on and a positive reorder length, a call on an ordered list either leaves at most
-- that many packets and returns none, or returns the packet of the lowest sequence that the list
-- holds after the datagram has been put in, and takes exactly that packet out.
pub receive_reordered-Serves :
    (r : Receiver) (n : ℕ) (d : Datagram)
    → r.reorder ≡ true
    → 0 < n
    → IsOrdered r.reorder_list
    → let l = enqueue r.reorder_list d in
      let (front, r') = receive_reordered r n d in
      ((length l ≤ n) × (front ≡ none) × (r'.reorder_list ≡ l))
      ⊎ ((f : RtpPacket) × (n < length l) × (front ≡ some f) × Serves l f r'.reorder_list)
unfolding receive_reordered
receive_reordered-Serves r n d on pos o =
    elim (take_front-Serves n (enqueue r.reorder_list d) (enqueue-IsOrdered r.reorder_list d o)) [
      | inl (few, e) ↦ inl (few, ground arith, ground arith)
      | inr (f, many, e, s) ↦
          inr (f, many, ground arith, subst (Serves (enqueue r.reorder_list d) f) rest s)
    ]
  where
    rest : (take_front n (enqueue r.reorder_list d)).1 ≡ (receive_reordered r n d).1.reorder_list
    rest = ground arith
