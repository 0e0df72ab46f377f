-- ===== src/Rtp/Receiver/Order.antt =====
-- The reorder list: strictly ordered, bounded, and served from its lowest sequence.
use rtc_client.Common.{ℕ, ◌+◌, ◌≤◌, ◌<◌, ◌≡◌, refl, List, [], ◌∷◌, arith, length, All}
use rtc_client.Rtp.Packet.{RtpPacket, parse, fresh}
use rtc_client.Rtp.Receiver.{Datagram, insert, enqueue, pop_front}

-- Held back to front, the sequences fall strictly and stay below `n`.
abbrev pub Below : ℕ → List RtpPacket → Type 0
Below n [] = Unit {0}
Below n (p ∷ ps) = (p.sequence < n) × Below p.sequence ps

abbrev pub IsOrdered : List RtpPacket → Type 0
IsOrdered [] = Unit {0}
IsOrdered (p ∷ ps) = Below p.sequence ps

insert-Below :
    (n : ℕ) (p : RtpPacket) (qs : List RtpPacket)
    → p.sequence < n
    → Below n qs
    → Below n (insert p qs)
unfolding insert
insert-Below n p [] h b = (h, tt)
insert-Below n p (q ∷ qs) h b = ground (arith, insert-Below q.sequence p qs)

pub insert-IsOrdered :
    (p : RtpPacket) (qs : List RtpPacket) → IsOrdered qs → IsOrdered (insert p qs)
unfolding insert
insert-IsOrdered p [] o = tt
insert-IsOrdered p (q ∷ qs) o = ground (arith, insert-Below q.sequence p qs)

length-insert : (p : RtpPacket) (qs : List RtpPacket) → length (insert p qs) ≤ length qs + 1
unfolding insert
length-insert p [] = omega arith
length-insert p (q ∷ qs) = ground (arith, length-insert p qs)

pub enqueue-IsOrdered :
    (qs : List RtpPacket) (d : Datagram) → IsOrdered qs → IsOrdered (enqueue qs d)
unfolding enqueue
enqueue-IsOrdered [] d o = tt
enqueue-IsOrdered (q ∷ qs) d o =
    ground (arith, insert-IsOrdered (parse fresh d.bytes d.len).1 (q ∷ qs))

pub length-enqueue : (qs : List RtpPacket) (d : Datagram) → length (enqueue qs d) ≤ length qs + 1
unfolding enqueue
length-enqueue [] d = omega arith
length-enqueue (q ∷ qs) d = ground (arith, length-insert (parse fresh d.bytes d.len).1 (q ∷ qs))

pop_front-Below :
    (n : ℕ) (q : RtpPacket) (qs : List RtpPacket) → Below n (q ∷ qs) → Below n (pop_front q qs).1
unfolding pop_front
pop_front-Below n q [] b = tt
pop_front-Below n q (p ∷ ps) b = (b.0, pop_front-Below q.sequence p ps b.1)

pub pop_front-IsOrdered :
    (q : RtpPacket) (qs : List RtpPacket) → IsOrdered (q ∷ qs) → IsOrdered (pop_front q qs).1
unfolding pop_front
pop_front-IsOrdered q [] o = tt
pop_front-IsOrdered q (p ∷ ps) o = pop_front-Below q.sequence p ps o

pub length-pop_front : (q : RtpPacket) (qs : List RtpPacket) → length (pop_front q qs).1 ≡ length qs
unfolding pop_front
length-pop_front q [] = refl
length-pop_front q (p ∷ ps) = omega (arith, length-pop_front p ps)

pub pop_front-lt :
    (n : ℕ) (q : RtpPacket) (qs : List RtpPacket)
    → Below n (q ∷ qs)
    → (pop_front q qs).0.sequence < n
unfolding pop_front
pop_front-lt n q [] b = b.0
pop_front-lt n q (p ∷ ps) b = omega (arith, pop_front-lt q.sequence p ps b.1)

-- The packet at the front has the lowest sequence.
pub pop_front-lowest :
    (q : RtpPacket) (qs : List RtpPacket)
    → IsOrdered (q ∷ qs)
    → All (λ p. (pop_front q qs).0.sequence < p.sequence) (pop_front q qs).1
unfolding pop_front
pop_front-lowest q [] o = tt
pop_front-lowest q (p ∷ ps) o = (pop_front-lt q.sequence p ps o, pop_front-lowest p ps o.1)
