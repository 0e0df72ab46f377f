-- ===== src/Rtp/H264Builder/Room.antt =====
-- How much buffer is enough: where the stores fit, no build fails.
use rtc_client.Common.{
  ℕ, zero, suc, ◌+◌, ◌*◌, ◌≤◌, ◌<◌, ◌≡◌, refl, ◌∙◌, Bool, true, false, List, [], ◌∷◌, ◌++◌, arith,
  leb, ltb, ◌==◌, if◌then◌else◌, length, length-drop, take, drop, bit_and, bit_or, ◌&&◌, lt→leb,
  lt→ltb,
}
use rtc_client.Rtp.H264Builder.{
  Work, Outcome, built, full, stuck, emit, stap_loop, fill_packet, build_packet, fua_loop,
  fu_header, copy_length, build_fua_packet, flush, pack_loop, payload_size, ◌>>=◌,
}
use rtc_client.Common.Memory.{htons}

-- The build returns true, in a state with the predicate.
abbrev pub Returns : (Work → Type 0) → Outcome → Type 0
Returns P (built w) = P w
Returns P (full w) = ⊥
Returns P stuck = ⊥

-- The build returns true within `cost` bytes of buffer.
pub record Within (w : Work) (cost : ℕ) (w' : Work) : Type 0 where
  pub pos : w'.pos ≤ w.pos + cost
  pub buffer_end : w'.buffer_end ≡ w.buffer_end

Returns-bind :
    (P Q : Work → Type 0) (o : Outcome) (k : Work → Outcome)
    → Returns P o
    → ((w : Work) → P w → Returns Q (k w))
    → Returns Q (o >>= k)
Returns-bind P Q (built w) k h step = step w h
Returns-bind P Q (full w) k h step = absurd h
Returns-bind P Q stuck k h step = absurd h

pub Returns-mono :
    {P Q : Work → Type 0} (o : Outcome) → ((w : Work) → P w → Q w) → Returns P o → Returns Q o
Returns-mono (built w) f h = f w h
Returns-mono (full w) f h = absurd h
Returns-mono stuck f h = absurd h

-- Twice the bytes of the units, and 31 bytes more for each: its share of packet headers, STAP-A
-- sizes and FU bytes.
abbrev pub cost : List (List ℕ) → ℕ
cost [] = 0
cost (nalu ∷ rest) = 2 * length nalu + 31 + cost rest

cost-append : (xs ys : List (List ℕ)) → cost (xs ++ ys) ≡ cost xs + cost ys
cost-append [] ys = omega arith
cost-append (x ∷ xs) ys = omega (arith, cost-append xs ys)

stap_loop-Within :
    (w : Work) (p : ℕ) (payload : List ℕ) (vec : List (List ℕ))
    → p + cost vec < w.buffer_end
    → Returns
        (λ w'. (w'.pos ≤ p + cost vec) × (w'.buffer_end ≡ w.buffer_end))
        (stap_loop w false p payload vec)
unfolding stap_loop emit
stap_loop-Within w p payload [] h = (omega arith, refl)
stap_loop-Within w p payload (nalu ∷ rest) h =
    rw (lt→ltb (p + length nalu) w.buffer_end (omega arith)) (
      Returns-mono (stap_loop w false (p + 0 + 2 + length nalu) _ rest) (λ w' k. (omega arith, k.1))
        (stap_loop-Within w (p + 0 + 2 + length nalu) _ rest (omega arith)))

fill_packet-Within :
    (w : Work) (p : ℕ) (nalu : List ℕ) (rest : List (List ℕ))
    → p + 1 + cost (nalu ∷ rest) < w.buffer_end + 29
    → Returns
        (λ w'. (w'.pos + 28 ≤ p + cost (nalu ∷ rest)) × (w'.buffer_end ≡ w.buffer_end))
        (fill_packet w p (nalu ∷ rest))
unfolding fill_packet stap_loop emit
fill_packet-Within w p nalu [] h =
    rw (lt→ltb (p + length nalu) w.buffer_end (omega arith)) (omega arith, refl)
fill_packet-Within w p nalu (next ∷ rest) h =
    rw (lt→ltb (p + length nalu) w.buffer_end (omega arith)) (
      Returns-mono (stap_loop w false (p + 1 + 2 + length nalu) units (next ∷ rest))
        (λ w' k. (omega arith, k.1))
        (stap_loop-Within w (p + 1 + 2 + length nalu) units (next ∷ rest) (omega arith)))
  where
    units : List ℕ
    units = 0x18 ∷ (htons (length nalu) ++ nalu)

build_packet-Within :
    (w : Work) (nalu : List ℕ) (rest : List (List ℕ))
    → w.pos + cost (nalu ∷ rest) < w.buffer_end
    → Returns (Within w (cost (nalu ∷ rest))) (build_packet w (nalu ∷ rest))
unfolding build_packet
build_packet-Within w nalu rest h = rw (lt→leb w.buffer_end (w.pos + 12 + 16) (omega arith)) (
    Returns-mono (fill_packet w (w.pos + 12 + 16) nalu_vec)
      (λ w' k. record { pos = omega arith; buffer_end = k.1 })
      (fill_packet-Within w (w.pos + 12 + 16) nalu rest (omega arith)))
  where
    nalu_vec : List (List ℕ)
    nalu_vec = nalu ∷ rest

copy_length-le : (n : ℕ) → copy_length n ≤ n
copy_length-le n = ground arith

dropped :
    (left : List ℕ)
    → leb (length left) (copy_length (length left)) ≡ false
    → (copy_length (length left) ≡ 1370)
      × (length (drop (copy_length (length left)) left) + 1370 ≡ length left)
dropped left more = ground (arith, length-drop (copy_length (length left)) left)

-- One round: it is the last, or the others return within what is left.
fua_round-Within :
    (P : Work → Type 0) (last : Bool) (w : Work) (next : Outcome)
    → P w
    → (last ≡ false → Returns P next)
    → Returns P (if last then built w else next)
fua_round-Within P true w next h k = h
fua_round-Within P false w next h k = k refl

-- A round that is not the last copies 1370 bytes, which pay for the 30 bytes of headers of the next.
fua_loop-Within :
    (fuel : ℕ) (w : Work) (fnri type : ℕ) (start : Bool) (left : List ℕ)
    → length left < fuel
    → w.pos + 30 + 2 * length left < w.buffer_end
    → Returns (Within w (30 + 2 * length left)) (fua_loop fuel w fnri type start left)
unfolding fua_loop emit
fua_loop-Within zero w fnri type start left h room = absurd (omega arith)
fua_loop-Within (suc fuel) w fnri type start left h room =
    let n = copy_length (length left) in
    let small : n ≤ length left = copy_length-le (length left) in
    let payload = bit_or fnri 0x1c ∷ fu_header start type n (length left) ∷ take n left in
    let w' = emit w payload (w.pos + 12 + 16 + 2 + n) in
    rw
      (
        lt→leb w.buffer_end (w.pos + 12 + 16) (omega arith),
        lt→leb w.buffer_end (w.pos + 12 + 16 + 2) (omega arith),
        lt→leb w.buffer_end (w.pos + 12 + 16 + 2 + n) (omega arith),
      )
      (fua_round-Within (Within w (30 + 2 * length left)) (leb (length left) n) w' _
        (record { pos = omega arith; buffer_end = refl })
        λ more.
          let fewer = dropped left more in
          Returns-mono (fua_loop fuel w' fnri type false (drop n left))
            (λ w'' k. record { pos = omega (arith, k.pos); buffer_end = k.buffer_end })
            (fua_loop-Within fuel w' fnri type false (drop n left) (omega arith) (omega arith)))

build_fua_packet-Within :
    (w : Work) (nalu : List ℕ)
    → 0 < length nalu
    → w.pos + cost (nalu ∷ []) < w.buffer_end
    → Returns (Within w (cost (nalu ∷ []))) (build_fua_packet w nalu)
unfolding build_fua_packet
build_fua_packet-Within w [] h room = absurd (omega arith)
build_fua_packet-Within w (x ∷ left) h room =
    Returns-mono (fua_loop (suc (length left)) w (bit_and x 0xe0) (bit_and x 0x1f) true left)
      (λ w' k. record { pos = omega arith; buffer_end = k.buffer_end })
      (fua_loop-Within (suc (length left)) w _ _ true left (omega arith) (omega arith))

flush-Within :
    (w : Work) (tmp : List (List ℕ))
    → w.pos + cost tmp < w.buffer_end
    → Returns (Within w (cost tmp)) (flush w tmp)
unfolding flush
flush-Within w [] h = record { pos = omega arith; buffer_end = refl }
flush-Within w (nalu ∷ rest) h = build_packet-Within w nalu rest h

-- What follows a build that stays within its cost.
then-Within :
    (w : Work) (a b c : ℕ) (o : Outcome) (k : Work → Outcome)
    → a + b ≤ c
    → w.pos + c < w.buffer_end
    → Returns (Within w a) o
    → ((v : Work) → v.pos + b < v.buffer_end → Returns (Within v b) (k v))
    → Returns (Within w c) (o >>= k)
then-Within w a b c o k le room h step = Returns-bind (Within w a) (Within w c) o k h λ v first.
    Returns-mono (k v)
      (λ u second. record {
        pos = omega (arith, first.pos, second.pos);
        buffer_end = second.buffer_end ∙ first.buffer_end;
      })
      (step v (omega (arith, first.pos, first.buffer_end)))

choose_within :
    (P : Work → Type 0) (b : Bool) (o o' : Outcome)
    → (b ≡ true → Returns P o)
    → (b ≡ false → Returns P o')
    → Returns P (if b then o else o')
choose_within P true o o' h h' = h refl
choose_within P false o o' h h' = h' refl

pub pack_loop-Within :
    (w : Work) (tmp : List (List ℕ)) (total : ℕ) (nalus : List (List ℕ))
    → w.pos + (cost tmp + cost nalus) < w.buffer_end
    → Returns (Within w (cost tmp + cost nalus)) (pack_loop w tmp total nalus)
unfolding pack_loop
pack_loop-Within w tmp total [] room =
    Returns-mono (flush w tmp)
      (λ w' k. record { pos = omega (arith, k.pos); buffer_end = k.buffer_end })
      (flush-Within w tmp (omega arith))
pack_loop-Within w tmp total (nalu ∷ rest) room =
    let P = Within w (cost tmp + cost (nalu ∷ rest)) in
    choose_within P (ltb payload_size (length nalu)) _ _
      (λ long.
        then-Within w (cost tmp) (cost (nalu ∷ rest)) _ (flush w tmp) _ (omega arith) room
          (flush-Within w tmp (omega arith))
          λ v room'.
            then-Within v (cost (nalu ∷ [])) (0 + cost rest) _ (build_fua_packet v nalu) _
              (omega arith) room' (build_fua_packet-Within v nalu (ground arith) (omega arith))
              λ u. pack_loop-Within u [] (if length tmp == 0 then total else 0) rest)
      λ short.
        choose_within P (ltb total payload_size && ltb payload_size (total + length nalu)) _ _
          (λ over.
            then-Within w (cost tmp) (cost (nalu ∷ []) + cost rest) _ (flush w tmp) _ (omega arith)
              room (flush-Within w tmp (omega arith))
              λ v. pack_loop-Within v (nalu ∷ []) (length nalu) rest)
          λ fits.
            let grown = cost-append tmp (nalu ∷ []) in
            Returns-mono (pack_loop w (tmp ++ (nalu ∷ [])) (total + length nalu) rest)
              (λ w' k. record { pos = omega (arith, k.pos, grown); buffer_end = k.buffer_end })
              (pack_loop-Within w (tmp ++ (nalu ∷ [])) (total + length nalu) rest
                (omega (arith, grown)))
