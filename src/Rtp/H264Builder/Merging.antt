-- ===== src/Rtp/H264Builder/Merging.antt =====
-- The packing loop once the sizes of the units that wait make up a payload exactly.
use rtc_client.Common.{
  ℕ, ◌+◌, ◌≤◌, ◌≡◌, ap, List, [], ◌∷◌, ◌++◌, append_assoc, append-nil, arith, All, length, sym,
}
use rtc_client.Rtp.H264Builder.{Work, payload_size, pack_loop, flush}

-- Once the sizes of the units that wait add up to the size of a payload or more, the loop sends
-- nothing while units of at most that size come: all of them go into one packet with those that
-- wait, however many they are.
pub pack_loop-merges :
    (w : Work) (tmp : List (List ℕ)) (total : ℕ) (nalus : List (List ℕ))
    → payload_size ≤ total
    → All (λ nalu. length nalu ≤ payload_size) nalus
    → pack_loop w tmp total nalus ≡ flush w (tmp ++ nalus)
unfolding pack_loop
pack_loop-merges w tmp total [] h short = ap (flush w) (sym (append-nil tmp))
pack_loop-merges w tmp total (nalu ∷ rest) h (s, short) = ground (
  arith,
  pack_loop-merges w (tmp ++ (nalu ∷ [])) (total + length nalu) rest (omega arith) short,
  append_assoc tmp (nalu ∷ []) rest,
)
