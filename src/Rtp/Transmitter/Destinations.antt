-- ===== src/Rtp/Transmitter/Destinations.antt =====
-- The destinations of a transmitter: which are kept, and which are sent to.
use rtc_client.Common.{
  ℕ, ◌≤◌, ◌<◌, ◌≡◌, Bool, true, false, Option, none, some, List, [], ◌∷◌, ◌++◌, arith, length,
  if◌then◌else◌,
}
use rtc_client.Rtp.Transmitter.{
  Address, same_address, Transmitter, add_destination, erase_address, delete_destination,
}

module _ (sendto : Address → List ℕ → Option ℕ) (bytes : List ℕ) where
  -- A run of `send_data` over some destinations, with what it returns and the destinations that it
  -- calls: true behind the last, or false at the first that did not take all bytes.
  pub data Sends : List Address → Bool × List Address → Type 0 where
    all_sent : Sends [] (true, [])
    one_sent :
        {d : Address} {ds called : List Address} {ok : Bool} {n : ℕ}
        → sendto d bytes ≡ some n
        → length bytes ≤ n
        → Sends ds (ok, called)
        → Sends (d ∷ ds) (ok, d ∷ called)
    one_failed :
        {d : Address} {ds : List Address} → sendto d bytes ≡ none → Sends (d ∷ ds) (false, d ∷ [])
    one_short :
        {d : Address} {ds : List Address} {n : ℕ}
        → sendto d bytes ≡ some n
        → n < length bytes
        → Sends (d ∷ ds) (false, d ∷ [])

unfoldable pub holds : Address → List Address → Bool
holds a [] = false
holds a (d ∷ ds) = let rest = holds a ds in if same_address a d then true else rest

holds-erase_address :
    (a b : Address) (ds : List Address)
    → holds b (erase_address a ds) ≡ (if same_address a b then false else holds b ds)
unfolding holds erase_address
holds-erase_address a b [] = ground arith
holds-erase_address a b (d ∷ ds) = ground (arith, holds-erase_address a b ds)

holds-append :
    (a b : Address) (ds : List Address)
    → holds b (ds ++ (a ∷ [])) ≡ (if same_address b a then true else holds b ds)
unfolding holds
holds-append a b [] = ground arith
holds-append a b (d ∷ ds) = ground (arith, holds-append a b ds)

-- Behind `add_destination` the transmitter has the new address and what it had; behind
-- `delete_destination` it has what it had but the address, however often that was added.
pub destinations-holds :
    (a b : Address) (t : Transmitter)
    → (holds b (add_destination a t).destinations
        ≡ (if same_address b a then true else holds b t.destinations))
      × (holds b (delete_destination a t).destinations
          ≡ (if same_address a b then false else holds b t.destinations))
unfolding add_destination delete_destination
destinations-holds a b t = (holds-append a b t.destinations, holds-erase_address a b t.destinations)
