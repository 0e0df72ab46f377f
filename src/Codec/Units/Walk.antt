-- ===== src/Codec/Units/Walk.antt =====
-- The four walks look at the same units, and end.
use rtc_client.Common.{
  ℕ, zero, suc, ◌+◌, ◌-◌, ◌<◌, ◌≤◌, ◌≡◌, ◌⊎◌, inl, inr, refl, ap, ◌∙◌, arith, some, List, [], ◌∷◌,
  length, Bool, true, false, ◌==◌, ◌||◌, ==_iff, if◌then◌else◌, Bool-cases,
}
use rtc_client.Common.Memory.{Memory, IsByte}
use rtc_client.Codec.StartCode.{avc_find_start_code}
use rtc_client.Codec.StartCode.First.{avc_find_start_code-bounds}
use rtc_client.Codec.Units.{
  skip_zeros, nal_type, key_frame_loop, sps_pps_idr_loop, key_frames_loop, frames_loop,
  avc_find_key_frame, avc_find_sps_pps_idr, count_avc_key_frames, count_frames,
}

-- The types of the units from a position on, in order.
pub data Units (m : Memory) (base end : ℕ) : ℕ → List ℕ → Type 0 where
  stop : {p : ℕ} → skip_zeros m p (end - p) ≡ end → Units m base end p []
  unit :
      {p q : ℕ} {types : List ℕ}
      → skip_zeros m p (end - p) ≡ q
      → (q == end) ≡ false
      → Units m base end (avc_find_start_code m base q end) types
      → Units m base end p (nal_type m q ∷ types)

-- What each walk makes of the types.
unfoldable pub first_is_key : List ℕ → Bool
first_is_key [] = false
first_is_key (t ∷ ts) =
    let next = first_is_key ts in if t == 5 then true else if t == 1 then false else next

unfoldable pub any_parameter_or_key : List ℕ → Bool
any_parameter_or_key [] = false
any_parameter_or_key (t ∷ ts) =
    let next = any_parameter_or_key ts in if t == 5 || (t == 7 || t == 8) then true else next

unfoldable pub keys : List ℕ → ℕ
keys [] = 0
keys (t ∷ ts) = (if t == 5 then 1 else 0) + keys ts

skip_zeros-bounds :
    (m : Memory) (p n : ℕ)
    → (p ≤ skip_zeros m p n) × (skip_zeros m p n ≤ p + n) × ((n ≡ 0) ⊎ (p < skip_zeros m p n))
unfolding skip_zeros
skip_zeros-bounds m p zero = (omega arith, omega arith, inl refl)
skip_zeros-bounds m p (suc n) = ground (arith, skip_zeros-bounds m (p + 1) n)

module _ (m : Memory) (base end : ℕ) where
  find-Units :
      (fuel p : ℕ)
      → ((i : ℕ) → IsByte (m i))
      → p ≤ end
      → end < p + fuel
      → (types : List ℕ) × Units m base end p types × (length types < fuel)
  find-Units zero p byte lo h = absurd (omega arith)
  find-Units (suc fuel) p byte lo h =
      let q = skip_zeros m p (end - p) in
      let (after, before, moves) = skip_zeros-bounds m p (end - p) in
      elim (Bool-cases (q == end)) [
        | inl last ↦ ([], Units.stop ((==_iff q end).0 last), omega arith)
        | inr inner ↦
            let (from, to) = avc_find_start_code-bounds m base q end byte (omega arith) in
            let (types, u, few) =
              find-Units fuel (avc_find_start_code m base q end) byte to (ground arith) in
            (nal_type m q ∷ types, Units.unit refl inner u, omega arith)
      ]

  frames_loop-Units :
      (fuel p count : ℕ) (types : List ℕ)
      → Units m base end p types
      → length types < fuel
      → frames_loop fuel m base p end count ≡ some (count + length types)
  unfolding frames_loop
  frames_loop-Units zero p count types u h = absurd (omega arith)
  frames_loop-Units (suc fuel) p count [] (Units.stop e) h = ground arith
  frames_loop-Units (suc fuel) p count (t ∷ ts) (Units.unit {q = q} e inner u) h =
      ground (arith, frames_loop-Units fuel (avc_find_start_code m base q end) (count + 1) ts u)

  key_frames_loop-Units :
      (fuel p count : ℕ) (types : List ℕ)
      → Units m base end p types
      → length types < fuel
      → key_frames_loop fuel m base p end count ≡ some (count + keys types)
  unfolding key_frames_loop keys
  key_frames_loop-Units zero p count types u h = absurd (omega arith)
  key_frames_loop-Units (suc fuel) p count [] (Units.stop e) h = ground arith
  key_frames_loop-Units (suc fuel) p count (t ∷ ts) (Units.unit {q = q} e inner u) h =
      let next = avc_find_start_code m base q end in
      ground (
        arith,
        key_frames_loop-Units fuel next (count + 1) ts u,
        key_frames_loop-Units fuel next count ts u,
      )

  key_frame_loop-Units :
      (fuel p : ℕ) (types : List ℕ)
      → Units m base end p types
      → length types < fuel
      → key_frame_loop fuel m base p end ≡ some (first_is_key types)
  unfolding key_frame_loop first_is_key
  key_frame_loop-Units zero p types u h = absurd (omega arith)
  key_frame_loop-Units (suc fuel) p [] (Units.stop e) h = ground arith
  key_frame_loop-Units (suc fuel) p (t ∷ ts) (Units.unit {q = q} e inner u) h =
      ground (arith, key_frame_loop-Units fuel (avc_find_start_code m base q end) ts u)

  sps_pps_idr_loop-Units :
      (fuel p : ℕ) (types : List ℕ)
      → Units m base end p types
      → length types < fuel
      → sps_pps_idr_loop fuel m base p end ≡ some (any_parameter_or_key types)
  unfolding sps_pps_idr_loop any_parameter_or_key
  sps_pps_idr_loop-Units zero p types u h = absurd (omega arith)
  sps_pps_idr_loop-Units (suc fuel) p [] (Units.stop e) h = ground arith
  sps_pps_idr_loop-Units (suc fuel) p (t ∷ ts) (Units.unit {q = q} e inner u) h =
      ground (arith, sps_pps_idr_loop-Units fuel (avc_find_start_code m base q end) ts u)

-- On bytes, the four functions end and agree on one list of unit types, the one that their loop
-- walks over from the first start code on: `count_frames` is its length, `count_avc_key_frames`
-- the number of 5s in it, `avc_find_key_frame` whether 5 is the first of the types 5 and 1 in it,
-- and `avc_find_sps_pps_idr` whether it has a 5, a 7 or an 8.
pub walks_agree :
    (m : Memory) (base size : ℕ)
    → ((i : ℕ) → IsByte (m i))
    → (types : List ℕ) × Units m base size (avc_find_start_code m base 0 size) types
      × (count_frames m base size ≡ some (length types))
      × (count_avc_key_frames m base size ≡ some (keys types))
      × (avc_find_key_frame m base size ≡ some (first_is_key types))
      × (avc_find_sps_pps_idr m base size ≡ some (any_parameter_or_key types))
unfolding count_frames count_avc_key_frames avc_find_key_frame avc_find_sps_pps_idr
walks_agree m base size byte =
    let p = avc_find_start_code m base 0 size in
    let (from, to) = avc_find_start_code-bounds m base 0 size byte (omega arith) in
    let (types, u, few) = find-Units m base size (suc size) p byte to (omega arith) in
    (
      types,
      u,
      frames_loop-Units m base size (suc size) p 0 types u few ∙ ap some (omega arith),
      key_frames_loop-Units m base size (suc size) p 0 types u few ∙ ap some (omega arith),
      key_frame_loop-Units m base size (suc size) p types u few,
      sps_pps_idr_loop-Units m base size (suc size) p types u few,
    )
