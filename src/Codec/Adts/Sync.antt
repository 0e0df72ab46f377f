-- ===== src/Codec/Adts/Sync.antt =====
-- `aac_find_frame` of src/codec/codec_utils.cpp: the first sync word of ADTS headers.
use rtc_client.Common.{
  ℕ, zero, suc, ◌+◌, ◌-◌, ◌%◌, ◌^◌, ◌≤◌, ◌<◌, ◌≡◌, ◌⊎◌, refl, Bool, true, false, ◌&&◌, Option,
  Bool-cases, none, some, ◌==◌, if◌then◌else◌, bit_and, arith, inl, inr, subst,
}
use rtc_client.Common.Memory.{Memory}

abbrev pub is_sync : Memory → ℕ → Bool
is_sync m p = m p == 0xff && bit_and (m (p + 1)) 0xf0 == 0xf0

-- The loop over the positions [p, p + n); `none` is NULL.
unfoldable pub sync_loop : Memory → ℕ → ℕ → Option ℕ
sync_loop m p zero = none
sync_loop m p (suc n) = let next = sync_loop m (p + 1) n in if is_sync m p then some p else next

-- `size - 1` wraps around where `size` is 0.
unfoldable pub aac_find_frame : Memory → ℕ → Option ℕ
unfolding sync_loop
aac_find_frame m size = sync_loop m 0 ((size + 2 ^ 64 - 1) % 2 ^ 64)

-- The first sync word among the positions [p, end), or that there is none.
abbrev pub IsFirstSync : Memory → ℕ → ℕ → Option ℕ → Type 0
IsFirstSync m p end r =
    ((r ≡ none) × ((i : ℕ) → p ≤ i → i < end → is_sync m i ≡ false))
    ⊎ ((q : ℕ) × (r ≡ some q)
        × (p ≤ q)
        × (q < end)
        × (is_sync m q ≡ true)
        × ((i : ℕ) → p ≤ i → i < q → is_sync m i ≡ false))

not_before :
    (m : Memory) (p end : ℕ)
    → is_sync m p ≡ false
    → ((i : ℕ) → p + 1 ≤ i → i < end → is_sync m i ≡ false)
    → (i : ℕ) → p ≤ i
    → i < end
    → is_sync m i ≡ false
not_before m p end here behind i lo hi = elim (Bool-cases (i == p)) [
  | inl same ↦ let e : i ≡ p = ground (arith, same) in rw e here
  | inr other ↦ behind i (ground (arith, lo, other)) hi
]

sync_loop-IsFirstSync : (m : Memory) (p n : ℕ) → IsFirstSync m p (p + n) (sync_loop m p n)
unfolding sync_loop
sync_loop-IsFirstSync m p zero = inl (refl, λ i lo hi. absurd (omega (arith, lo, hi)))
sync_loop-IsFirstSync m p (suc n) = elim (Bool-cases (is_sync m p)) [
  | inl here ↦
      inr
        (p, rw here refl, omega arith, omega arith, here, λ i lo hi. absurd (omega (arith, lo, hi)))
  | inr past ↦ elim (sync_loop-IsFirstSync m (p + 1) n) [
    | inl (r, nowhere) ↦
        inl
          (rw past r, not_before m p (p + suc n) past (λ i lo hi. nowhere i lo (omega (arith, hi))))
    | inr (q, r, lo, hi, at, before) ↦
        inr (q, rw past r, omega (arith, lo), omega (arith, hi), at, not_before m p q past before)
  ]
]

-- In a buffer that is not empty, `aac_find_frame` returns the first position at which a sync word
-- stands whole, or NULL where there is none.
pub aac_find_frame-IsFirstSync :
    (m : Memory) (size : ℕ)
    → 1 ≤ size
    → size < 2 ^ 64
    → IsFirstSync m 0 (size - 1) (aac_find_frame m size)
unfolding aac_find_frame
aac_find_frame-IsFirstSync m size lo hi =
    let rounds : (size + 2 ^ 64 - 1) % 2 ^ 64 ≡ size - 1 = ground (arith, lo, hi) in
    let end : 0 + (size - 1) ≡ size - 1 = omega arith in
    rw rounds (
      subst (λ e. IsFirstSync m 0 e (sync_loop m 0 (size - 1))) end
        (sync_loop-IsFirstSync m 0 (size - 1)))

-- Over an empty buffer the loop has 2 ^ 64 - 1 positions.
pub aac_find_frame_empty : (m : Memory) → aac_find_frame m 0 ≡ sync_loop m 0 (2 ^ 64 - 1)
unfolding aac_find_frame
aac_find_frame_empty m = refl
