-- ===== src/Codec/StartCode/First.antt =====
-- Which position `avc_find_start_code` returns.
use rtc_client.Common.{
  ℕ, zero, suc, ◌+◌, ◌-◌, ◌<◌, ◌≤◌, ◌≡◌, ◌⊎◌, inl, inr, refl, sym, subst, arith, true, false,
  Bool-cases, ==_iff, ltb, ◌==◌, ◌&&◌, if◌then◌else◌,
}
use mathlib.Core.Option.{get_or}
use rtc_client.Common.Memory.{Memory, IsByte}
use rtc_client.Codec.StartCode.{is_code, scan_bytes, find_internal, avc_find_start_code}
use rtc_client.Codec.StartCode.Scan.{find_internal-scan}

-- No start code begins in [p, q).
abbrev pub NoCode : Memory → ℕ → ℕ → Type 0
NoCode m p q = (i : ℕ) → p ≤ i → i < q → is_code m i ≡ false

-- The first start code of [start, end) that lies in it whole, or `end`.
abbrev pub IsFirst : Memory → ℕ → ℕ → ℕ → Type 0
IsFirst m start end q =
    ((q ≡ end) × NoCode m start (end - 3))
    ⊎ ((start ≤ q) × (q + 3 < end) × (is_code m q ≡ true) × NoCode m start q)

NoCode-suc : (m : Memory) (p q : ℕ) → is_code m p ≡ false → NoCode m (p + 1) q → NoCode m p q
NoCode-suc m p q e h i lo hi = elim (Bool-cases (p == i)) [
  | inl same ↦ subst (λ j. is_code m j ≡ false) ((==_iff p i).0 same) e
  | inr apart ↦ h i (ground arith) hi
]

scan_bytes-IsFirst :
    (m : Memory) (p n end : ℕ) → n ≡ end - 3 - p → IsFirst m p end (get_or (scan_bytes m p n) end)
unfolding scan_bytes
scan_bytes-IsFirst m p zero end e = inl (refl, λ i lo hi. absurd (omega arith))
scan_bytes-IsFirst m p (suc n) end e = elim (Bool-cases (is_code m p)) [
  | inl here ↦ rw here (inr (omega arith, omega arith, here, λ i lo hi. absurd (omega arith)))
  | inr not_here ↦ rw not_here (later not_here (scan_bytes-IsFirst m (p + 1) n end (omega arith)))
]
  where
    later : is_code m p ≡ false → {q : ℕ} → IsFirst m (p + 1) end q → IsFirst m p end q
    later not_here {q} (inl (at_end, none_there)) =
        inl (at_end, NoCode-suc m p (end - 3) not_here none_there)
    later not_here {q} (inr (lo, hi, found, none_there)) =
        inr (omega arith, hi, found, NoCode-suc m p q not_here none_there)

-- On bytes, `AVCFindStartCodeInternal` returns the first position from `start` on where 0, 0, 1
-- stand with at least a byte behind them, or `end` where there is none, whatever the alignment.
pub find_internal-IsFirst :
    (m : Memory) (base start end : ℕ)
    → ((i : ℕ) → IsByte (m i))
    → IsFirst m start end (find_internal m base start end)
find_internal-IsFirst m base start end byte =
    subst (IsFirst m start end) (sym (find_internal-scan m base start end byte))
      (scan_bytes-IsFirst m start (end - 3 - start) end refl)

-- What the step back makes of a position `q`.
abbrev pub StepsBack : Memory → ℕ → ℕ → ℕ → ℕ → Type 0
StepsBack m start end q r =
    ((r ≡ q) × ((q ≡ start) ⊎ ((q ≡ end) ⊎ (0 < m (q - 1)))))
    ⊎ ((r + 1 ≡ q) × (start ≤ r) × (q < end) × (m r ≡ 0))

step_back :
    (m : Memory) (start end q : ℕ)
    → start ≤ q
    → q ≤ end
    → StepsBack m start end q (if ltb start q && (ltb q end && m (q - 1) == 0) then q - 1 else q)
step_back m start end q lo hi = ground arith

IsFirst-bounds :
    (m : Memory) (start end q : ℕ) → start ≤ end → IsFirst m start end q → (start ≤ q) × (q ≤ end)
IsFirst-bounds m start end q h (inl (e, none_there)) = (omega arith, omega arith)
IsFirst-bounds m start end q h (inr (lo, hi, found, none_there)) = (lo, omega arith)

-- On bytes, `avc_find_start_code` returns that first position, or the one before it where a zero
-- byte stands there, which makes the code four bytes long; `start` is not passed.
pub avc_find_start_code-IsFirst :
    (m : Memory) (base start end : ℕ)
    → ((i : ℕ) → IsByte (m i))
    → start ≤ end
    → (q : ℕ) × IsFirst m start end q
      × StepsBack m start end q (avc_find_start_code m base start end)
unfolding avc_find_start_code
avc_find_start_code-IsFirst m base start end byte h =
    let q = find_internal m base start end in
    let first : IsFirst m start end q = find_internal-IsFirst m base start end byte in
    let (lo, hi) = IsFirst-bounds m start end q h first in (q, first, step_back m start end q lo hi)

scan_bytes-bounds :
    (m : Memory) (p n end : ℕ)
    → p + n ≤ end
    → (p ≤ get_or (scan_bytes m p n) end) × (get_or (scan_bytes m p n) end ≤ end)
unfolding scan_bytes
scan_bytes-bounds m p zero end h = (omega arith, omega arith)
scan_bytes-bounds m p (suc n) end h = ground (arith, scan_bytes-bounds m (p + 1) n end)

-- The result stays in the range.
pub avc_find_start_code-bounds :
    (m : Memory) (base start end : ℕ)
    → ((i : ℕ) → IsByte (m i))
    → start ≤ end
    → (start ≤ avc_find_start_code m base start end) × (avc_find_start_code m base start end ≤ end)
unfolding avc_find_start_code
avc_find_start_code-bounds m base start end byte h = in_range (find_internal m base start end) (
    subst (λ q. (start ≤ q) × (q ≤ end)) (sym (find_internal-scan m base start end byte))
      (scan_bytes-bounds m start (end - 3 - start) end (omega arith)))
  where
    in_range :
        (q : ℕ)
        → (start ≤ q) × (q ≤ end)
        → let r = if ltb start q && (ltb q end && m (q - 1) == 0) then q - 1 else q in
          (start ≤ r) × (r ≤ end)
    in_range q (lo, hi) = ground arith
