-- ===== src/Rtp/H264Builder/Splitting.antt =====
-- `send_data`: a frame cut into its NAL units.
use rtc_client.Common.{
  ◌^◌, ℕ, zero, suc, ◌+◌, ◌-◌, ◌<◌, ◌≤◌, ◌≡◌, ◌⊎◌, inl, inr, refl, ap, sym, ◌∙◌, subst, arith,
  Option, none, some, List, [], ◌∷◌, ◌++◌, append_assoc, append-nil, Bool, true, false, ltb,
  if◌then◌else◌,
}
use rtc_client.Common.Memory.{Memory, IsByte, read}
use rtc_client.Codec.StartCode.{avc_find_start_code, is_code}
use rtc_client.Codec.StartCode.First.{
  IsFirst, StepsBack, avc_find_start_code-bounds, avc_find_start_code-IsFirst,
}
use rtc_client.Rtp.Header.{int_len, int_len_small}
use rtc_client.Rtp.H264Builder.{Builder, skip_code, send_loop, send_data}

-- A start code of three bytes at `p`, or of four, and a byte behind it at `s`.
abbrev pub CodeBetween : Memory → ℕ → ℕ → Type 0
CodeBetween m p s =
    ((s ≡ p + 3) × (is_code m p ≡ true)) ⊎ ((s ≡ p + 4) × (m p ≡ 0) × (is_code m (p + 1) ≡ true))

-- The units from a position on: each stands between a start code and the place where the next one
-- is found, and is left out if nothing stands between them.
pub data Splits (m : Memory) (base end : ℕ) : ℕ → List (List ℕ) → Type 0 where
  done : Splits m base end end []
  unit :
      {p s : ℕ} {units : List (List ℕ)}
      → CodeBetween m p s
      → s < end
      → Splits m base end (avc_find_start_code m base s end) units
      → Splits m base end p (
          if ltb s (avc_find_start_code m base s end)
          then read m s (avc_find_start_code m base s end - s) ∷ units
          else units)

-- Where the search ends is the end, or a start code.
found_code :
    (m : Memory) (start end q r : ℕ)
    → IsFirst m start end q
    → StepsBack m start end q r
    → (r ≡ end) ⊎ ((s : ℕ) × CodeBetween m r s × (s < end))
found_code m start end q r (inl (e, rest)) (inl (e', why)) = inl (e' ∙ e)
found_code m start end q r (inl (e, rest)) (inr (e', lo, hi, z)) = absurd (omega arith)
found_code m start end q r (inr (lo, hi, found, before)) (inl (e', why)) =
    inr (r + 3, inl (refl, subst (λ i. is_code m i ≡ true) (sym e') found), omega arith)
found_code m start end q r (inr (lo, hi, found, before)) (inr (e', lo', hi', z)) =
    inr (r + 4, inr (refl, z, subst (λ i. is_code m i ≡ true) (sym e') found), omega arith)

skip_code-code :
    (n : ℕ) (m : Memory) (p : ℕ)
    → is_code m p ≡ true
    → p + 3 < p + n
    → skip_code n m p ≡ some (p + 3)
unfolding skip_code
skip_code-code zero m p c h = absurd (omega arith)
skip_code-code (suc zero) m p c h = absurd (omega arith)
skip_code-code (suc (suc zero)) m p c h = absurd (omega arith)
skip_code-code (suc (suc (suc n))) m p c h = ground arith

skip_code-CodeBetween :
    (n : ℕ) (m : Memory) (p s : ℕ) → CodeBetween m p s → s < p + n → skip_code n m p ≡ some s
unfolding skip_code
skip_code-CodeBetween zero m p s c h = ground arith
skip_code-CodeBetween (suc n) m p s (inl (e, c)) h =
    skip_code-code (suc n) m p c (omega arith) ∙ ap some (omega arith)
skip_code-CodeBetween (suc n) m p s (inr (e, z, c)) h =
    rw z (skip_code-code n m (p + 1) c (omega arith) ∙ ap some (omega arith))

push_if :
    (b : Bool) (vec : List (List ℕ)) (x : List ℕ) (units : List (List ℕ))
    → (if b then vec ++ (x ∷ []) else vec) ++ units ≡ vec ++ (if b then x ∷ units else units)
push_if true vec x units = append_assoc vec (x ∷ []) units
push_if false vec x units = refl

-- The length of a unit that is short enough is not changed by its cast.
push_int :
    (m : Memory) (s e : ℕ) (vec : List (List ℕ))
    → e < 2 ^ 31
    → (if ltb 0 (int_len (e - s)) then vec ++ (read m s (int_len (e - s)) ∷ []) else vec)
      ≡ (if ltb s e then vec ++ (read m s (e - s) ∷ []) else vec)
push_int m s e vec short =
    let same : int_len (e - s) ≡ e - s = int_len_small (e - s) (omega arith) in
    let test : ltb 0 (e - s) ≡ ltb s e = ground arith in
    rw same (ap (λ b. if b then vec ++ (read m s (e - s) ∷ []) else vec) test)

module _ (m : Memory) (base end : ℕ) (byte : (i : ℕ) → IsByte (m i)) (short : end < 2 ^ 31) where
  send_loop_next :
      (fuel p s : ℕ) (vec : List (List ℕ))
      → p < end
      → CodeBetween m p s
      → s < end
      → avc_find_start_code m base s end ≤ end
      → let e = avc_find_start_code m base s end in
        send_loop (suc fuel) m base p end vec
        ≡ send_loop fuel m base e end (if ltb s e then vec ++ (read m s (e - s) ∷ []) else vec)
  unfolding send_loop
  send_loop_next fuel p s vec lt c inside bound =
      let e = avc_find_start_code m base s end in
      let n = int_len (e - s) in
      let test : ltb p end ≡ true = ground (arith, lt) in
      let next : send_loop (suc fuel) m base p end vec
          ≡ send_loop fuel m base e end (if ltb 0 n then vec ++ (read m s n ∷ []) else vec) =
        rw (send_loop, test) (rw (skip_code-CodeBetween (end - p) m p s c (omega arith)) refl) in
      next ∙ ap (send_loop fuel m base e end) (push_int m s e vec (omega (arith, short, bound)))

  send_loop_done :
      (fuel : ℕ) (vec : List (List ℕ)) → send_loop (suc fuel) m base end end vec ≡ some vec
  unfolding send_loop
  send_loop_done fuel vec = ground arith

  -- The loop from a position that the search returned.
  send_loop-Splits :
      (fuel start : ℕ) (vec : List (List ℕ))
      → start ≤ end
      → end < start + fuel
      → let p = avc_find_start_code m base start end in
        (units : List (List ℕ)) × Splits m base end p units
        × (send_loop fuel m base p end vec ≡ some (vec ++ units))
  send_loop-Splits zero start vec lo h = absurd (omega arith)
  send_loop-Splits (suc fuel) start vec lo h =
      let p = avc_find_start_code m base start end in
      let (q, first, back) = avc_find_start_code-IsFirst m base start end byte lo in
      let (from, to) = avc_find_start_code-bounds m base start end byte lo in
      elim (found_code m start end q p first back) [
        | inl e ↦ (
          [],
          subst (λ i. Splits m base end i []) (sym e) Splits.done,
          ap (λ i. send_loop (suc fuel) m base i end vec) e
              ∙ send_loop_done fuel vec
              ∙ ap some (sym (append-nil vec)),
        )
        | inr (s, c, inside) ↦
            let next = avc_find_start_code m base s end in
            let further : p < s = ground arith in
            let x = read m s (next - s) in
            let vec' : List (List ℕ) = if ltb s next then vec ++ (x ∷ []) else vec in
            let (units, split, e) = send_loop-Splits fuel s vec' (omega arith) (omega arith) in
            (
              (if ltb s next then x ∷ units else units),
              Splits.unit c inside split,
              send_loop_next fuel p s vec (omega arith) c inside
                    (avc_find_start_code-bounds m base s end byte (omega arith)).1
                  ∙ e
                  ∙ ap some (push_if (ltb s next) vec x units),
            )
      ]

-- On less than 2 ^ 31 bytes, `send_data` reads nothing outside its data, ends and returns true, and the builder then
-- holds the units between the start codes of the data, in order, with no empty one; nothing else of
-- the builder changes.
pub send_data-Splits :
    (m : Memory) (base len : ℕ) (b : Builder)
    → ((i : ℕ) → IsByte (m i))
    → len < 2 ^ 31
    → (units : List (List ℕ)) × (send_data m base len b
        ≡ some (true, record b { nalu_vec = units }))
      × Splits m base len (avc_find_start_code m base 0 len) units
unfolding send_data
send_data-Splits m base len b byte short =
    let (units, split, e) =
      send_loop-Splits m base len byte short (suc len) 0 [] (omega arith) (omega arith) in
    (units, ap stored e, split)
  where
    stored : Option (List (List ℕ)) → Option (Bool × Builder)
    stored none = none
    stored (some vec) = some (true, record b { nalu_vec = vec })
