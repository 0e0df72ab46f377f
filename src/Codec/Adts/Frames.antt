-- ===== src/Codec/Adts/Frames.antt =====
-- The walk of `count_aac_frames` over a buffer of ADTS frames.
use rtc_client.Common.{
  ℕ, zero, suc, ◌+◌, ◌≤◌, ◌<◌, ◌≡◌, ◌⊎◌, inl, inr, refl, ap, ◌∙◌, Option, none, some, arith, leb,
  Bool-cases, Option-cases, subst,
}
use rtc_client.Common.Memory.{Memory, advance}
use rtc_client.Codec.Adts.{AdtsHeader, parse_adts_header, count_loop, count_aac_frames}

-- A header of a frame that the loop looks at.
pub record Frame (m : Memory) (size pos : ℕ) (h : AdtsHeader) : Type 0 where
  pub room : pos + 7 ≤ size
  pub parsed : parse_adts_header (advance m pos) 7 ≡ some h

-- From the first position, `n` frames one behind the other lead to the second.
pub data Chain (m : Memory) (size : ℕ) : ℕ → ℕ → ℕ → Type 0 where
  here : {pos : ℕ} → Chain m size pos pos zero
  next :
      {pos end n : ℕ} (h : AdtsHeader)
      → Frame m size pos h
      → Chain m size (pos + h.aac_frame_length) end n
      → Chain m size pos end (suc n)

-- No frame starts here.
abbrev pub Stops : Memory → ℕ → ℕ → Type 0
Stops m size pos = (size < pos + 7) ⊎ (parse_adts_header (advance m pos) 7 ≡ none)

-- The buffer has no frame of length 0.
abbrev pub HasProgress : Memory → ℕ → Type 0
HasProgress m size = (pos : ℕ) (h : AdtsHeader) → Frame m size pos h → 0 < h.aac_frame_length

-- The whole frames from a position on are counted.
abbrev pub Counted : Memory → ℕ → ℕ → Option ℕ → ℕ → Type 0
Counted m size pos result count =
    (n : ℕ) × (end : ℕ) × (result ≡ some (count + n)) × Chain m size pos end n × Stops m size end

count_loop-next :
    (fuel : ℕ) (m : Memory) (size pos count : ℕ) (h : AdtsHeader)
    → Frame m size pos h
    → count_loop (suc fuel) m size pos count
      ≡ count_loop fuel m size (pos + h.aac_frame_length) (count + 1)
unfolding count_loop
count_loop-next fuel m size pos count h f = ground (arith, f.room, f.parsed)

count_loop-Stops :
    (fuel : ℕ) (m : Memory) (size pos count : ℕ)
    → Stops m size pos
    → count_loop (suc fuel) m size pos count ≡ some count
unfolding count_loop
count_loop-Stops fuel m size pos count s = ground arith

decide-Frame :
    (m : Memory) (size pos : ℕ) → Stops m size pos ⊎ ((h : AdtsHeader) × Frame m size pos h)
decide-Frame m size pos = elim (Option-cases (parse_adts_header (advance m pos) 7)) [
  | inl e ↦ inl (inr e)
  | inr (h, e) ↦ elim (Bool-cases (leb (pos + 7) size)) [
    | inl r ↦ inr (h, record { room = ground arith; parsed = e })
    | inr r ↦ inl (inl (ground arith))
  ]
]

count_loop-Counted :
    (fuel : ℕ) (m : Memory) (size pos count : ℕ)
    → HasProgress m size
    → size < pos + fuel + 7
    → Counted m size pos (count_loop (suc fuel) m size pos count) count
count_loop-Counted zero m size pos count p h =
    (0, pos, rw (count_loop-Stops zero m size pos count s) (ap some (omega arith)), Chain.here, s)
  where
    s : Stops m size pos
    s = inl (omega arith)
count_loop-Counted (suc fuel) m size pos count p h = elim (decide-Frame m size pos) [
  | inl s ↦ (
    0,
    pos,
    rw (count_loop-Stops (suc fuel) m size pos count s) (ap some (omega arith)),
    Chain.here,
    s,
  )
  | inr (f, frame) ↦
      let forward : 0 < f.aac_frame_length = p pos f frame in
      let (n, end, e, c, s) =
        count_loop-Counted fuel m size (pos + f.aac_frame_length) (count + 1) p (omega arith) in
      (
        suc n,
        end,
        count_loop-next (suc fuel) m size pos count f frame ∙ e ∙ ap some (omega arith),
        Chain.next f frame c,
        s,
      )
]

-- In a buffer where no frame has length 0 the walk ends: the result is the number of the frames
-- that stand one behind the other from the start of the buffer, up to a place where no header
-- stands or fewer than seven bytes are left.
pub count_aac_frames-Counted :
    (m : Memory) (size : ℕ) → HasProgress m size → Counted m size 0 (count_aac_frames m size) 0
unfolding count_aac_frames
count_aac_frames-Counted m size p = count_loop-Counted size m size 0 0 p (omega arith)

count_loop-hangs :
    (fuel : ℕ) (m : Memory) (size pos end n count : ℕ)
    → Chain m size pos end n
    → (h : AdtsHeader) → Frame m size end h
    → h.aac_frame_length ≡ 0
    → count_loop fuel m size pos count ≡ none
unfolding count_loop
count_loop-hangs zero m size pos end n count c h f z = refl
count_loop-hangs (suc fuel) m size pos _ zero count Chain.here h f z =
    count_loop-next fuel m size pos count h f
    ∙ count_loop-hangs fuel m size (pos + h.aac_frame_length) (pos + h.aac_frame_length) zero
        (count + 1) Chain.here h (subst (λ i. Frame m size i h) (omega (arith, z)) f) z
count_loop-hangs (suc fuel) m size pos end (suc n) count (Chain.next g frame c) h f z =
    count_loop-next fuel m size pos count g frame
    ∙ count_loop-hangs fuel m size (pos + g.aac_frame_length) end n (count + 1) c h f z

-- A header whose frame length is 0, behind any number of frames, keeps the loop where it is: no
-- number of rounds is enough to get to a result.
pub count_aac_frames-hangs :
    (fuel : ℕ) (m : Memory) (size end n : ℕ) (h : AdtsHeader)
    → Chain m size 0 end n
    → Frame m size end h
    → h.aac_frame_length ≡ 0
    → count_loop fuel m size 0 0 ≡ none
count_aac_frames-hangs fuel m size end n h c f z = count_loop-hangs fuel m size 0 end n 0 c h f z
