-- ===== src/Logger/Search.antt =====
-- The search for a log file that is not there yet.
use rtc_client.Common.{
  ℕ, zero, suc, ◌+◌, ◌≤◌, ◌<◌, ◌≡◌, refl, ap, subst, ◌∙◌, ◌⊎◌, inl, inr, Bool, Bool-cases, true,
  false, some, ◌==◌, arith, dec_lt, [], ◌++◌,
}
use native.Mathlib.Nat.{mod-eq_of_lt, mod_self}
use rtc_client.Common.Text.{is_empty}
use rtc_client.Logger.{
  fits_buffer, next_seq, search_loop, System, Time, Logger, next_file, file_name_of,
}

-- The number that the search is to end at: the first one behind `seq` whose file is not there, or 1
-- where the files of all numbers up to the last one are.
abbrev pub IsFree : (ℕ → Bool) → ℕ → ℕ → ℕ → Type 0
IsFree exists count seq s =
    ((seq < s) × (s ≤ count) × (exists s ≡ false) × ((k : ℕ) → seq < k → k < s → exists k ≡ true))
    ⊎ ((s ≡ 1) × ((k : ℕ) → seq < k → k ≤ count → exists k ≡ true))

next_seq-lt : (count seq : ℕ) → seq < count → next_seq count seq ≡ seq + 1
next_seq-lt count seq h = ap (λ k. k + 1) (mod-eq_of_lt h)

next_seq_self : (count : ℕ) → 0 < count → next_seq count count ≡ 1
next_seq_self count h = ap (λ k. k + 1) (mod_self count)

-- A number whose file is there moves the search on.
IsFree-later :
    (exists : ℕ → Bool) (count seq s : ℕ)
    → exists (seq + 1) ≡ true
    → IsFree exists count (seq + 1) s
    → IsFree exists count seq s
IsFree-later exists count seq s there (inl (l, h, free, before)) = inl (
  omega arith,
  h,
  free,
  λ k lo hi. elim (dec_lt (seq + 1) k) [
    | yes later ↦ before k later hi
    | no now ↦ let e : seq + 1 ≡ k = omega arith in subst (λ j. exists j ≡ true) e there
  ],
)
IsFree-later exists count seq s there (inr (e, all)) = inr (
  e,
  λ k lo hi. elim (dec_lt (seq + 1) k) [
    | yes later ↦ all k later hi
    | no now ↦ let e : seq + 1 ≡ k = omega arith in subst (λ j. exists j ≡ true) e there
  ],
)

-- The round behind the last number ends the search at 1.
search_loop-last :
    (fits exists : ℕ → Bool) (count fuel : ℕ)
    → 0 < count
    → fits 1 ≡ true
    → search_loop fits exists count (suc fuel) true count ≡ some 1
unfolding search_loop
search_loop-last fits exists count fuel pos room = rw (next_seq_self count pos) (rw room refl)

-- One round.
search_loop-stop :
    (fits exists : ℕ → Bool) (count fuel seq : ℕ)
    → seq < count
    → fits (seq + 1) ≡ true
    → exists (seq + 1) ≡ false
    → search_loop fits exists count (suc fuel) false seq ≡ some (seq + 1)
unfolding search_loop
search_loop-stop fits exists count fuel seq lt room free =
    rw (next_seq-lt count seq lt) (rw room (rw free refl))

search_loop-more :
    (fits exists : ℕ → Bool) (count fuel seq : ℕ)
    → seq < count
    → fits (seq + 1) ≡ true
    → exists (seq + 1) ≡ true
    → search_loop fits exists count (suc fuel) false seq
      ≡ search_loop fits exists count fuel (seq + 1 == count) (seq + 1)
unfolding search_loop
search_loop-more fits exists count fuel seq lt room there =
    rw (next_seq-lt count seq lt)
      (rw room (rw there (ap (λ b. search_loop fits exists count fuel b (seq + 1)) (ground arith))))

-- As many rounds as there are numbers left, and one more, are enough.
pub search_loop-IsFree :
    (fits exists : ℕ → Bool) (count fuel seq : ℕ)
    → ((k : ℕ) → 1 ≤ k → k ≤ count → fits k ≡ true)
    → 0 < count
    → seq < count
    → count + 1 ≤ fuel + seq
    → (s : ℕ) × (search_loop fits exists count fuel false seq ≡ some s) × IsFree exists count seq s
search_loop-IsFree fits exists count zero seq room pos lt enough = absurd (omega arith)
search_loop-IsFree fits exists count (suc zero) seq room pos lt enough = absurd (omega arith)
search_loop-IsFree fits exists count (suc (suc fuel)) seq room pos lt enough =
    elim (Bool-cases (exists (seq + 1))) [
      | inl there ↦ elim (dec_lt (seq + 1) count) [
        | yes more ↦
            let (s, run, free) =
              search_loop-IsFree fits exists count (suc fuel) (seq + 1) room pos more
                (omega arith) in
            let test : (seq + 1 == count) ≡ false = ground arith in
            (
              s,
              search_loop-more fits exists count (suc fuel) seq lt
                    (room (seq + 1) (omega arith) (omega arith)) there
                  ∙ rw test run,
              IsFree-later exists count seq s there free,
            )
        | no last ↦
            let e : seq + 1 ≡ count = omega arith in
            let test : (seq + 1 == count) ≡ true = ground arith in
            (
              1,
              search_loop-more fits exists count (suc fuel) seq lt
                    (room (seq + 1) (omega arith) (omega arith)) there
                  ∙ rw test (
                      rw e (
                        search_loop-last fits exists count fuel pos
                          (room 1 (omega arith) (omega arith)))),
              inr (
                refl,
                λ k lo hi.
                    let e' : seq + 1 ≡ k = omega arith in subst (λ j. exists j ≡ true) e' there,
              ),
            )
      ]
      | inr free ↦ (
        seq + 1,
        search_loop-stop fits exists count (suc fuel) seq lt
            (room (seq + 1) (omega arith) (omega arith)) free,
        inl (omega arith, omega arith, free, λ k lo hi. absurd (omega arith)),
      )
    ]

-- The names of all numbers fit the buffer.
abbrev pub Fits : Logger → Time → Type 0
Fits l t = (k : ℕ) → 1 ≤ k → k ≤ l.max_file_count → fits_buffer (file_name_of l t k) ≡ true

-- Where no path is set, as where a logger begins, the names of all numbers fit the buffer, and the
-- files are counted from 0, the search ends: at the first number whose file is not there, or at 1
-- where the files of all numbers are.
pub next_file-IsFree :
    (sys : System) (t : Time) (l : Logger)
    → Fits l t
    → 0 < l.max_file_count
    → l.log_file_path ≡ []
    → (s : ℕ) × (next_file sys t 0 l ≡ some s)
      × IsFree (λ k. sys.exists (l.log_directory ++ file_name_of l t k)) l.max_file_count 0 s
unfolding next_file
next_file-IsFree sys t l room pos fresh =
    let (s, run, free) =
      search_loop-IsFree (λ k. fits_buffer (file_name_of l t k))
        (λ k. sys.exists (l.log_directory ++ file_name_of l t k)) l.max_file_count
        (l.max_file_count + 2) 0 room pos pos (omega arith) in
    let test : (l.max_file_count == 0) ≡ false = ground arith in
    let empty : is_empty l.log_file_path ≡ true = rw fresh refl in (s, rw test (rw empty run), free)
