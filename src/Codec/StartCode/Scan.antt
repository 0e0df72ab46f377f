-- ===== src/Codec/StartCode/Scan.antt =====
-- `AVCFindStartCodeInternal` against a scan byte by byte.
use rtc_client.Common.{
  ℕ, zero, suc, ◌+◌, ◌-◌, ◌*◌, ◌%◌, ◌≡◌, refl, ap, ap₂, sym, ◌∙◌, arith, Option, none, some, inl,
  inr, Bool-cases, ◌==◌, ==_iff, if◌then◌else◌,
}
use mathlib.Core.Option.{get_or}
use rtc_client.Common.Memory.{Memory, IsByte}
use rtc_client.Codec.StartCode.{
  scan_bytes, scan_words, word_code, word_at, zero_byte_bits, or_else, head_rounds, word_rounds,
  find_internal,
}
use rtc_client.Codec.StartCode.ZeroByte.{byte_0, byte_1, byte_2, byte_3}

scan_bytes-append :
    (m : Memory) (p a b : ℕ)
    → scan_bytes m p (a + b) ≡ or_else (scan_bytes m p a) (scan_bytes m (p + a) b)
unfolding scan_bytes
scan_bytes-append m p zero b = ap₂ (scan_bytes m) (omega arith) (omega arith)
scan_bytes-append m p (suc a) b =
    let more : suc a + b ≡ suc (a + b) = omega arith in
    let along : p + suc a ≡ p + 1 + a = omega arith in
    rw (more, along) (ground (arith, scan_bytes-append m (p + 1) a b))

-- The tests on one word find what a scan of its four positions finds.
word_code-scan : (m : Memory) (p : ℕ) → word_code m p ≡ scan_bytes m p 4
unfolding word_code scan_bytes
word_code-scan m p = ground arith

word_without_zero :
    (m : Memory) (p : ℕ)
    → ((i : ℕ) → IsByte (m i))
    → zero_byte_bits (word_at m p) ≡ 0
    → scan_bytes m p 4 ≡ none
unfolding scan_bytes
word_without_zero m p byte z =
    ground (arith, byte_0 m p byte z, byte_1 m p byte z, byte_2 m p byte z, byte_3 m p byte z)

scan_bytes-zero : (m : Memory) (p : ℕ) → none ≡ scan_bytes m p (4 * 0)
unfolding scan_bytes
scan_bytes-zero m p = refl

choose :
    (o next rest : Option ℕ)
    → next ≡ rest
    → (elim o [ none ↦ next | some q ↦ some q ]) ≡ or_else o rest
choose none next rest e = e
choose (some q) next rest e = refl

-- One round of the loop over words, with what the later rounds find.
word_step :
    (m : Memory) (p : ℕ) (rest next : Option ℕ)
    → ((i : ℕ) → IsByte (m i))
    → next ≡ rest
    → (if zero_byte_bits (word_at m p) == 0
        then next
        else elim (word_code m p) [ none ↦ next | some q ↦ some q ])
      ≡ or_else (scan_bytes m p 4) rest
word_step m p rest next byte e = elim (Bool-cases (zero_byte_bits (word_at m p) == 0)) [
  | inl z ↦ rw (z, word_without_zero m p byte ((==_iff _ 0).0 z)) e
  | inr z ↦ rw (z, word_code-scan m p) (choose (scan_bytes m p 4) next rest e)
]

scan_words-scan :
    (m : Memory) (p k : ℕ) → ((i : ℕ) → IsByte (m i)) → scan_words m p k ≡ scan_bytes m p (4 * k)
unfolding scan_words
scan_words-scan m p zero byte = scan_bytes-zero m p
scan_words-scan m p (suc k) byte =
    word_step m p (scan_bytes m (p + 4) (4 * k)) (scan_words m (p + 4) k) byte
      (scan_words-scan m (p + 4) k byte)
    ∙ sym (scan_bytes-append m p 4 (4 * k))
    ∙ ap (scan_bytes m p) (omega arith)

-- The loop up to the next word, the loop over whole words and the loop over the rest, whatever the
-- alignment of the memory, find what one scan of all positions byte by byte finds.
pub find_internal-scan :
    (m : Memory) (base start end : ℕ)
    → ((i : ℕ) → IsByte (m i))
    → find_internal m base start end ≡ get_or (scan_bytes m start (end - 3 - start)) end
unfolding find_internal
find_internal-scan m base start end byte =
    let n = head_rounds ((base + start) % 4) start end in
    let p = start + n in
    let k = word_rounds p end in
    let q = p + 4 * k in
    let all : n + (4 * k + (end - 3 - q)) ≡ end - 3 - start = omega arith in
    ap (λ o. get_or o end)
      (ap (λ o. or_else (scan_bytes m start n) (or_else o (scan_bytes m q (end - 3 - q))))
          (scan_words-scan m p k byte)
        ∙ ap (or_else (scan_bytes m start n)) (sym (scan_bytes-append m p (4 * k) (end - 3 - q)))
        ∙ sym (scan_bytes-append m start n (4 * k + (end - 3 - q)))
        ∙ ap (scan_bytes m start) all)
