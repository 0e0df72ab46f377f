-- ===== src/Logger/Names.antt =====
-- The names of the log files fit the buffer that `write_log` prints them to.
use rtc_client.Common.{
  ℕ, zero, suc, ◌+◌, ◌*◌, ◌/◌, ◌%◌, ◌^◌, ◌≤◌, ◌<◌, ◌≡◌, refl, ap, Bool, Bool-cases, true, false,
  inl, inr, [], ◌∷◌, ◌++◌, ltb, length, length-append, arith, lt→ltb,
}
use rtc_client.Common.Text.{ascii}
use rtc_client.Utils.{pos, negsuc, digits, to_int, to_unsigned}
use rtc_client.Logger.{Logger, Time, file_name_of, decimal, two_digits, is_over}
use rtc_client.Logger.Search.{Fits}

-- The fields of a `struct tm` that are printed are `int`.
pub record IsTime (t : Time) : Type 0 where
  pub year : t.year + 1900 < 2 ^ 31
  pub mon : t.mon + 1 < 2 ^ 31
  pub mday : t.mday < 2 ^ 31

abbrev tens : ℕ → ℕ
tens zero = 10
tens (suc k) = 10 * tens k

digits_small : (f n : ℕ) → ltb n 10 ≡ true → digits (suc f) n ≡ (48 + n) ∷ []
unfolding digits
digits_small f n h = rw (digits, h) refl

digits_large :
    (f n : ℕ) → ltb n 10 ≡ false → digits (suc f) n ≡ digits f (n / 10) ++ ((48 + n % 10) ∷ [])
unfolding digits
digits_large f n h = rw (digits, h) refl

length-digits : (k f n : ℕ) → n < tens k → length (digits f n) ≤ suc k
length-digits k zero n h = unfold digits in omega arith
length-digits zero (suc f) n h =
    omega (arith, ap (length {0}) (digits_small f n (ground (arith, h))))
length-digits (suc k) (suc f) n h = elim (Bool-cases (ltb n 10)) [
  | inl small ↦ omega (arith, ap (length {0}) (digits_small f n small))
  | inr large ↦ omega (
    arith,
    ap (length {0}) (digits_large f n large),
    length-digits k f (n / 10) (omega (arith, h)),
    length-append {0} (digits f (n / 10)) ((48 + n % 10) ∷ []),
  )
]

length-decimal : (n : ℕ) → n < 2 ^ 31 → length (decimal n) ≤ 10
length-decimal n h = length-digits 9 (suc n) n (omega (arith, h))

length-two_digits : (n : ℕ) → n < 2 ^ 31 → length (two_digits n) ≤ 11
length-two_digits n h = elim (Bool-cases (ltb n 10)) [
  | inl small ↦ rw small (omega (arith, length-decimal n h))
  | inr large ↦ rw large (omega (arith, length-decimal n h))
]

length-file_name_of :
    (l : Logger) (t : Time) (k : ℕ)
    → length l.prefix_name ≤ 128
    → IsTime t
    → k < 2 ^ 31
    → length (file_name_of l t k) < 256
unfolding file_name_of ascii
length-file_name_of l t k short time small = elim (Bool-cases l.is_daily) [
  | inl daily ↦
      let end = b'.' ∷ decimal k ++ ascii ".log" in
      let day = b'-' ∷ two_digits t.mday ++ end in
      let month = b'-' ∷ two_digits (t.mon + 1) ++ day in
      let year = b'-' ∷ decimal (t.year + 1900) ++ month in
      rw daily (
        omega (
          arith,
          short,
          length-append {0} l.prefix_name year,
          length-append {0} (decimal (t.year + 1900)) month,
          length-append {0} (two_digits (t.mon + 1)) day,
          length-append {0} (two_digits t.mday) end,
          length-append {0} (decimal k) (ascii ".log"),
          length-decimal (t.year + 1900) time.year,
          length-two_digits (t.mon + 1) time.mon,
          length-two_digits t.mday time.mday,
          length-decimal k small,
        ))
  | inr other ↦
      let end = b'.' ∷ decimal k ++ ascii ".log" in
      rw other (
        omega (
          arith,
          short,
          length-append {0} l.prefix_name end,
          length-append {0} (decimal k) (ascii ".log"),
          length-decimal k small,
        ))
]

pub file_name_of-Fits :
    (l : Logger) (t : Time)
    → length l.prefix_name ≤ 128
    → IsTime t
    → l.max_file_count < 2 ^ 31
    → Fits l t
file_name_of-Fits l t short time few k low high =
    lt→ltb _ 256 (length-file_name_of l t k short time (omega (arith, high, few)))

-- A product that is small enough does not wrap around.
to_int_small : (n : ℕ) → n < 2 ^ 31 → to_int (pos n) ≡ pos n
unfolding to_int to_unsigned
to_int_small n h = ground arith

pub is_over_small :
    (max_size printed : ℕ)
    → max_size < 2 ^ 21
    → is_over max_size printed ≡ ltb (max_size * 1024) printed
is_over_small max_size printed h =
    ap (λ z. elim z as (λ x. Bool) [ pos n ↦ ltb n printed | negsuc n ↦ true ])
      (to_int_small (max_size * 1024) (omega (arith, h)))
