-- ===== src/Codec/BitReader/Golomb.antt =====
-- The codes of the standard as lists of bits, and what the readers make of them.
use rtc_client.Common.{
  ℕ, zero, suc, ◌+◌, ◌-◌, ◌*◌, ◌/◌, ◌%◌, ◌^◌, ◌≤◌, ◌<◌, ◌≡◌, refl, ap, sym, ◌∙◌, subst, Bool-cases,
  inl, inr, true, some, List, [], ◌∷◌, ◌++◌, ltb, length, length-append, if◌then◌else◌, arith,
  dec_lt, lt→ltb,
}
use native.Mathlib.Nat.{pow-suc, pow-le-pow_right}
use rtc_client.Codec.BitReader.{
  Reader, ◌>>=◌, pure, bit_at, bits_loop, zeros_loop, u, ue, se, signed,
}

-- The `n` low bits of a number, the highest first.
unfoldable pub fixed : ℕ → ℕ → List ℕ
fixed zero v = []
fixed (suc n) v = fixed n (v / 2) ++ (v % 2) ∷ []

abbrev pub zeros : ℕ → List ℕ → List ℕ
zeros zero bits = bits
zeros (suc n) bits = 0 ∷ zeros n bits

abbrev pub log2 : ℕ → ℕ → ℕ
log2 zero x = 0
log2 (suc fuel) x = let rest = suc (log2 fuel (x / 2)) in if ltb x 2 then 0 else rest

-- The Exp-Golomb code of a number: the number and one in binary, behind a zero for each bit that
-- follows its first.
unfoldable pub golomb : ℕ → List ℕ
unfolding fixed
golomb v = let n = log2 v (v + 1) in zeros n (1 ∷ fixed n (v + 1))

-- The number that bits stand for, behind a number.
number : ℕ → List ℕ → ℕ
number acc [] = acc
number acc (b ∷ bits) = number (acc * 2 + b) bits

number-snoc :
    (acc : ℕ) (bits : List ℕ) (b : ℕ) → number acc (bits ++ b ∷ []) ≡ number acc bits * 2 + b
unfolding number
number-snoc acc [] b = refl
number-snoc acc (x ∷ bits) b = number-snoc (acc * 2 + x) bits b

length-fixed : (n v : ℕ) → length (fixed n v) ≡ n
unfolding fixed
length-fixed zero v = refl
length-fixed (suc n) v =
    omega (arith, length-append (fixed n (v / 2)) ((v % 2) ∷ []), length-fixed n (v / 2))

length-zeros : (n : ℕ) (bits : List ℕ) → length (zeros n bits) ≡ n + length bits
length-zeros zero bits = omega arith
length-zeros (suc n) bits = omega (arith, length-zeros n bits)

-- The bits of a number are read back; so are those behind its highest one.
number-fixed : (n v : ℕ) → v < 2 ^ n → number 0 (fixed n v) ≡ v
unfolding number fixed
number-fixed zero v h = omega arith
number-fixed (suc n) v h = omega (
  arith,
  number-snoc 0 (fixed n (v / 2)) (v % 2),
  number-fixed n (v / 2) (omega (arith, pow-suc 2 n)),
)

number_one-fixed : (n x : ℕ) → 2 ^ n ≤ x → x < 2 ^ suc n → number 1 (fixed n x) ≡ x
unfolding number fixed
number_one-fixed zero x l h = omega arith
number_one-fixed (suc n) x l h = omega (
  arith,
  number-snoc 1 (fixed n (x / 2)) (x % 2),
  number_one-fixed n (x / 2) (omega (arith, pow-suc 2 n))
      (omega (arith, pow-suc 2 n, pow-suc 2 (suc n))),
)

number-shift : (acc : ℕ) (bits : List ℕ) → number acc bits ≡ acc * 2 ^ length bits + number 0 bits
unfolding number
number-shift acc [] = omega arith
number-shift acc (b ∷ bits) =
    let e = number-shift (acc * 2 + b) bits in
    let e0 = number-shift b bits in grind (arith, e, e0, pow-suc 2 (length bits))

log2_bounds :
    (fuel x : ℕ) → 1 ≤ x → x ≤ suc fuel → (2 ^ log2 fuel x ≤ x) × (x < 2 ^ suc (log2 fuel x))
log2_bounds zero x pos small = omega arith
log2_bounds (suc fuel) x pos small = elim (Bool-cases (ltb x 2)) [
  | inl one ↦ rw one (ground arith)
  | inr more ↦
      let (l, h) = log2_bounds fuel (x / 2) (ground arith) (ground arith) in
      rw more (
        omega (arith, pow-suc 2 (log2 fuel (x / 2))),
        omega (arith, pow-suc 2 (suc (log2 fuel (x / 2)))),
      )
]

-- The bits that stand in a buffer from a position on.
abbrev pub Spells : List ℕ → ℕ → List ℕ → Type 0
Spells buf p [] = Unit {0}
Spells buf p (b ∷ bits) = (bit_at buf p ≡ some b) × Spells buf (p + 1) bits

Spells-append :
    (buf : List ℕ) (p : ℕ) (xs ys : List ℕ)
    → Spells buf p (xs ++ ys)
    → Spells buf p xs × Spells buf (p + length xs) ys
Spells-append buf p [] ys h =
    (tt, let e : p + 0 ≡ p = omega arith in subst (λ q. Spells buf q ys) (sym e) h)
Spells-append buf p (x ∷ xs) ys h =
    let (hx, hy) = Spells-append buf (p + 1) xs ys h.1 in
    let e : p + 1 + length xs ≡ p + suc (length xs) = omega arith in
    ((h.0, hx), subst (λ q. Spells buf q ys) e hy)

-- A reader that makes `a` of the bits, wherever they stand in the first `size` bytes.
pub record Reads {A : Type 0} (buf : List ℕ) (size : ℕ) (m : Reader A) (bits : List ℕ) (a : A)
    : Type 0 where
  pub at :
      (p : ℕ) → Spells buf p bits → p + length bits ≤ size * 8 → m p ≡ some (a, p + length bits)

bits_loop-number :
    (buf bits : List ℕ) (acc p : ℕ)
    → Spells buf p bits
    → bits_loop buf (length bits) (acc % 2 ^ 64) p
      ≡ some (number acc bits % 2 ^ 64, p + length bits)
unfolding bits_loop number
bits_loop-number buf [] acc p h = ground arith
bits_loop-number buf (b ∷ bits) acc p h =
    let e : (acc % 2 ^ 64 * 2 + b) % 2 ^ 64 ≡ (acc * 2 + b) % 2 ^ 64 = omega arith in
    let n : p + 1 + length bits ≡ p + suc (length bits) = omega arith in
    rw (h.0, bits_loop) (rw e (rw (bits_loop-number buf bits (acc * 2 + b) (p + 1) h.1) (rw n)))

module _ (buf : List ℕ) (size : ℕ) where
  -- One reader behind the other.
  pub Reads->>= :
      {A B : Type 0} {m : Reader A} (f : A → Reader B) {xs ys : List ℕ} {a : A} {b : B}
      → Reads buf size m xs a
      → Reads buf size (f a) ys b
      → Reads buf size (m >>= f) (xs ++ ys) b
  unfolding ◌>>=◌
  Reads->>= {m} f {xs} {ys} {a} {b} hm hf = record { at = both }
    where
      both :
          (p : ℕ)
          → Spells buf p (xs ++ ys)
          → p + length (xs ++ ys) ≤ size * 8
          → (m >>= f) p ≡ some (b, p + length (xs ++ ys))
      both p h fits =
          let (hx, hy) = Spells-append buf p xs ys h in
          let n : p + length xs + length ys ≡ p + length (xs ++ ys) =
            omega (arith, length-append {0} xs ys) in
          rw (hm.at p hx (omega (arith, length-append {0} xs ys)), ◌>>=◌)
            (hf.at (p + length xs) hy (omega (arith, length-append {0} xs ys))
              ∙ ap (λ k. some (b, k)) n)

  pub Reads-pure : {A : Type 0} (a : A) → Reads buf size (pure a) [] a
  unfolding pure
  Reads-pure a = record { at = λ p h fits. ground arith }

  -- A number in so many bits.
  read_fixed :
      (n v : ℕ)
      → n ≤ 64
      → v < 2 ^ n
      → (p : ℕ) → Spells buf p (fixed n v)
      → u n buf p ≡ some (v, p + length (fixed n v))
  unfolding u
  read_fixed n v small h p hs =
      let bound : 2 ^ n ≤ 2 ^ 64 = pow-le-pow_right (omega arith) {i = n} {j = 64} small in
      let e : number 0 (fixed n v) % 2 ^ 64 ≡ v = omega (arith, number-fixed n v h) in
      let read = bits_loop-number buf (fixed n v) 0 p hs in
      rw e at (
        subst
          (λ k. bits_loop buf k 0 p ≡ some (number 0 (fixed n v) % 2 ^ 64, p + length (fixed n v)))
          (length-fixed n v) read)

  pub u-Reads : (n v : ℕ) → n ≤ 64 → v < 2 ^ n → Reads buf size (u n buf) (fixed n v) v
  u-Reads n v small h = record { at = λ p hs fits. read_fixed n v small h p hs }

  behind_zeros : (n p : ℕ) (bits : List ℕ) → Spells buf p (zeros n bits) → Spells buf (p + n) bits
  behind_zeros zero p bits h = let e : p ≡ p + 0 = omega arith in subst (λ k. Spells buf k bits) e h
  behind_zeros (suc n) p bits h =
      let e : p + 1 + n ≡ p + suc n = omega arith in
      subst (λ k. Spells buf k bits) e (behind_zeros n (p + 1) bits h.1)

  zeros_loop-zeros :
      (n left c p : ℕ) (bits : List ℕ)
      → n < left
      → Spells buf p (zeros n (1 ∷ bits))
      → zeros_loop buf left c p ≡ some (c + n, p + n)
  unfolding zeros_loop
  zeros_loop-zeros n zero c p bits small h = absurd (omega arith)
  zeros_loop-zeros zero (suc left) c p bits small h = rw (h.0, zeros_loop) (ground arith)
  zeros_loop-zeros (suc n) (suc left) c p bits small h =
      rw (h.0, zeros_loop)
        (zeros_loop-zeros n left (c + 1) (p + 1) bits (omega arith) h.1 ∙ ground arith)

  golomb_size : (v : ℕ) → v + 1 < 2 ^ 31 → log2 v (v + 1) < 31
  golomb_size v small =
      let (l, _) = log2_bounds v (v + 1) (omega arith) (omega arith) in
      elim (dec_lt (log2 v (v + 1)) 31) [
        | yes lt ↦ lt
        | no ge ↦
            let grows : 2 ^ 31 ≤ 2 ^ log2 v (v + 1) =
              pow-le-pow_right (omega arith) {i = 31} {j = log2 v (v + 1)} (omega arith) in
            absurd (omega arith)
      ]

  golomb_value :
      (v n : ℕ)
      → n ≡ log2 v (v + 1)
      → v + 1 < 2 ^ 31
      → (2 ^ n - 1 + number 0 (fixed n (v + 1)) % 2 ^ 64) % 2 ^ 32 ≡ v
  golomb_value v n e small =
      let (l, h) = log2_bounds v (v + 1) (omega arith) (omega arith) in
      let l' : 2 ^ n ≤ v + 1 = rw e l in
      let h' : v + 1 < 2 ^ suc n = rw e h in
      let p : 2 ^ length (fixed n (v + 1)) ≡ 2 ^ n = ap (λ k. 2 ^ k) (length-fixed n (v + 1)) in
      omega (arith, number_one-fixed n (v + 1) l' h', number-shift 1 (fixed n (v + 1)), p)

  -- An Exp-Golomb code.
  read_golomb :
      (v : ℕ)
      → v + 1 < 2 ^ 31
      → (p : ℕ) → Spells buf p (golomb v)
      → p + length (golomb v) ≤ size * 8
      → ue buf size p ≡ some (v, p + length (golomb v))
  unfolding ue golomb
  read_golomb v small p hs fits =
      let n = log2 v (v + 1) in
      let bits = fixed n (v + 1) in
      let len : length (golomb v) ≡ n + suc n =
        omega (arith, length-zeros n (1 ∷ bits), length-fixed n (v + 1)) in
      let z = zeros_loop-zeros n (size * 8 - p) 0 p bits (omega arith) hs in
      let read = bits_loop-number buf bits 0 (p + n + 1) (behind_zeros n p (1 ∷ bits) hs).1 in
      let read' : bits_loop buf n 0 (p + n + 1)
          ≡ some (number 0 bits % 2 ^ 64, p + n + 1 + length bits) =
        subst
          (λ k.
            bits_loop buf k 0 (p + n + 1) ≡ some (number 0 bits % 2 ^ 64, p + n + 1 + length bits))
          (length-fixed n (v + 1)) read in
      let e0 : 0 + n ≡ n = omega arith in
      let test : ltb n 31 ≡ true = lt→ltb n 31 (golomb_size v small) in
      let value = golomb_value v n refl small in
      let last : p + n + 1 + length bits ≡ p + length (golomb v) =
        omega (arith, length-fixed n (v + 1)) in
      rw (rw e0 at z, ue) (rw read' (rw test (rw value (rw last))))

  pub ue-Reads : (v : ℕ) → v + 1 < 2 ^ 31 → Reads buf size (ue buf size) (golomb v) v
  ue-Reads v small = record { at = read_golomb v small }

  -- A signed code, of the number that stands for it.
  pub se-Reads : (v : ℕ) → v + 1 < 2 ^ 31 → Reads buf size (se buf size) (golomb v) (signed v)
  unfolding se ◌>>=◌ pure
  se-Reads v small = record { at = λ p hs fits. rw (read_golomb v small p hs fits, ◌>>=◌) }
