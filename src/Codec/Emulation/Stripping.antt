-- ===== src/Codec/Emulation/Stripping.antt =====
-- What `de_emulation_prevention` takes out, as one pass over the bytes.
use rtc_client.Common.{
  ℕ, zero, suc, ◌+◌, ◌-◌, ◌≤◌, ◌<◌, ◌≡◌, ◌≢◌, refl, ap, sym, ◌∙◌, subst, Bool, Bool-cases, inl, inr,
  true, false, ◌&&◌, some, List, [], ◌∷◌, ◌++◌, ltb, ◌==◌, length, if◌then◌else◌, bit_xor, arith,
  All, append-nil,
}
use rtc_client.Common.Bits.{xor_0x03}
use rtc_client.Common.Memory.{IsByte}
use rtc_client.Codec.Emulation.{shift_left, kick_loop, de_emulation_prevention}

-- The zeros that stand in front, up to two.
abbrev pub next : ℕ → ℕ → ℕ
next z x = if x == 0 then (if z == 0 then 1 else 2) else 0

-- Each 3 behind two zeros is left out, and one of the zeros counts for what follows.
unfoldable pub stripped : ℕ → List ℕ → List ℕ
stripped z [] = []
stripped z (x ∷ s) =
    let kept = x ∷ stripped (next z x) s in
    let dropped = stripped 1 s in if z == 2 && x == 3 then dropped else kept

kicks : ℕ → List ℕ → ℕ
kicks z [] = 0
kicks z (x ∷ s) =
    let kept = kicks (next z x) s in
    let dropped = suc (kicks 1 s) in if z == 2 && x == 3 then dropped else kept

length-stripped : (z : ℕ) (s : List ℕ) → length (stripped z s) + kicks z s ≡ length s
unfolding stripped kicks
length-stripped z [] = refl
length-stripped z (x ∷ s) = ground (arith, length-stripped (next z x) s, length-stripped 1 s)

-- The last byte of a text that is not empty.
abbrev EndsIn : ℕ → List ℕ → Type 0
EndsIn v [] = Unit {0}
EndsIn v (x ∷ []) = x ≡ v
EndsIn v (x ∷ y ∷ s) = EndsIn v (y ∷ s)

EndsIn-rest : (v x : ℕ) (s : List ℕ) → EndsIn v (x ∷ s) → EndsIn v s
EndsIn-rest v x [] h = tt
EndsIn-rest v x (y ∷ s) h = h

-- The copies of the last byte that the shifts leave behind the text.
abbrev copies : ℕ → ℕ → List ℕ
copies v zero = []
copies v (suc k) = v ∷ copies v k

shift-copies : (v k : ℕ) → shift_left (v ∷ copies v k) ≡ copies v (suc k)
unfolding shift_left
shift-copies v zero = refl
shift-copies v (suc k) = ap (◌∷◌ v) (shift-copies v k)

shift-text :
    (v k c : ℕ) (s : List ℕ)
    → EndsIn v (c ∷ s)
    → shift_left (c ∷ (s ++ copies v k)) ≡ s ++ copies v (suc k)
unfolding shift_left
shift-text v k c [] h = rw h (shift-copies v k)
shift-text v k c (x ∷ s) h = ap (◌∷◌ x) (shift-text v k x s h)

abbrev hit : ℕ → ℕ → ℕ → Bool
hit a b c = a == 0 && (b == 0 && c == 3)

-- A round that takes a byte out, and one that does not.
kick_yes :
    (n : ℕ) (xs ys : List ℕ) (m : ℕ)
    → kick_loop n (0 ∷ shift_left (3 ∷ xs)) ≡ (ys, m)
    → kick_loop (suc n) (0 ∷ 0 ∷ 3 ∷ xs) ≡ (0 ∷ ys, suc m)
unfolding kick_loop
kick_yes n xs ys m e = rw e (ground arith)

kick_no :
    (n a b c : ℕ) (xs ys : List ℕ) (m : ℕ)
    → c < 256
    → hit a b c ≡ false
    → kick_loop n (b ∷ c ∷ xs) ≡ (ys, m)
    → kick_loop (suc n) (a ∷ b ∷ c ∷ xs) ≡ (a ∷ ys, m)
unfolding kick_loop
kick_no n a b c xs ys m byte no_hit e =
    let test : ((a + b + bit_xor c 0x03) == 0) ≡ false = ground (arith, xor_0x03 c byte) in
    rw test (rw e (ground arith))

-- The zeros among two bytes.
abbrev zeros_of : ℕ → ℕ → ℕ
zeros_of a b = next (next 0 a) b

-- Behind the end the copies bring no further escape.
abbrev IsQuiet : ℕ → ℕ → ℕ → List ℕ → Type 0
IsQuiet a b v [] = a ≡ 0 → b ≡ 0 → v ≢ 3
IsQuiet a b v (x ∷ s) = Unit {0}

abbrev Result : ℕ → List ℕ → ℕ → ℕ → List ℕ → Type 0
Result n xs a b s =
    (tail : List ℕ) × (kick_loop n xs
      ≡ (a ∷ b ∷ (stripped (zeros_of a b) s ++ tail), kicks (zeros_of a b) s))

last-IsQuiet : (a b c v : ℕ) (s : List ℕ) → EndsIn v (c ∷ s) → IsQuiet b c v s
last-IsQuiet a b c v [] h = λ e0 e1 e3. omega arith
last-IsQuiet a b c v (x ∷ s) h = tt

hit_bytes : (a b c : ℕ) → hit a b c ≡ true → (a ≡ 0) × (b ≡ 0) × (c ≡ 3)
hit_bytes a b c h = (ground arith, ground arith, ground arith)

quiet_no_hit : (a b c : ℕ) → (a ≡ 0 → b ≡ 0 → c ≢ 3) → hit a b c ≡ false
quiet_no_hit a b c quiet = elim (Bool-cases (hit a b c)) [
  | inl h ↦ let (ea, eb, ec) = hit_bytes a b c h in absurd (quiet ea eb ec)
  | inr h ↦ h
]

next-zeros_of : (a b c : ℕ) → next (zeros_of a b) c ≡ zeros_of b c
next-zeros_of a b c = ground arith

-- A byte that stays.
stripped-kept :
    (a b c : ℕ) (s : List ℕ)
    → hit a b c ≡ false
    → (stripped (zeros_of a b) (c ∷ s) ≡ c ∷ stripped (zeros_of b c) s)
      × (kicks (zeros_of a b) (c ∷ s) ≡ kicks (zeros_of b c) s)
unfolding stripped kicks
stripped-kept a b c s h =
    let test : (zeros_of a b == 2 && c == 3) ≡ false = ground arith in
    (rw test (rw (next-zeros_of a b c)), rw test (rw (next-zeros_of a b c)))

-- The induction's claim at `n` rounds.
abbrev Claim : ℕ → ℕ → Type 0
Claim v n =
    (a b : ℕ) (s : List ℕ) (k : ℕ)
    → n ≡ length s + k
    → All IsByte s
    → EndsIn v s
    → IsQuiet a b v s
    → Result n (a ∷ b ∷ (s ++ copies v k)) a b s

after_hit :
    (v n k : ℕ) (s : List ℕ)
    → Claim v n
    → n ≡ length s + k
    → All IsByte s
    → EndsIn v (3 ∷ s)
    → Result (suc n) (0 ∷ 0 ∷ 3 ∷ (s ++ copies v k)) 0 0 (3 ∷ s)
unfolding stripped kicks
after_hit v n k [] ih e bytes ends =
    let (tail, eq) = ih 0 v [] k e tt tt (λ e0 e1 e3. omega arith) in
    let shifted : shift_left (3 ∷ copies v k) ≡ v ∷ copies v k = shift-text v k 3 [] ends in
    (v ∷ tail, kick_yes n (copies v k) _ _ (ap (λ l. kick_loop n (0 ∷ l)) shifted ∙ eq))
after_hit v n k (x ∷ s) ih e bytes ends =
    let (tail, eq) =
      ih 0 x s (suc k) (omega arith) bytes.1 (EndsIn-rest v x s ends)
        (last-IsQuiet 0 0 x v s ends) in
    let shifted = shift-text v k 3 (x ∷ s) ends in
    (tail, kick_yes n (x ∷ (s ++ copies v k)) _ _ (ap (λ l. kick_loop n (0 ∷ l)) shifted ∙ eq))

at_bytes :
    (n a b c : ℕ) (s xs : List ℕ)
    → hit a b c ≡ true
    → Result (suc n) (0 ∷ 0 ∷ 3 ∷ xs) 0 0 (3 ∷ s)
    → Result (suc n) (a ∷ b ∷ c ∷ xs) a b (c ∷ s)
at_bytes n a b c s xs h r =
    let (ea, eb, ec) = hit_bytes a b c h in
    subst (λ x. Result (suc n) (x ∷ b ∷ c ∷ xs) x b (c ∷ s)) (sym ea)
      (subst (λ y. Result (suc n) (0 ∷ y ∷ c ∷ xs) 0 y (c ∷ s)) (sym eb)
        (subst (λ z. Result (suc n) (0 ∷ 0 ∷ z ∷ xs) 0 0 (z ∷ s)) (sym ec) r))

kick-stripped : (v n : ℕ) → v < 256 → Claim v n
unfolding kick_loop stripped kicks
kick-stripped v zero small a b [] zero e bytes ends quiet = ([], refl)
kick-stripped v zero small a b [] (suc k) e bytes ends quiet = absurd (omega arith)
kick-stripped v zero small a b (c ∷ s) k e bytes ends quiet = absurd (omega arith)
kick-stripped v (suc n) small a b [] zero e bytes ends quiet = absurd (omega arith)
kick-stripped v (suc n) small a b [] (suc k) e bytes ends quiet =
    let (tail, eq) =
      kick-stripped v n small b v [] k (omega arith) tt tt (λ e0 e1 e3. omega arith) in
    (v ∷ tail, kick_no n a b v (copies v k) _ _ small (quiet_no_hit a b v quiet) eq)
kick-stripped v (suc n) small a b (c ∷ s) k e bytes ends quiet = elim (Bool-cases (hit a b c)) [
  | inl h ↦
      let ec = (hit_bytes a b c h).2 in
      at_bytes n a b c s (s ++ copies v k) h (
        after_hit v n k s (kick-stripped v n small) (omega arith) bytes.1
          (subst (λ x. EndsIn v (x ∷ s)) ec ends))
  | inr h ↦
      let (tail, eq) =
        kick-stripped v n small b c s k (omega arith) bytes.1 (EndsIn-rest v c s ends)
          (last-IsQuiet a b c v s ends) in
      let kept = stripped-kept a b c s h in
      (tail, kick_no n a b c (s ++ copies v k) _ _ bytes.0 h eq ∙ rw (kept.0) (rw (kept.1)))
]

last_byte :
    (s : List ℕ) → All IsByte s → (v : ℕ) × (v < 256) × EndsIn v s × ((a b : ℕ) → IsQuiet a b v s)
last_byte [] h = (0, omega arith, tt, λ a b e0 e1 e3. omega arith)
last_byte (x ∷ []) h = (x, h.0, refl, λ a b. tt)
last_byte (x ∷ y ∷ s) h =
    let (v, small, ends, quiet) = last_byte (y ∷ s) h.1 in (v, small, ends, λ a b. tt)

first_two : (a b : ℕ) (s : List ℕ) → stripped 0 (a ∷ b ∷ s) ≡ a ∷ b ∷ stripped (zeros_of a b) s
unfolding stripped
first_two a b s = ground arith

first_two_kicks : (a b : ℕ) (s : List ℕ) → kicks 0 (a ∷ b ∷ s) ≡ kicks (zeros_of a b) s
unfolding kicks
first_two_kicks a b s = ground arith

-- On two bytes or more, the new size is that of the stripped text, which begins the buffer.
pub prevention-stripped :
    (buf : List ℕ)
    → 2 ≤ length buf
    → All IsByte buf
    → (tail : List ℕ) × (de_emulation_prevention buf
        ≡ some (stripped 0 buf ++ tail, length (stripped 0 buf)))
unfolding de_emulation_prevention
prevention-stripped [] long h = absurd (omega arith)
prevention-stripped (a ∷ []) long h = absurd (omega arith)
prevention-stripped (a ∷ b ∷ s) long h =
    let (v, small, ends, quiet) = last_byte s h.1.1 in
    let (tail, eq) =
      kick-stripped v (length s) small a b s 0 (omega arith) h.1.1 ends (quiet a b) in
    let len : suc (suc (length s)) - 2 ≡ length s = omega arith in
    let size : suc (suc (length s)) - kicks (zeros_of a b) s ≡ length (stripped 0 (a ∷ b ∷ s)) =
      omega (arith, length-stripped 0 (a ∷ b ∷ s), first_two_kicks a b s) in
    let test : ltb (suc (suc (length s))) 2 ≡ false = ground arith in
    let run : kick_loop (length s) (a ∷ b ∷ s)
        ≡ (a ∷ b ∷ (stripped (zeros_of a b) s ++ tail), kicks (zeros_of a b) s) =
      subst
        (λ xs.
          kick_loop (length s) (a ∷ b ∷ xs)
          ≡ (a ∷ b ∷ (stripped (zeros_of a b) s ++ tail), kicks (zeros_of a b) s))
        (append-nil s) eq in
    (tail, rw len (rw test (rw run (rw size (rw (first_two a b s))))))
