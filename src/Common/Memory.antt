-- ===== src/Common/Memory.antt =====
-- Memory as seen through a pointer: the byte at each offset, and the words that a read finds there.
use Prim.Native.Nat.{ℕ, zero, suc, ◌+◌, ◌*◌, ◌/◌, ◌%◌, ◌^◌, ◌<◌}
use mathlib.Core.Path.{◌≡◌, refl, ap, ap₂, subst, fun_ext, ◌∙◌}
use mathlib.Core.List.{List, [], ◌∷◌, ◌++◌, append-nil}
use native.Mathlib.Omega.{arith}
use rtc_client.Common.Lists.{length, get_or, get_or-append_right, get_or-append_left}

abbrev pub Memory : Type 0
Memory = ℕ → ℕ

abbrev pub IsByte : ℕ → Type 0
IsByte b = b < 256

abbrev pub IsU16 : ℕ → Type 0
IsU16 v = v < 2 ^ 16

abbrev pub IsU32 : ℕ → Type 0
IsU32 v = v < 2 ^ 32

-- A list of bytes in memory; past its end, zeros.
abbrev pub of_list : List ℕ → Memory
of_list xs i = get_or xs i 0

-- The pointer `m + k`.
abbrev pub advance : Memory → ℕ → Memory
advance m k i = m (k + i)

-- The `n` bytes at offset `i`, as `memcpy` takes them.
unfoldable pub read : Memory → ℕ → ℕ → List ℕ
read m i zero = []
read m i (suc n) = m i ∷ read m (i + 1) n

-- `ntohs` and `ntohl` of the word at an offset: network order is big-endian.
abbrev pub ntohs : Memory → ℕ → ℕ
ntohs m i = m i * 256 + m (i + 1)

abbrev pub ntohl : Memory → ℕ → ℕ
ntohl m i = m i * 2 ^ 24 + m (i + 1) * 2 ^ 16 + m (i + 2) * 2 ^ 8 + m (i + 3)

-- The bytes that a store of `htons (v)` or `htonl (v)` leaves in memory.
abbrev pub htons : ℕ → List ℕ
htons v = (v / 2 ^ 8 % 256) ∷ (v % 256) ∷ []

abbrev pub htonl : ℕ → List ℕ
htonl v = (v / 2 ^ 24 % 256) ∷ (v / 2 ^ 16 % 256) ∷ (v / 2 ^ 8 % 256) ∷ (v % 256) ∷ []

pub length-read : (m : Memory) (i n : ℕ) → length (read m i n) ≡ n
unfolding read
length-read m i zero = refl
length-read m i (suc n) = ap suc (length-read m (i + 1) n)

-- A read depends only on the bytes in its range.
pub read_eq :
    (m : Memory) (i : ℕ) (ys : List ℕ)
    → ((k : ℕ) → k < length ys → m (i + k) ≡ get_or ys k 0)
    → read m i (length ys) ≡ ys
unfolding read
read_eq m i [] h = refl
read_eq m i (y ∷ ys) h = ap₂ ◌∷◌ first (read_eq m (i + 1) ys later)
  where
    first : m i ≡ y
    first = let e : i ≡ i + 0 = omega arith in ap m e ∙ h 0 (omega arith)

    later : (k : ℕ) → k < length ys → m (i + 1 + k) ≡ get_or ys k 0
    later k lt = let e : i + 1 + k ≡ i + suc k = omega arith in ap m e ∙ h (suc k) (omega arith)

-- Reading `length ys` bytes behind the bytes `xs` gives `ys`.
pub read_behind :
    (xs ys zs : List ℕ) (i : ℕ)
    → i ≡ length xs
    → read (of_list (xs ++ (ys ++ zs))) i (length ys) ≡ ys
read_behind xs ys zs i e = read_eq _ i ys λ k lt.
    ap (λ j. get_or (xs ++ (ys ++ zs)) (j + k) 0) e
    ∙ get_or-append_right xs (ys ++ zs) k 0
    ∙ get_or-append_left ys zs k 0 lt

-- `read` through a pointer moved by `k`.
pub read-advance : (m : Memory) (k i n : ℕ) → read (advance m k) i n ≡ read m (k + i) n
unfolding read
read-advance m k i zero = refl
read-advance m k i (suc n) =
    let e : k + (i + 1) ≡ k + i + 1 = omega arith in
    ap (◌∷◌ (m (k + i))) (read-advance m k (i + 1) n ∙ ap (λ j. read m j n) e)

-- The words that the stores leave are read back, whatever the value.
pub ntohs-htons : (v : ℕ) → IsU16 v → v / 2 ^ 8 % 256 * 256 + v % 256 ≡ v
ntohs-htons v h = omega arith

pub ntohl-htonl :
    (v : ℕ)
    → IsU32 v
    → v / 2 ^ 24 % 256 * 2 ^ 24 + v / 2 ^ 16 % 256 * 2 ^ 16 + v / 2 ^ 8 % 256 * 2 ^ 8 + v % 256 ≡ v
ntohl-htonl v h = omega arith

-- A pointer moved past the bytes `xs` sees what follows them.
pub advance-append :
    (xs ys : List ℕ) (n : ℕ) → n ≡ length xs → advance (of_list (xs ++ ys)) n ≡ of_list ys
advance-append xs ys n e =
    fun_ext λ i. ap (λ k. get_or (xs ++ ys) (k + i) 0) e ∙ get_or-append_right xs ys i 0

pub read_all : (xs : List ℕ) → read (of_list xs) 0 (length xs) ≡ xs
read_all xs =
    read_eq (of_list xs) 0 xs λ k lt. let e : 0 + k ≡ k = omega arith in ap (λ j. get_or xs j 0) e

pub read_rest :
    (xs ys : List ℕ) (i : ℕ) → i ≡ length xs → read (of_list (xs ++ ys)) i (length ys) ≡ ys
read_rest xs ys i e =
    subst (λ zs. read (of_list (xs ++ zs)) i (length ys) ≡ ys) (append-nil ys)
      (read_behind xs ys [] i e)
