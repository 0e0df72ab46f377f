-- ===== src/PortManager/Sets.antt =====
-- A std::set<uint16_t> as an ascending list, and how often a port is held.
use rtc_client.Common.{
  ℕ, ◌+◌, ◌≡◌, refl, Bool, true, false, ◌||◌, List, [], ◌∷◌, ◌++◌, ltb, ◌==◌, if◌then◌else◌, arith,
}

unfoldable pub set_insert : ℕ → List ℕ → List ℕ
set_insert p [] = p ∷ []
set_insert p (q ∷ qs) =
    let later = q ∷ set_insert p qs in
    if ltb p q then p ∷ q ∷ qs else if ltb q p then later else q ∷ qs

unfoldable pub contains : ℕ → List ℕ → Bool
contains p [] = false
contains p (q ∷ qs) = p == q || contains p qs

unfoldable pub set_erase : ℕ → List ℕ → List ℕ
set_erase p [] = []
set_erase p (q ∷ qs) = let rest = q ∷ set_erase p qs in if p == q then qs else rest

-- How often `p` is in a list.
unfoldable pub count : ℕ → List ℕ → ℕ
count p [] = 0
count p (q ∷ qs) = (if p == q then 1 else 0) + count p qs

pub count-append : (p : ℕ) (xs ys : List ℕ) → count p (xs ++ ys) ≡ count p xs + count p ys
unfolding count
count-append p [] ys = omega arith
count-append p (x ∷ xs) ys = omega (arith, count-append p xs ys)

-- An element that is not there yet is added once.
pub count-set_insert :
    (p q : ℕ) (l : List ℕ)
    → count q l ≡ 0
    → count p (set_insert q l) ≡ (if p == q then 1 else 0) + count p l
unfolding count set_insert
count-set_insert p q [] h = refl
count-set_insert p q (x ∷ l) h = ground (arith, count-set_insert p q l)

pub count-set_erase :
    (p q : ℕ) (l : List ℕ)
    → contains q l ≡ true
    → count p (set_erase q l) + (if p == q then 1 else 0) ≡ count p l
unfolding count set_erase contains
count-set_erase p q [] h = ground arith
count-set_erase p q (x ∷ l) h = ground (arith, count-set_erase p q l)
