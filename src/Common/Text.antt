-- ===== src/Common/Text.antt =====
-- Texts as lists of bytes, in the order of `std::string`, and `std::map` from texts.
use rtc_client.Common.Tests.{ltb, ◌==◌, if◌then◌else◌}
use Prim.Native.Nat.{ℕ}
use mathlib.Core.Path.{◌≡◌, refl}
use mathlib.Core.Logic.{◌↔◌}
use mathlib.Core.Bool.{Bool, true, false, ◌&&◌}
use mathlib.Core.Option.{Option, none, some}
use mathlib.Core.List.{List, [], ◌∷◌}
use native.Mathlib.Omega.{arith}
use Prim.Native.Char.{code}
use Prim.Native.String.{String}

abbrev pub Text : Type 0
Text = List ℕ

abbrev pub is_empty {ℓ} : {A : Type ℓ} → List A → Bool
is_empty [] = true
is_empty (x ∷ xs) = false

-- The bytes of an ASCII text.
unfoldable pub ascii : String → Text
ascii String.[] = []
ascii (String.◌∷◌ c s) = code c ∷ ascii s

unfoldable pub same_text : Text → Text → Bool
same_text [] [] = true
same_text [] (b ∷ ys) = false
same_text (a ∷ xs) [] = false
same_text (a ∷ xs) (b ∷ ys) = a == b && same_text xs ys

unfoldable pub text_lt : Text → Text → Bool
text_lt xs [] = false
text_lt [] (b ∷ ys) = true
text_lt (a ∷ xs) (b ∷ ys) = let rest = text_lt xs ys in if a == b then rest else ltb a b

pub same_self : (a : Text) → same_text a a ≡ true
unfolding same_text
same_self [] = refl
same_self (a ∷ xs) = ground (arith, same_self xs)

pub same_eq : (a b : Text) → same_text a b ≡ true → a ≡ b
unfolding same_text
same_eq [] [] h = refl
same_eq [] (b ∷ ys) h = ground arith
same_eq (a ∷ xs) [] h = ground arith
same_eq (a ∷ xs) (b ∷ ys) h = ground (arith, same_eq xs ys)

pub same_iff : (a b : Text) → (same_text a b ≡ true) ↔ (a ≡ b)
same_iff a b = (same_eq a b, λ e. suyst_same e)
  where
    suyst_same : a ≡ b → same_text a b ≡ true
    suyst_same e = rw e (same_self b)

-- `std::map<std::string, V>`: its entries in the order of their keys.
abbrev pub Dict {ℓ} : Type ℓ → Type ℓ
Dict V = List (Text × V)

module _ {ℓ} {V : Type ℓ} where
  -- `find`
  unfoldable pub lookup : Text → Dict V → Option V
  lookup k [] = none
  lookup k ((j, v) ∷ d) = let rest = lookup k d in if same_text k j then some v else rest

  -- `m[k] = v`
  unfoldable pub assign : Text → V → Dict V → Dict V
  assign k v [] = (k, v) ∷ []
  assign k v ((j, w) ∷ d) =
      let rest = (j, w) ∷ assign k v d in
      if same_text k j then (k, v) ∷ d else if text_lt k j then (k, v) ∷ (j, w) ∷ d else rest

  -- `erase`
  unfoldable pub remove : Text → Dict V → Dict V
  remove k [] = []
  remove k ((j, w) ∷ d) = let rest = remove k d in if same_text k j then rest else (j, w) ∷ rest

  pub lookup-assign :
      (k j : Text) (v : V) (d : Dict V)
      → lookup j (assign k v d) ≡ (if same_text k j then some v else lookup j d)
  unfolding lookup assign
  lookup-assign k j v [] = ground (arith, same_iff k j, same_iff j k)
  lookup-assign k j v ((i, w) ∷ d) =
      ground (arith, lookup-assign k j v d, same_iff k j, same_iff j k, same_iff k i, same_iff j i)

  pub lookup-remove :
      (k j : Text) (d : Dict V)
      → lookup j (remove k d) ≡ (if same_text k j then none else lookup j d)
  unfolding lookup remove
  lookup-remove k j [] = ground arith
  lookup-remove k j ((i, w) ∷ d) =
      ground (arith, lookup-remove k j d, same_iff k j, same_iff k i, same_iff j i)
