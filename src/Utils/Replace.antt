-- ===== src/Utils/Replace.antt =====
-- `string_replace` on a text that is put together of pieces.
use rtc_client.Common.{ℕ, ◌≡◌, refl, ap, ◌∙◌, [], ◌∷◌, ◌++◌, All}
use rtc_client.Common.Text.{Text}
use rtc_client.Utils.{replace_from}

-- A text with a piece for each byte of another.
unfoldable pub flat : (ℕ → Text) → Text → Text
flat e [] = []
flat e (c ∷ t) = e c ++ flat e t

-- Where a replacement turns each piece of `e` into one of `e'`, it turns texts of such pieces
-- into each other.
pub replace_from-flat :
    (search replacement : Text) (e e' : ℕ → Text) (P : ℕ → Type 0)
    → ((c : ℕ) (rest : Text)
        → P c
        → replace_from search replacement 0 (e c ++ rest)
          ≡ e' c ++ replace_from search replacement 0 rest)
    → (t : Text) → All P t
    → replace_from search replacement 0 (flat e t) ≡ flat e' t
unfolding replace_from flat
replace_from-flat search replacement e e' P step [] h = refl
replace_from-flat search replacement e e' P step (c ∷ t) (h, hs) =
    step c (flat e t) h ∙ ap (◌++◌ (e' c)) (replace_from-flat search replacement e e' P step t hs)
