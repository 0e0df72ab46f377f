-- ===== src/Rtp/Loopback/Fragments.antt =====
-- FU-A packets through the frame assembler.
use rtc_client.Common.{
  ℕ, zero, suc, ◌<◌, ◌≤◌, ◌≡◌, refl, ap, ◌∙◌, Bool, true, false, List, [], ◌∷◌, ◌++◌, arith, length,
  Option, some, none, get_or, bit_and, bit_or, append_assoc, append-nil, lt→leb, take, drop,
  if◌then◌else◌, length-take, length-drop, lt→ltb, lt→ne, take-append-drop, take_all, dec_lt,
}
use rtc_client.Common.Bits.{
  fu_indicator, fu_indicator_type, fu_start_bit, fu_start_nal, fu_end_start_bit, fu_end_bit,
  fu_middle_start_bit, fu_middle_end_bit,
}
use rtc_client.Common.Memory.{of_list, read_rest}
use rtc_client.Rtp.Assembler.{Assembler, with_frame, start_code, get_fua_frame, push_payload}
use rtc_client.Rtp.H264Builder.Fragments.{fragments, nalu_fragments}

-- Payloads one after the other, with the frames of the pushes that return true, joined.
unfoldable pub feed : Assembler → List (List ℕ) → Option (Assembler × List ℕ)
feed a [] = some (a, [])
feed a (x ∷ xs) = elim (push_payload a (of_list x) (length x)) [
  | none ↦ none
  | some (complete, a') ↦ elim (feed a' xs) [
    | none ↦ none
    | some (a'', out) ↦ some (a'', (if complete then a'.frame else []) ++ out)
  ]
]

module _ (a : Assembler) (x : ℕ) (body : List ℕ) where
  push_start :
      x < 256
      → 0 < length body
      → length body ≤ 1370
      → push_payload a
          (of_list (fu_indicator x ∷ bit_or 0x80 (bit_and x 0x1f) ∷ body))
          (length (fu_indicator x ∷ bit_or 0x80 (bit_and x 0x1f) ∷ body))
        ≡ some (false, with_frame a (start_code (get_or body 0 0) (get_or body 1 0) ++ (x ∷ body)))
  unfolding push_payload get_fua_frame
  push_start byte some_body fits = ground (
    arith,
    fu_indicator_type x byte,
    fu_start_bit x byte,
    fu_start_nal x byte,
    read_rest (fu_indicator x ∷ bit_or 0x80 (bit_and x 0x1f) ∷ []) body 2 refl,
  )

  push_middle :
      x < 256
      → 0 < length body
      → length body ≤ 1370
      → push_payload a
          (of_list (fu_indicator x ∷ bit_or 0x00 (bit_and x 0x1f) ∷ body))
          (length (fu_indicator x ∷ bit_or 0x00 (bit_and x 0x1f) ∷ body))
        ≡ some (false, with_frame a (a.frame ++ body))
  unfolding push_payload get_fua_frame
  push_middle byte some_body fits = ground (
    arith,
    fu_indicator_type x byte,
    fu_middle_start_bit x byte,
    fu_middle_end_bit x byte,
    read_rest (fu_indicator x ∷ bit_or 0x00 (bit_and x 0x1f) ∷ []) body 2 refl,
  )

  pub push_end :
      x < 256
      → 0 < length body
      → length body ≤ 1370
      → push_payload a
          (of_list (fu_indicator x ∷ bit_or 0x40 (bit_and x 0x1f) ∷ body))
          (length (fu_indicator x ∷ bit_or 0x40 (bit_and x 0x1f) ∷ body))
        ≡ some (true, with_frame a (a.frame ++ body))
  unfolding push_payload get_fua_frame
  push_end byte some_body fits = ground (
    arith,
    fu_indicator_type x byte,
    fu_end_start_bit x byte,
    fu_end_bit x byte,
    read_rest (fu_indicator x ∷ bit_or 0x40 (bit_and x 0x1f) ∷ []) body 2 refl,
  )

pub feed-nil : (a : Assembler) → feed a [] ≡ some (a, [])
unfolding feed
feed-nil a = refl

pub feed-cons :
    (a a' a'' : Assembler) (complete : Bool) (x : List ℕ) (xs : List (List ℕ)) (out : List ℕ)
    → push_payload a (of_list x) (length x) ≡ some (complete, a')
    → feed a' xs ≡ some (a'', out)
    → feed a (x ∷ xs) ≡ some (a'', (if complete then a'.frame else []) ++ out)
unfolding feed
feed-cons a a' a'' complete x xs out p q = ground (arith, p, q)

module _ (x : ℕ) (byte : x < 256) where
  abbrev pub rest_of : ℕ → List ℕ → List (List ℕ)
  rest_of fuel left = fragments fuel (bit_and x 0xe0) (bit_and x 0x1f) false left

  pub rest_of_last :
      (fuel : ℕ) (left : List ℕ)
      → length left ≤ 1370
      → rest_of (suc fuel) left ≡ (fu_indicator x ∷ bit_or 0x40 (bit_and x 0x1f) ∷ left) ∷ []
  unfolding fragments
  rest_of_last fuel left h = ground (arith, take_all (length left) left)

  pub rest_of_more :
      (fuel : ℕ) (left : List ℕ)
      → 1370 < length left
      → rest_of (suc fuel) left
        ≡ (fu_indicator x ∷ bit_or 0x00 (bit_and x 0x1f) ∷ take 1370 left)
          ∷ rest_of fuel (drop 1370 left)
  unfolding fragments
  rest_of_more fuel left h =
      rw (lt→ltb 1370 (length left) h, lt→ne 1370 (length left) h, lt→leb (length left) 1370 h)

  -- The fragments behind the first one complete the frame.
  feed-rest_of :
      (fuel : ℕ) (a : Assembler) (left : List ℕ)
      → length left < fuel
      → 0 < length left
      → feed a (rest_of fuel left) ≡ some (with_frame a (a.frame ++ left), a.frame ++ left)
  feed-rest_of zero a left h pos = absurd (omega arith)
  feed-rest_of (suc fuel) a left h pos = elim (dec_lt 1370 (length left)) [
    | no short ↦
        ap (feed a) (rest_of_last fuel left (omega arith))
        ∙ feed-cons a _ _ true _ [] [] (push_end a x left byte pos (omega arith)) (feed-nil _)
        ∙ ap (λ y. some (with_frame a (a.frame ++ left), y)) (append-nil (a.frame ++ left))
    | yes long ↦
        ap (feed a) (rest_of_more fuel left long)
        ∙ feed-cons a (with_frame a (a.frame ++ take 1370 left)) _ false _ _ _
            (push_middle a x (take 1370 left) byte (omega (arith, length-take 1370 left))
              (omega (arith, length-take 1370 left)))
            (feed-rest_of fuel (with_frame a (a.frame ++ take 1370 left)) (drop 1370 left)
              (omega (arith, length-drop 1370 left)) (omega (arith, length-drop 1370 left)))
        ∙ ap (λ f. some (with_frame a f, f))
            (append_assoc a.frame (take 1370 left) (drop 1370 left)
              ∙ ap (◌++◌ a.frame) (take-append-drop 1370 left))
  ]

  pub fragments_first :
      (fuel : ℕ) (left : List ℕ)
      → 1370 < length left
      → fragments (suc fuel) (bit_and x 0xe0) (bit_and x 0x1f) true left
        ≡ (fu_indicator x ∷ bit_or 0x80 (bit_and x 0x1f) ∷ take 1370 left)
          ∷ rest_of fuel (drop 1370 left)
  unfolding fragments
  fragments_first fuel left h = rw (lt→ltb 1370 (length left) h, lt→leb (length left) 1370 h)

-- What the assembler makes of a fragmented unit. The start code is chosen by the second and the
-- third byte of the unit, not by the first two.
unfoldable pub large_frame : List ℕ → List ℕ
large_frame nalu = start_code (get_or nalu 1 0) (get_or nalu 2 0) ++ nalu

feed-fragments :
    (a : Assembler) (x y z : ℕ) (l : List ℕ)
    → x < 256
    → 1368 < length l
    → feed a (nalu_fragments (x ∷ y ∷ z ∷ l))
      ≡ some (with_frame a (large_frame (x ∷ y ∷ z ∷ l)), large_frame (x ∷ y ∷ z ∷ l))
unfolding nalu_fragments large_frame
feed-fragments a x y z l byte long =
    ap (feed a) (fragments_first x byte (suc (suc (length l))) left (omega arith))
    ∙ feed-cons a first _ false _ _ _
        (push_start a x (take 1370 left) byte (omega (arith, length-take 1370 left))
          (omega (arith, length-take 1370 left)))
        (feed-rest_of x byte (suc (suc (length l))) first (drop 1370 left)
          (omega (arith, length-drop 1370 left)) (omega (arith, length-drop 1370 left)))
    ∙ ap (λ f. some (with_frame a f, f)) join
  where
    left : List ℕ
    left = y ∷ z ∷ l

    first : Assembler
    first = with_frame a (start_code y z ++ (x ∷ take 1370 left))

    join : first.frame ++ drop 1370 left ≡ start_code y z ++ (x ∷ left)
    join =
        append_assoc (start_code y z) (x ∷ take 1370 left) (drop 1370 left)
        ∙ ap (λ t. start_code y z ++ (x ∷ t)) (take-append-drop 1370 left)

-- The fragments that `build_fua_packet` makes of a unit too long for one payload are put together
-- again by the assembler: no push but the last returns true, and the frame is then a start code
-- and the whole unit, its first byte rebuilt from the two FU bytes.
pub feed-nalu_fragments :
    (a : Assembler) (nalu : List ℕ)
    → get_or nalu 0 0 < 256
    → 1372 < length nalu
    → feed a (nalu_fragments nalu) ≡ some (with_frame a (large_frame nalu), large_frame nalu)
feed-nalu_fragments a [] byte long = absurd (omega arith)
feed-nalu_fragments a (x ∷ []) byte long = absurd (omega arith)
feed-nalu_fragments a (x ∷ y ∷ []) byte long = absurd (omega arith)
feed-nalu_fragments a (x ∷ y ∷ z ∷ l) byte long = feed-fragments a x y z l byte (omega arith)
