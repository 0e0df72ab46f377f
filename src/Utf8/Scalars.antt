-- ===== src/Utf8/Scalars.antt =====
-- The characters that UTF-8 encodes, and their bytes.
use rtc_client.Common.{
  ℕ, ◌+◌, ◌/◌, ◌%◌, ◌^◌, ◌<◌, ◌≢◌, ◌⊎◌, List, [], ◌∷◌, ◌++◌, ltb, if◌then◌else◌,
}

-- The scalar values of Unicode but the noncharacter U+FFFE, and but 0, which ends a text.
abbrev pub IsScalar : ℕ → Type 0
IsScalar c = (0 < c) × (c < 0x110000) × (c ≢ 0xfffe) × ((c < 0xd800) ⊎ (0xdfff < c))

-- The bytes of a character.
abbrev pub encode : ℕ → List ℕ
encode c =
    if ltb c 0x80
    then c ∷ []
    else if ltb c 0x800
    then (0xc0 + c / 64) ∷ (0x80 + c % 64) ∷ []
    else if ltb c 0x10000
    then (0xe0 + c / 4096) ∷ (0x80 + c / 64 % 64) ∷ (0x80 + c % 64) ∷ []
    else (0xf0 + c / 2 ^ 18) ∷ (0x80 + c / 4096 % 64) ∷ (0x80 + c / 64 % 64) ∷ (0x80 + c % 64) ∷ []

abbrev pub encode_all : List ℕ → List ℕ
encode_all [] = []
encode_all (c ∷ cs) = encode c ++ encode_all cs
