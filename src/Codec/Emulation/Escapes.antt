-- ===== src/Codec/Emulation/Escapes.antt =====
-- The bytes that an encoder puts in, and that `de_emulation_prevention` takes out.
use rtc_client.Common.{ℕ, ◌+◌, ◌≡◌, ◌≢◌, ◌&&◌, List, [], ◌∷◌, leb, ◌==◌, if◌then◌else◌, ◌⊎◌}
use rtc_client.Codec.Emulation.Stripping.{next}

-- Section 7.4.1 of H.264: a 3 in front of each byte up to 3 that stands behind two zeros.
pub escape : ℕ → List ℕ → List ℕ
escape z [] = []
escape z (x ∷ s) =
    let put = 3 ∷ x ∷ escape (next 0 x) s in
    let kept = x ∷ escape (next z x) s in if z == 2 && leb x 3 then put else kept

-- No 3 stands behind three zeros.
abbrev pub IsClear : ℕ → List ℕ → Type 0
IsClear n [] = Unit {0}
IsClear n (x ∷ s) =
    (n ≡ 3 → x ≢ 3) × IsClear (if x == 0 then (if n == 3 then 3 else n + 1) else 0) s

-- The zeros that the stripper counts, against those that the encoder counts behind `n` zeros.
abbrev Agree : ℕ → ℕ → ℕ → Type 0
Agree n zs ze = (zs ≡ ze) ⊎ ((zs ≡ 2) × (n ≡ 3))

abbrev run_of : ℕ → ℕ → ℕ
run_of n x = if x == 0 then (if n == 3 then 3 else n + 1) else 0
