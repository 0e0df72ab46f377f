-- ===== src/Rtp/Loopback/Stream.antt =====
-- All payloads of a list of NAL units through the frame assembler.
use rtc_client.Common.{
  ℕ, ◌+◌, ◌^◌, ◌<◌, ◌≤◌, ◌≡◌, refl, ap, ◌∙◌, sym, Bool, true, false, List, [], ◌∷◌, ◌++◌, inl, inr,
  arith, length, length-append, some, All, All-append, append_assoc, append-nil, subst, ltb, ◌==◌,
  ◌&&◌, if◌then◌else◌, Option-cases,
}
use rtc_client.Common.Memory.{of_list}
use rtc_client.Rtp.Assembler.{Assembler, with_frame, push_payload, assembler_buffer_size}
use rtc_client.Rtp.H264Builder.{payload_size}
use rtc_client.Rtp.H264Builder.Packing.{stap_units, shared_payload}
use rtc_client.Rtp.H264Builder.Fragments.{nalu_fragments}
use rtc_client.Rtp.H264Builder.Receive.{waiting, payloads}
use rtc_client.Rtp.Loopback.Units.{
  IsUnit, unit_frame, unit_frames, length-unit_frame, push_payload-single, push_payload-stap,
}
use rtc_client.Rtp.Loopback.Fragments.{feed, feed-nil, feed-cons, feed-nalu_fragments, large_frame}

-- What a unit comes out as: fragmented units choose their start code by other bytes.
unfoldable pub sent_frame : List ℕ → List ℕ
sent_frame nalu = if ltb payload_size (length nalu) then large_frame nalu else unit_frame nalu

unfoldable pub sent_frames : List (List ℕ) → List ℕ
sent_frames [] = []
sent_frames (nalu ∷ rest) = sent_frame nalu ++ sent_frames rest

feed-append :
    (a a' a'' : Assembler) (xs ys : List (List ℕ)) (out out' : List ℕ)
    → feed a xs ≡ some (a', out)
    → feed a' ys ≡ some (a'', out')
    → feed a (xs ++ ys) ≡ some (a'', out ++ out')
unfolding feed
feed-append a a' a'' [] ys out out' p q = ground arith
feed-append a a' a'' (x ∷ xs) ys out out' p q =
    elim (Option-cases (push_payload a (of_list x) (length x))) [
      | inl e ↦ ground arith
      | inr ((complete, b), e) ↦ elim (Option-cases (feed b xs)) [
        | inl f ↦ ground arith
        | inr ((b', o), f) ↦ ground (
          arith,
          feed-append b b' a'' xs ys o out' f,
          append_assoc (if complete then b.frame else []) o out',
        )
      ]
    ]

-- The payloads leave the assembler ready for more, and these bytes come out.
abbrev pub Feeds : Assembler → List (List ℕ) → List ℕ → Type 0
Feeds a xs out = (a' : Assembler) × (a'.initialize ≡ a.initialize) × (feed a xs ≡ some (a', out))

Feeds-append :
    (a : Assembler) (xs ys : List (List ℕ)) (out out' : List ℕ)
    → Feeds a xs out
    → ((b : Assembler) → Feeds b ys out')
    → Feeds a (xs ++ ys) (out ++ out')
Feeds-append a xs ys out out' (b, i, p) rest =
    let (c, j, q) = rest b in (c, j ∙ i, feed-append a b c xs ys out out' p q)

Feeds-single :
    (a : Assembler) (x out : List ℕ)
    → push_payload a (of_list x) (length x) ≡ some (true, with_frame a out)
    → Feeds a (x ∷ []) out
Feeds-single a x out e = (
  with_frame a out,
  refl,
  feed-cons a (with_frame a out) (with_frame a out) true x [] [] e (feed-nil (with_frame a out))
      ∙ ap (λ y. some (with_frame a out, y)) (append-nil out),
)

-- A list of units of which the code can pack each: at least two bytes, below 2 ^ 16, of a type
-- below 24.
abbrev pub AllUnits : List (List ℕ) → Type 0
AllUnits = All IsUnit

-- The bytes of the units and four more for each.
abbrev pub frames_size : List (List ℕ) → ℕ
frames_size [] = 0
frames_size (nalu ∷ rest) = length nalu + 4 + frames_size rest

pub length-unit_frames : (vec : List (List ℕ)) → length (unit_frames vec) ≤ frames_size vec
unfolding unit_frames
length-unit_frames [] = omega arith
length-unit_frames (nalu ∷ rest) = omega (
  arith,
  length-append (unit_frame nalu) (unit_frames rest),
  length-unit_frame nalu,
  length-unit_frames rest,
)

-- Units that wait: each fits a payload.
abbrev pub AllShort : List (List ℕ) → Type 0
AllShort = All λ nalu. IsUnit nalu × (length nalu ≤ payload_size)

pub stap_sizes :
    (vec : List (List ℕ)) → AllShort vec → All (λ n. (2 ≤ length n) × (length n < 2 ^ 16)) vec
stap_sizes [] h = tt
stap_sizes (nalu ∷ rest) ((u, short), hs) = ((u.long, omega arith), stap_sizes rest hs)

Feeds-waiting :
    (a : Assembler) (tmp : List (List ℕ))
    → AllShort tmp
    → frames_size tmp ≤ assembler_buffer_size
    → Feeds a (waiting tmp) (unit_frames tmp)
unfolding waiting shared_payload unit_frames
Feeds-waiting a [] h fits = (a, refl, feed-nil a)
Feeds-waiting a (nalu ∷ []) ((u, short), hs) fits = Feeds-single a nalu (unit_frame nalu ++ []) (
    push_payload-single a nalu u (omega arith)
    ∙ ap (λ f. some (true, with_frame a f)) (sym (append-nil (unit_frame nalu))))
Feeds-waiting a (nalu ∷ next ∷ rest) h fits =
    let vec : List (List ℕ) = nalu ∷ next ∷ rest in
    Feeds-single a (0x18 ∷ stap_units vec) (unit_frames vec)
      (push_payload-stap a vec (stap_sizes vec h) (omega (arith, length-unit_frames vec)))

unit_frames-append :
    (xs ys : List (List ℕ)) → unit_frames (xs ++ ys) ≡ unit_frames xs ++ unit_frames ys
unfolding unit_frames
unit_frames-append [] ys = refl
unit_frames-append (x ∷ xs) ys =
    ap (◌++◌ (unit_frame x)) (unit_frames-append xs ys)
    ∙ sym (append_assoc (unit_frame x) (unit_frames xs) (unit_frames ys))

pub frames_size-append :
    (xs ys : List (List ℕ)) → frames_size (xs ++ ys) ≡ frames_size xs + frames_size ys
frames_size-append [] ys = omega arith
frames_size-append (x ∷ xs) ys = omega (arith, frames_size-append xs ys)

Feeds-as :
    (a : Assembler) (xs : List (List ℕ)) {out out' : List ℕ}
    → out ≡ out'
    → Feeds a xs out
    → Feeds a xs out'
Feeds-as a xs e h = subst (Feeds a xs) e h

Feeds-choice :
    (a : Assembler) (b : Bool) (xs ys : List (List ℕ)) (out : List ℕ)
    → (b ≡ true → Feeds a xs out)
    → (b ≡ false → Feeds a ys out)
    → Feeds a (if b then xs else ys) out
Feeds-choice a true xs ys out h h' = h refl
Feeds-choice a false xs ys out h h' = h' refl

Feeds-large :
    (a : Assembler) (nalu : List ℕ)
    → IsUnit nalu
    → ltb payload_size (length nalu) ≡ true
    → Feeds a (nalu_fragments nalu) (sent_frame nalu)
unfolding sent_frame
Feeds-large a nalu u long =
    rw long
      (with_frame a (large_frame nalu), refl, feed-nalu_fragments a nalu u.byte (ground arith))

sent_frame_short :
    (nalu : List ℕ) → ltb payload_size (length nalu) ≡ false → sent_frame nalu ≡ unit_frame nalu
unfolding sent_frame
sent_frame_short nalu short = rw short

regroup :
    (tmp : List (List ℕ)) (nalu : List ℕ) (rest : List (List ℕ))
    → unit_frame nalu ≡ sent_frame nalu
    → unit_frames (tmp ++ (nalu ∷ [])) ++ sent_frames rest
      ≡ unit_frames tmp ++ (sent_frame nalu ++ sent_frames rest)
unfolding unit_frames
regroup tmp nalu rest plain =
    rw (unit_frames-append tmp (nalu ∷ []), append_assoc (unit_frames tmp), append-nil, plain)

Feeds-payloads :
    (a : Assembler) (tmp : List (List ℕ)) (total : ℕ) (nalus : List (List ℕ))
    → AllShort tmp
    → AllUnits nalus
    → frames_size tmp + frames_size nalus ≤ assembler_buffer_size
    → Feeds a (payloads tmp total nalus) (unit_frames tmp ++ sent_frames nalus)
unfolding payloads sent_frames unit_frames
Feeds-payloads a tmp total [] ht hn fits =
    Feeds-as a (waiting tmp) (sym (append-nil (unit_frames tmp)))
      (Feeds-waiting a tmp ht (omega arith))
Feeds-payloads a tmp total (nalu ∷ rest) ht (u, hn) fits =
    Feeds-choice a (ltb payload_size (length nalu)) _ _ _
      (λ long.
        Feeds-append a (waiting tmp) _ (unit_frames tmp) (sent_frame nalu ++ sent_frames rest)
          (Feeds-waiting a tmp ht (omega arith))
          λ b.
            Feeds-append b (nalu_fragments nalu) _ (sent_frame nalu) (sent_frames rest)
              (Feeds-large b nalu u long)
              λ c.
                Feeds-payloads c [] (if length tmp == 0 then total else 0) rest tt hn (omega arith))
      λ short.
        let waits : AllShort (nalu ∷ []) = ((u, ground arith), tt) in
        let plain : unit_frame nalu ≡ sent_frame nalu = sym (sent_frame_short nalu short) in
        Feeds-choice a (ltb total payload_size && ltb payload_size (total + length nalu)) _ _ _
          (λ over.
            Feeds-append a (waiting tmp) _ (unit_frames tmp) (sent_frame nalu ++ sent_frames rest)
              (Feeds-waiting a tmp ht (omega arith))
              λ b.
                Feeds-as b (payloads (nalu ∷ []) (length nalu) rest)
                  (ap (λ f. f ++ sent_frames rest) (append-nil (unit_frame nalu) ∙ plain))
                  (Feeds-payloads b (nalu ∷ []) (length nalu) rest waits hn (omega arith)))
          λ together.
            Feeds-as a (payloads (tmp ++ (nalu ∷ [])) (total + length nalu) rest)
              (regroup tmp nalu rest plain)
              (Feeds-payloads a (tmp ++ (nalu ∷ [])) (total + length nalu) rest
                (All-append (λ n. IsUnit n × (length n ≤ payload_size)) tmp (nalu ∷ []) ht waits) hn
                (omega (arith, frames_size-append tmp (nalu ∷ []))))

-- The payloads that `receive_rtp_packets` makes of units whose frames fit the assembler's buffer
-- come out of the assembler as all the units in order, each behind a start code, whatever was in
-- the assembler before.
pub Feeds-all :
    (a : Assembler) (nalus : List (List ℕ))
    → AllUnits nalus
    → frames_size nalus ≤ assembler_buffer_size
    → Feeds a (payloads [] 0 nalus) (sent_frames nalus)
unfolding unit_frames
Feeds-all a nalus h fits = Feeds-payloads a [] 0 nalus tt h (omega arith)
