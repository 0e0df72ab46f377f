-- ===== src/Rtp/Loopback/Transport.antt =====
-- Packets of a builder through `RTPPacket::parse` and `RTPH264FrameAssembler::push_packet`.
use rtc_client.Common.{
  ℕ, ◌+◌, ◌%◌, ◌^◌, ◌<◌, ◌≡◌, refl, ◌∙◌, Bool, true, false, Option, some, none, List, [], ◌∷◌, ◌++◌,
  inl, inr, arith, length, All, if◌then◌else◌, Option-cases,
}
use rtc_client.Common.Memory.{Memory, IsU32, of_list}
use rtc_client.Rtp.Header.{headers}
use rtc_client.Rtp.Packet.{parse, fresh}
use rtc_client.Rtp.Assembler.{
  Assembler, push_packet, push_payload, get_single_frame, get_stapa_frame, get_fua_frame,
}
use rtc_client.Rtp.H264Builder.Sent.{numbered}
use rtc_client.Rtp.Loopback.Parse.{parse-headers}
use rtc_client.Rtp.Loopback.Fragments.{feed}

-- What a receiver does with a packet: parse it, and push what was parsed.
unfoldable pub take_packet : Assembler → List ℕ → Option (Bool × Assembler)
take_packet a packet =
    let (accepted, p) = parse fresh (of_list packet) (length packet) in
    if accepted then push_packet a p else some (false, a)

-- Packets one after the other, with the frames of the pushes that return true, joined.
unfoldable pub play : Assembler → List (List ℕ) → Option (Assembler × List ℕ)
play a [] = some (a, [])
play a (x ∷ xs) = elim (take_packet a x) [
  | none ↦ none
  | some (complete, a') ↦ elim (play a' xs) [
    | none ↦ none
    | some (a'', out) ↦ some (a'', (if complete then a'.frame else []) ++ out)
  ]
]

-- A payload that a packet can carry.
abbrev pub IsPayload : List ℕ → Type 0
IsPayload x = (0 < length x) × (length x < 2 ^ 32)

take_packet-headers :
    (a : Assembler) (s t c : ℕ) (x : List ℕ)
    → a.initialize ≡ true
    → IsU32 s
    → IsU32 t
    → IsU32 c
    → IsPayload x
    → take_packet a (headers 96 s t c ++ x) ≡ push_payload a (of_list x) (length x)
unfolding take_packet push_packet
take_packet-headers a s t c x i hs ht hc h =
    ground (arith, i, parse-headers 96 s t c x fresh (omega arith) hs ht hc h.1)

pub initialize-push_payload :
    (a a' : Assembler) (m : Memory) (len : ℕ) (complete : Bool)
    → push_payload a m len ≡ some (complete, a')
    → a'.initialize ≡ a.initialize
unfolding push_payload get_single_frame get_stapa_frame get_fua_frame
initialize-push_payload a a' m len complete e = ground arith

play-nil : (a : Assembler) → play a [] ≡ feed a []
unfolding play feed
play-nil a = refl

play-step :
    (a : Assembler) (x y : List ℕ) (xs ys : List (List ℕ))
    → take_packet a y ≡ push_payload a (of_list x) (length x)
    → ((complete : Bool) (b : Assembler)
        → push_payload a (of_list x) (length x) ≡ some (complete, b)
        → play b ys ≡ feed b xs)
    → play a (y ∷ ys) ≡ feed a (x ∷ xs)
unfolding play feed
play-step a x y xs ys e later = elim (Option-cases (push_payload a (of_list x) (length x))) [
  | inl f ↦ ground (arith, e, f)
  | inr ((complete, b), f) ↦ ground (arith, e, f, later complete b f)
]

pub play-numbered :
    (a : Assembler) (s t c : ℕ) (xs : List (List ℕ))
    → a.initialize ≡ true
    → IsU32 s
    → IsU32 t
    → IsU32 c
    → All IsPayload xs
    → play a (numbered t c s xs) ≡ feed a xs
unfolding numbered
play-numbered a s t c [] i hs ht hc h = play-nil a
play-numbered a s t c (x ∷ xs) i hs ht hc (hx, hxs) =
    play-step a x (headers 96 s t c ++ x) xs (numbered t c ((s + 1) % 2 ^ 32) xs)
      (take_packet-headers a s t c x i hs ht hc hx)
      λ complete b e.
        play-numbered b ((s + 1) % 2 ^ 32) t c xs
          (initialize-push_payload a b (of_list x) (length x) complete e ∙ i) (omega arith) ht hc
          hxs
