-- ===== src/Room/User/Media.antt =====
-- The packets of a video session at a user: which calls the callback gets.
use rtc_client.Common.{
  ℕ, ◌+◌, ◌%◌, ◌^◌, ◌<◌, ◌≡◌, refl, ap, ap₂, ◌∙◌, sym, Bool, true, false, Option, some, none, List,
  [], ◌∷◌, ◌++◌, inl, inr, arith, length, length-append, All, append-nil, append_assoc,
  if◌then◌else◌, Option-cases,
}
use rtc_client.Common.Memory.{IsU32, of_list}
use rtc_client.Rtp.Header.{headers}
use rtc_client.Rtp.Packet.{parse, fresh}
use rtc_client.Rtp.Assembler.{Assembler, push_payload, push_packet, with_frame}
use rtc_client.Rtp.H264Builder.Sent.{numbered}
use rtc_client.Rtp.Loopback.Fragments.{feed}
use rtc_client.Rtp.Loopback.Last.{LastCompletes}
use rtc_client.Rtp.Loopback.Transport.{IsPayload, initialize-push_payload}
use rtc_client.Rtp.VideoSession.{finish_packet}
use rtc_client.Rtp.VideoSession.Wire.{finish_packet-headers, received_video, parse-video}
use rtc_client.Rtp.VideoSession.Delivery.{finish_all}
use rtc_client.Room.User.{RoomUser, Call, handle_video, recv_buffer_size, with_frame_data}

-- What is done with a packet that arrives, with no reordering in front.
unfoldable pub take_in : RoomUser → List ℕ → Option (Option Call × RoomUser)
take_in u packet =
    let (accepted, p) = parse fresh (of_list packet) (length packet) in
    if accepted then handle_video p u else some (none, u)

abbrev pub calls_of : Option Call → List Call
calls_of none = []
calls_of (some c) = c ∷ []

-- Packets one after the other, with the calls of the callback.
unfoldable pub watch : RoomUser → List (List ℕ) → Option (List Call × RoomUser)
watch u [] = some ([], u)
watch u (packet ∷ rest) = elim (take_in u packet) [
  | none ↦ none
  | some (call, u') ↦ elim (watch u' rest) [
    | none ↦ none
    | some (later, u'') ↦ some (calls_of call ++ later, u'')
  ]
]

-- A user that is set up to receive video.
abbrev pub with_media : RoomUser → Assembler → List ℕ → RoomUser
with_media u a used = record u { assembler = some a; rtp_buffer = some used }

module _ (u : RoomUser) (heard : u.has_h264_callback ≡ true) (now_ms c num : ℕ)
    (clock : IsU32 now_ms) (source : IsU32 c) (byte : num < 256) where
  abbrev pub call_with : List ℕ → Call
  call_with bytes = record { bytes = bytes; ssrc = c; timestamp = now_ms }

  module _ (a b : Assembler) (used : List ℕ) (s t : ℕ) (x : List ℕ) (i : a.initialize ≡ true)
      (p : IsPayload x) where
    take_in-parsed :
        (last : Bool)
        → take_in (with_media u a used) (finish_packet last now_ms num (headers 96 s t c ++ x))
          ≡ handle_video (received_video last s now_ms c num x) (with_media u a used)
    unfolding take_in
    take_in-parsed last =
        rw
          (
            finish_packet-headers last now_ms num s t c x,
            parse-video s now_ms c num x last fresh clock source byte p.1,
          )
          refl

    handle_more :
        (last : Bool)
        → push_payload a (of_list x) (length x) ≡ some (false, b)
        → handle_video (received_video last s now_ms c num x) (with_media u a used)
          ≡ some (none, with_media u b used)
    unfolding handle_video push_packet
    handle_more last e = ground (arith, e, i, p.0)

    handle_complete :
        (last : Bool)
        → push_payload a (of_list x) (length x) ≡ some (true, b)
        → length used + length b.frame < recv_buffer_size
        → handle_video (received_video last s now_ms c num x) (with_media u a used) ≡ (
            if last
            then some (some (call_with (used ++ b.frame)), with_media u b [])
            else some (none, with_media u b (used ++ b.frame)))
    unfolding handle_video push_packet with_frame_data
    handle_complete last e room = ground (arith, e, i, p.0, heard)

    -- A packet that is not the last one.
    handle_first :
        (complete : Bool)
        → push_payload a (of_list x) (length x) ≡ some (complete, b)
        → length used + length (if complete then b.frame else []) < recv_buffer_size
        → handle_video (received_video false s now_ms c num x) (with_media u a used)
          ≡ some (none, with_media u b (used ++ (if complete then b.frame else [])))
    handle_first true e room = handle_complete false e room
    handle_first false e room =
        handle_more false e
        ∙ ap (λ bytes. some (none, with_media u b bytes)) (sym (append-nil used))

  feed-inv :
      (a a' : Assembler) (x : List ℕ) (xs : List (List ℕ)) (out : List ℕ)
      → feed a (x ∷ xs) ≡ some (a', out)
      → (complete : Bool) × (b : Assembler) × (out' : List ℕ) × (push_payload a
            (of_list x)
            (length x)
          ≡ some (complete, b))
        × (feed b xs ≡ some (a', out'))
        × (out ≡ (if complete then b.frame else []) ++ out')
  unfolding feed
  feed-inv a a' x xs out e = elim (Option-cases (push_payload a (of_list x) (length x))) [
    | inl f ↦ absurd (ground arith)
    | inr ((complete, b), f) ↦ elim (Option-cases (feed b xs)) [
      | inl g ↦ absurd (ground arith)
      | inr ((a'', out'), g) ↦ (complete, b, out', f, ground arith, ground arith)
    ]
  ]

  feed-one :
      (a a' b : Assembler) (x out : List ℕ)
      → feed a (x ∷ []) ≡ some (a', out)
      → push_payload a (of_list x) (length x) ≡ some (true, b)
      → (b ≡ a') × (b.frame ≡ out)
  unfolding feed
  feed-one a a' b x out e f = (ground (arith, e, f), ground (arith, e, f, append-nil b.frame))

  watch_one :
      (v w : RoomUser) (packet : List ℕ) (call : Option Call)
      → take_in v packet ≡ some (call, w)
      → watch v (packet ∷ []) ≡ some (calls_of call ++ [], w)
  unfolding watch
  watch_one v w packet call e = ground (arith, e)

  watch_next :
      (v w z : RoomUser) (packet : List ℕ) (rest : List (List ℕ)) (calls : List Call)
      → take_in v packet ≡ some (none, w)
      → watch w rest ≡ some (calls, z)
      → watch v (packet ∷ rest) ≡ some (calls, z)
  unfolding watch
  watch_next v w z packet rest calls e f = ground (arith, e, f)

  pub watch-finish_all :
      (a a' : Assembler) (used : List ℕ) (s t : ℕ) (x : List ℕ) (xs : List (List ℕ)) (out : List ℕ)
      → a.initialize ≡ true
      → All IsPayload (x ∷ xs)
      → LastCompletes (x ∷ xs)
      → feed a (x ∷ xs) ≡ some (a', out)
      → length used + length out < recv_buffer_size
      → watch (with_media u a used) (finish_all now_ms num (numbered t c s (x ∷ xs)))
        ≡ some (call_with (used ++ out) ∷ [], with_media u a' [])
  unfolding finish_all numbered
  watch-finish_all a a' used s t x [] out i (p, ps) last e room =
      let (f, g) = last a in
      let (ea, eo) = feed-one a a' (with_frame a f) x out e g in
      watch_one (with_media u a used) (with_media u a' []) _ (some (call_with (used ++ out))) (
        take_in-parsed a (with_frame a f) used s t x i p true
        ∙ handle_complete a (with_frame a f) used s t x i p true g (omega (arith, ap length eo))
        ∙ ap₂ (λ b bytes. some (some (call_with (used ++ bytes)), with_media u b [])) ea eo)
  watch-finish_all a a' used s t x (y ∷ ys) out i (p, ps) last e room =
      let (complete, b, out', f, g, eo) = feed-inv a a' x (y ∷ ys) out e in
      let held : List ℕ = if complete then b.frame else [] in
      let behind : length used + length held + length out' < recv_buffer_size =
        omega (arith, ap length eo, length-append held out') in
      watch_next (with_media u a used) (with_media u b (used ++ held)) (with_media u a' []) _ _ _
        (take_in-parsed a b used s t x i p false
          ∙ handle_first a b used s t x i p complete f (omega (arith, behind)))
        (watch-finish_all b a' (used ++ held) ((s + 1) % 2 ^ 32) t y ys out'
            (initialize-push_payload a b (of_list x) (length x) complete f ∙ i) ps last g
            (omega (arith, behind, length-append used held))
          ∙ ap (λ bytes. some (call_with bytes ∷ [], with_media u a' []))
              (append_assoc used held out' ∙ ap (◌++◌ used) (sym eo)))
