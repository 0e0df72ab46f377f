-- ===== src/Room/Meeting/Senders.antt =====
-- The sessions of a room: no handler reads through a null pointer.
use rtc_client.Common.{
  ℕ, ◌≡◌, refl, ◌∙◌, Bool, true, false, not, ◌&&◌, Option, none, some, arith, if◌then◌else◌,
  Option-cases, inl, inr, Bool-cases,
}
use rtc_client.Rtp.Transmitter.{Address}
use rtc_client.Rtp.Transmitter
use rtc_client.Rtp.AudioSession.{AudioSession}
use rtc_client.Rtp.AudioSession
use rtc_client.Rtp.VideoSession.{VideoSession, Setup}
use rtc_client.Rtp.VideoSession
use rtc_client.Room.Meeting.{Room, Stream, init_senders, add_destinations, add_sender_destination}

abbrev pub is_some {ℓ} : {A : Type ℓ} → Option A → Bool
is_some none = false
is_some (some a) = true

-- What `init` has set up is there.
abbrev pub audio_ready : Option AudioSession → Bool
audio_ready none = true
audio_ready (some a) = if a.initialize then is_some a.builder && is_some a.transmitter else true

abbrev pub video_ready : Option VideoSession → Bool
video_ready none = true
video_ready (some v) = if v.initialize then is_some v.builder && is_some v.transmitter else true

pub record IsReady (r : Room) : Type 0 where
  pub audio : audio_ready r.rtp_audio_sender ≡ true
  pub video : video_ready r.rtp_video_sender ≡ true

audio_ready-init :
    (e : Setup) (s t c : ℕ) (a : AudioSession)
    → audio_ready (some a) ≡ true
    → audio_ready (some (AudioSession.init e s t c a).1) ≡ true
unfolding AudioSession.init
audio_ready-init e s t c a h = ground (arith, h)

video_ready-init :
    (e : Setup) (s t c : ℕ) (v : VideoSession)
    → video_ready (some v) ≡ true
    → video_ready (some (VideoSession.init e s t c v).1) ≡ true
unfolding VideoSession.init
video_ready-init e s t c v h = ground (arith, h)

audio_add :
    (d : Address) (a : AudioSession)
    → audio_ready (some a) ≡ true
    → (added : Bool) × (a' : AudioSession) × (AudioSession.add_destination d a ≡ some (added, a'))
      × (audio_ready (some a') ≡ true)
unfolding AudioSession.add_destination
audio_add d a h = elim (Bool-cases a.initialize) [
  | inl i ↦ elim (Option-cases a.transmitter) [
    | inl f ↦ absurd (ground (arith, h, i, f))
    | inr (t, f) ↦ (
      true,
      record a { transmitter = some (Transmitter.add_destination d t) },
      ground (arith, i, f),
      ground (arith, h, i, f),
    )
  ]
  | inr i ↦ (false, a, ground (arith, i), h)
]

video_add :
    (d : Address) (v : VideoSession)
    → video_ready (some v) ≡ true
    → (added : Bool) × (v' : VideoSession) × (VideoSession.add_destination d v ≡ some (added, v'))
      × (video_ready (some v') ≡ true)
unfolding VideoSession.add_destination
video_add d v h = elim (Bool-cases v.initialize) [
  | inl i ↦ elim (Option-cases v.transmitter) [
    | inl f ↦ absurd (ground (arith, h, i, f))
    | inr (t, f) ↦ (
      true,
      record v { transmitter = some (Transmitter.add_destination d t) },
      ground (arith, i, f),
      ground (arith, h, i, f),
    )
  ]
  | inr i ↦ (false, v, ground (arith, i), h)
]

-- What the room's operations on the sessions keep.
pub record Kept (r r' : Room) : Type 0 where
  pub has_audio : is_some r'.rtp_audio_sender ≡ is_some r.rtp_audio_sender
  pub has_video : is_some r'.rtp_video_sender ≡ is_some r.rtp_video_sender
  pub ready : IsReady r'
  pub users : r'.other_users_map ≡ r.other_users_map

pub Kept-refl : (r : Room) → IsReady r → Kept r r
Kept-refl r h = record { has_audio = refl; has_video = refl; ready = h; users = refl }

pub Kept-trans : (r r' r'' : Room) → Kept r r' → Kept r' r'' → Kept r r''
Kept-trans r r' r'' h k = record {
  has_audio = k.has_audio ∙ h.has_audio;
  has_video = k.has_video ∙ h.has_video;
  ready = k.ready;
  users = k.users ∙ h.users;
}

init_senders-Kept :
    (e e' : Setup) (video audio : Stream) (a : AudioSession) (v : VideoSession) (r : Room)
    → r.rtp_audio_sender ≡ some a
    → r.rtp_video_sender ≡ some v
    → IsReady r
    → Kept r (init_senders e e' video audio a v r).1
unfolding init_senders
init_senders-Kept e e' video audio a v r ea ev h =
    let fa : audio_ready (some a) ≡ true = ground (arith, ea, h.audio) in
    let fv : video_ready (some v) ≡ true = ground (arith, ev, h.video) in
    let ga = audio_ready-init e audio.sequence_start audio.timestamp_start audio.ssrc a fa in
    let gv = video_ready-init e' video.sequence_start video.timestamp_start video.ssrc v fv in
    record {
      has_audio = ground (arith, ea);
      has_video = ground (arith, ev);
      ready = record { audio = ground (arith, h.audio, ga); video = ground (arith, h.video, gv) };
      users = ground arith;
    }

add_destinations-Kept :
    (video audio : Stream) (a : AudioSession) (v : VideoSession) (r : Room)
    → r.rtp_audio_sender ≡ some a
    → r.rtp_video_sender ≡ some v
    → IsReady r
    → (r' : Room) × (add_destinations video audio r ≡ some r') × Kept r r'
unfolding add_destinations
add_destinations-Kept video audio a v r ea ev h =
    let (ok_a, a', fa, ga) = audio_add audio.address a (ground (arith, ea, h.audio)) in
    let (ok_v, v', fv, gv) = video_add video.address v (ground (arith, ev, h.video)) in
    (
      record r { rtp_audio_sender = some a'; rtp_video_sender = some v' },
      ground (arith, ea, ev, fa, fv),
      record {
        has_audio = ground (arith, ea);
        has_video = ground (arith, ev);
        ready = record { audio = ga; video = gv };
        users = refl;
      },
    )

some_of {ℓ} : {A : Type ℓ} (o : Option A) → is_some o ≡ true → (a : A) × (o ≡ some a)
some_of none h = absurd (ground (arith, h))
some_of (some a) h = (a, refl)

finish-Kept :
    (video audio : Stream) (begun : Bool) (r r' : Room)
    → is_some r.rtp_audio_sender ≡ true
    → is_some r.rtp_video_sender ≡ true
    → Kept r r'
    → (r'' : Room) × ((if not begun then some r' else add_destinations video audio r') ≡ some r'')
      × Kept r r''
finish-Kept video audio false r r' has_a has_v k = (r', refl, k)
finish-Kept video audio true r r' has_a has_v k =
    let (a, ea) = some_of r'.rtp_audio_sender (k.has_audio ∙ has_a) in
    let (v, ev) = some_of r'.rtp_video_sender (k.has_video ∙ has_v) in
    let (r'', e, k') = add_destinations-Kept video audio a v r' ea ev k.ready in
    (r'', e, Kept-trans r r' r'' k k')

both_senders :
    (e e' : Setup) (video audio : Stream) (a : AudioSession) (v : VideoSession) (r : Room)
    → r.rtp_audio_sender ≡ some a
    → r.rtp_video_sender ≡ some v
    → add_sender_destination e e' video audio r ≡ (
        if not (init_senders e e' video audio a v r).0
        then some (init_senders e e' video audio a v r).1
        else add_destinations video audio (init_senders e e' video audio a v r).1)
unfolding add_sender_destination
both_senders e e' video audio a v r ea ev = ground (arith, ea, ev)

no_senders :
    (e e' : Setup) (video audio : Stream) (r : Room)
    → is_some r.rtp_audio_sender && is_some r.rtp_video_sender ≡ false
    → add_sender_destination e e' video audio r ≡ some r
unfolding add_sender_destination
no_senders e e' video audio r h = ground (arith, h)

pub add_sender_destination-Kept :
    (e e' : Setup) (video audio : Stream) (r : Room)
    → IsReady r
    → (r' : Room) × (add_sender_destination e e' video audio r ≡ some r') × Kept r r'
add_sender_destination-Kept e e' video audio r h = elim (Option-cases r.rtp_audio_sender) [
  | inl ea ↦ (r, no_senders e e' video audio r (ground (arith, ea)), Kept-refl r h)
  | inr (a, ea) ↦ elim (Option-cases r.rtp_video_sender) [
    | inl ev ↦ (r, no_senders e e' video audio r (ground (arith, ea, ev)), Kept-refl r h)
    | inr (v, ev) ↦
        let begun = init_senders e e' video audio a v r in
        let (r', f, k) =
          finish-Kept video audio begun.0 r begun.1 (ground (arith, ea)) (ground (arith, ev))
            (init_senders-Kept e e' video audio a v r ea ev h) in
        (r', both_senders e e' video audio a v r ea ev ∙ f, k)
  ]
]
