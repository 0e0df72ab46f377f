-- ===== src/Room/Meeting/Dispatch/Life.antt =====
-- The rooms that a program can have.
use rtc_client.Common.{
  length, ◌<◌, ◌^◌, ℕ, ◌≡◌, refl, sym, subst, if◌then◌else◌, Bool, true, false, Option, some, List,
  [], arith, Option-cases, inl, inr,
}
use rtc_client.Common.Memory.{Memory}
use rtc_client.Common.Text.{Text, Dict}
use rtc_client.PortManager.{PortManager}
use rtc_client.Room.User.{RoomUser}
use rtc_client.WsClient.{WsClient, Event, Connecting, on_event_handle, on_timer}
use rtc_client.Room.Meeting.Receiving.{Arrival, Received, receive_round}
use rtc_client.Room.Meeting.Receiving.Keeping.{receive_round-IsSound}
use rtc_client.Rtp.Transmitter.{Address}
use rtc_client.Rtp.AudioSession.{AudioSession}
use rtc_client.Rtp.AudioSession
use rtc_client.Rtp.VideoSession.{VideoSession, Sending}
use rtc_client.Rtp.VideoSession
use rtc_client.Room.Meeting.{
  Room, new, Startup, initialize, un_initialize, free_context, send_h264_data, send_aac_data,
}
use rtc_client.Room.Meeting.Senders.{audio_ready, video_ready}
use rtc_client.Room.Meeting.Handlers.{Env, Handled}
use rtc_client.Room.Meeting.Handlers.Users.{Allocates, IsKeyed, []-IsKeyed}
use rtc_client.Room.Meeting.Signals.Limits.{Signal, signal}
use rtc_client.Room.Meeting.Dispatch.{on_websocket_message}
use rtc_client.Room.Meeting.Dispatch.Members.{IsSound}
use rtc_client.Room.Meeting.Dispatch.Sound.{on_websocket_message-IsSound}
use rtc_client.Room.Meeting.Dispatch.Silence.{signal-Untouched, Untouched-IsSound}

-- A room that was made, and what has been done with it since.
pub data Life : Room → Type 0 where
  born : (a b c d : ℕ) → Life (new a b c d)
  begun : (r : Room) (e : Startup) → Life r → Life (initialize e r).1
  ended : (r : Room) → Life r → Life (un_initialize r)
  signalled : (r : Room) (s : Signal) (now : ℕ) → Life r → Life (signal s now r).room
  told :
      (r : Room) (e : Env) (double_texts : Text → Text × Text) (message : Text)
      (ports : PortManager) (h : Handled)
      → Life r
      → Allocates e
      → length message < 2 ^ 32
      → on_websocket_message e double_texts message ports r ≡ some h
      → Life h.room
  hooked :
      (r : Room) (event signal h264 aac : Bool)
      → Life r
      → Life (record r {
        has_event_callback = event;
        has_signal_callback = signal;
        has_h264_callback = h264;
        has_aac_callback = aac;
      })
  heard :
      (r : Room) (c : WsClient) (event : Event)
      → r.websocket_client ≡ some c
      → Life r
      → Life (record r { websocket_client = some (on_event_handle event c).0 })
  ticked :
      (r : Room) (c : WsClient) (m : Connecting)
      → r.websocket_client ≡ some c
      → Life r
      → Life (record r { websocket_client = some (on_timer m c).0 })
  received :
      (r r' : Room) (arrivals : Text → Arrival) (calls : List Received)
      → Life r
      → receive_round arrivals r ≡ some (calls, r')
      → Life r'
  video :
      (r r' : Room) (sendto : Address → List ℕ → Option ℕ) (now_ms : ℕ) (m : Memory) (base len : ℕ)
      (sendings : List Sending)
      → Life r
      → send_h264_data sendto now_ms m base len r ≡ some (sendings, r')
      → Life r'
  audio :
      (r r' : Room) (sendto : Address → List ℕ → Option ℕ) (now_ms : ℕ) (frame : List ℕ)
      (sendings : List Sending)
      → Life r
      → send_aac_data sendto now_ms frame r ≡ some (sendings, r')
      → Life r'

users-initialize :
    (e : Startup) (r : Room)
    → (initialize e r).1.other_users_map
      ≡ (if r.initialized then [] else if (initialize e r).0 then r.other_users_map else [])
unfolding initialize free_context
users-initialize e r = ground arith

senders-initialize :
    (e : Startup) (r : Room)
    → (audio_ready (initialize e r).1.rtp_audio_sender ≡ true)
      × (video_ready (initialize e r).1.rtp_video_sender ≡ true)
unfolding initialize free_context
senders-initialize e r = (ground arith, ground arith)

IsKeyed-if :
    (b : Bool) (xs ys : Dict RoomUser) → IsKeyed xs → IsKeyed ys → IsKeyed (if b then xs else ys)
IsKeyed-if true xs ys h k = h
IsKeyed-if false xs ys h k = k

initialize-IsSound : (e : Startup) (r : Room) → IsSound r → IsSound (initialize e r).1
initialize-IsSound e r s =
    let ready = senders-initialize e r in
    record {
      users = subst IsKeyed (sym (users-initialize e r)) (
          IsKeyed-if r.initialized [] _ []-IsKeyed
            (IsKeyed-if (initialize e r).0 r.other_users_map [] s.users []-IsKeyed));
      senders = record { audio = ready.0; video = ready.1 };
    }

un_initialize-IsSound : (r : Room) → IsSound (un_initialize r)
unfolding free_context
un_initialize-IsSound r = record {
  users = []-IsKeyed;
  senders = record { audio = refl; video = refl };
}

ready-send_h264_data :
    (sendto : Address → List ℕ → Option ℕ) (now_ms : ℕ) (m : Memory) (base len : ℕ)
    (s : VideoSession) (sent : VideoSession.Sent)
    → video_ready (some s) ≡ true
    → VideoSession.send_h264_data sendto now_ms m base len s ≡ some sent
    → video_ready (some sent.session) ≡ true
unfolding VideoSession.send_h264_data VideoSession.send_through VideoSession.send_built
ready-send_h264_data sendto now_ms m base len s sent h e = ground (arith, h, e)

ready-send_aac_data :
    (sendto : Address → List ℕ → Option ℕ) (now_ms : ℕ) (frame : List ℕ) (s : AudioSession)
    (sent : AudioSession.Sent)
    → audio_ready (some s) ≡ true
    → AudioSession.send_aac_data sendto now_ms frame s ≡ some sent
    → audio_ready (some sent.session) ≡ true
unfolding AudioSession.send_aac_data AudioSession.send_through
ready-send_aac_data sendto now_ms frame s sent h e = ground (arith, h, e)

video-IsSound :
    (sendto : Address → List ℕ → Option ℕ) (now_ms : ℕ) (m : Memory) (base len : ℕ) (r r' : Room)
    (sendings : List Sending)
    → IsSound r
    → send_h264_data sendto now_ms m base len r ≡ some (sendings, r')
    → IsSound r'
unfolding send_h264_data
video-IsSound sendto now_ms m base len r r' sendings s e = elim (Option-cases r.rtp_video_sender) [
  | inl f ↦ let same : r' ≡ r = ground (arith, e, f) in subst IsSound (sym same) s
  | inr (v, f) ↦ elim (Option-cases (VideoSession.send_h264_data sendto now_ms m base len v)) [
    | inl g ↦ absurd (ground (arith, e, f, g))
    | inr (sent, g) ↦
        let same : r' ≡ record r { rtp_video_sender = some sent.session } =
          ground (arith, e, f, g) in
        subst IsSound (sym same) (record {
          users = s.users;
          senders = record {
            audio = s.senders.audio;
            video =
                ready-send_h264_data sendto now_ms m base len v sent
                  (ground (arith, f, s.senders.video)) g;
          };
        })
  ]
]

audio-IsSound :
    (sendto : Address → List ℕ → Option ℕ) (now_ms : ℕ) (frame : List ℕ) (r r' : Room)
    (sendings : List Sending)
    → IsSound r
    → send_aac_data sendto now_ms frame r ≡ some (sendings, r')
    → IsSound r'
unfolding send_aac_data
audio-IsSound sendto now_ms frame r r' sendings s e = elim (Option-cases r.rtp_audio_sender) [
  | inl f ↦ let same : r' ≡ r = ground (arith, e, f) in subst IsSound (sym same) s
  | inr (a, f) ↦ elim (Option-cases (AudioSession.send_aac_data sendto now_ms frame a)) [
    | inl g ↦ absurd (ground (arith, e, f, g))
    | inr (sent, g) ↦
        let same : r' ≡ record r { rtp_audio_sender = some sent.session } =
          ground (arith, e, f, g) in
        subst IsSound (sym same) (record {
          users = s.users;
          senders = record {
            audio =
                ready-send_aac_data sendto now_ms frame a sent (ground (arith, f, s.senders.audio))
                  g;
            video = s.senders.video;
          };
        })
  ]
]

-- A room with the same users and sessions.
same-IsSound :
    (r r' : Room)
    → r'.other_users_map ≡ r.other_users_map
    → r'.rtp_audio_sender ≡ r.rtp_audio_sender
    → r'.rtp_video_sender ≡ r.rtp_video_sender
    → IsSound r
    → IsSound r'
same-IsSound r r' users same_audio same_video s =
    Untouched-IsSound r r' (record { audio = same_audio; video = same_video; members = users }) s

Life-IsSound : {r : Room} → Life r → IsSound r
Life-IsSound (Life.born a b c d) = record {
  users = []-IsKeyed;
  senders = record { audio = refl; video = refl };
}
Life-IsSound (Life.begun r e l) = initialize-IsSound e r (Life-IsSound l)
Life-IsSound (Life.ended r l) = un_initialize-IsSound r
Life-IsSound (Life.signalled r s now l) =
    Untouched-IsSound r _ (signal-Untouched s now r) (Life-IsSound l)
Life-IsSound (Life.told r e double_texts message ports h l enough short f) =
    let (h', g, sound) =
      on_websocket_message-IsSound e double_texts message ports r enough short (Life-IsSound l) in
    let same : h' ≡ h = ground (arith, f, g) in subst (λ x. IsSound x.room) same sound
Life-IsSound (Life.hooked r event signal h264 aac l) =
    same-IsSound r _ refl refl refl (Life-IsSound l)
Life-IsSound (Life.heard r c event f l) = same-IsSound r _ refl refl refl (Life-IsSound l)
Life-IsSound (Life.ticked r c m f l) = same-IsSound r _ refl refl refl (Life-IsSound l)
Life-IsSound (Life.received r r' arrivals calls l f) =
    receive_round-IsSound arrivals r r' calls (Life-IsSound l) f
Life-IsSound (Life.video r r' sendto now_ms m base len sendings l f) =
    video-IsSound sendto now_ms m base len r r' sendings (Life-IsSound l) f
Life-IsSound (Life.audio r r' sendto now_ms frame sendings l f) =
    audio-IsSound sendto now_ms frame r r' sendings (Life-IsSound l) f

-- Whatever initializations, settings of callbacks, signals, messages of less than 2 ^ 32 bytes that
-- were handled with their users allocated, events of the client, rounds of receiving, and media a
-- room has gone through, it handles the next such message, whatever the message's bytes are: the
-- reading ends, no null pointer is read through, and in the room that is left every user is stored
-- under its own uuid and each session that is set up has its builder and its transmitter.
pub Life-message :
    (r : Room) (e : Env) (double_texts : Text → Text × Text) (message : Text) (ports : PortManager)
    → Allocates e
    → length message < 2 ^ 32
    → Life r
    → (h : Handled) × (on_websocket_message e double_texts message ports r ≡ some h)
      × IsSound h.room
Life-message r e double_texts message ports enough short l =
    on_websocket_message-IsSound e double_texts message ports r enough short (Life-IsSound l)
