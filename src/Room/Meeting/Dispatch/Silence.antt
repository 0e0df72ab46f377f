-- ===== src/Room/Meeting/Dispatch/Silence.antt =====
-- What stays behind a conference that has ended, and behind `un_initialize`.
use rtc_client.Common.{ℕ, ◌≡◌, refl, ap, ◌∙◌, sym, subst, true, Option, some, List, [], ◌∷◌, arith}
use rtc_client.Common.Memory.{Memory}
use rtc_client.Common.Text.{Text}
use rtc_client.Command.{
  CmdType, conference_pull_stream, conference_stop_pulling, conference_exit, conference_stop,
  conference_online_users,
}
use rtc_client.PortManager.{PortManager}
use rtc_client.Rtp.Transmitter.{Address}
use rtc_client.Room.Meeting.{
  Room, Startup, initialize, un_initialize, free_context, send_h264_data, send_aac_data,
  stop_receive, remove_sender,
}
use rtc_client.Room.Meeting.Senders.{is_some, audio_ready, video_ready}
use rtc_client.Room.Meeting.Handlers.{Env}
use rtc_client.Room.Meeting.Handlers.Users.{IsKeyed, Allocates}
use rtc_client.Room.Meeting.Leaving.{leave}
use rtc_client.Room.Meeting.Signals.{
  Code, conference_already_joined, Streams, has_identity, send_signal, get_new_uuid,
  signal_create_conference, signal_join_conference, signal_streams, signal_own,
}
use rtc_client.Room.Meeting.Signals.Limits.{
  Signal, create, join, pull, stop_pulling, exit, end_conference, users, signal,
}
use rtc_client.Room.Meeting.Dispatch.Members.{IsSound, IsSilent}
use rtc_client.Room.Meeting.Dispatch.Sound.{on_json-IsSound}
use rtc_client.Room.Meeting.Dispatch.Steps.{leave-IsSound}
use rtc_client.Room.Meeting.Dispatch.Waiting.{Step, call, answer, run}

-- What no signal touches.
pub record Untouched (r r' : Room) : Type 0 where
  pub audio : r'.rtp_audio_sender ≡ r.rtp_audio_sender
  pub video : r'.rtp_video_sender ≡ r.rtp_video_sender
  pub members : r'.other_users_map ≡ r.other_users_map

create-Untouched :
    (a b : Text) (now : ℕ) (r : Room) → Untouched r (signal_create_conference now a b r).room
unfolding signal_create_conference send_signal get_new_uuid
create-Untouched a b now r = record {
  audio = ground arith;
  video = ground arith;
  members = ground arith;
}

join-Untouched :
    (a b c : Text) (now : ℕ) (r : Room) → Untouched r (signal_join_conference now a b c r).room
unfolding signal_join_conference send_signal get_new_uuid
join-Untouched a b c now r = record {
  audio = ground arith;
  video = ground arith;
  members = ground arith;
}

streams-Untouched :
    (cmd : CmdType) (streams : Streams) (now : ℕ) (r : Room)
    → Untouched r (signal_streams cmd now streams r).0.room
unfolding signal_streams send_signal get_new_uuid
streams-Untouched cmd streams now r = record {
  audio = ground arith;
  video = ground arith;
  members = ground arith;
}

own-Untouched : (cmd : CmdType) (now : ℕ) (r : Room) → Untouched r (signal_own cmd now r).room
unfolding signal_own send_signal get_new_uuid
own-Untouched cmd now r = record {
  audio = ground arith;
  video = ground arith;
  members = ground arith;
}

pub signal-Untouched : (s : Signal) (now : ℕ) (r : Room) → Untouched r (signal s now r).room
unfolding signal
signal-Untouched (create a b) now r = create-Untouched a b now r
signal-Untouched (join a b c) now r = join-Untouched a b c now r
signal-Untouched (pull streams) now r = streams-Untouched conference_pull_stream streams now r
signal-Untouched (stop_pulling streams) now r =
    streams-Untouched conference_stop_pulling streams now r
signal-Untouched exit now r = own-Untouched conference_exit now r
signal-Untouched end_conference now r = own-Untouched conference_stop now r
signal-Untouched users now r = own-Untouched conference_online_users now r

pub Untouched-IsSound : (r r' : Room) → Untouched r r' → IsSound r → IsSound r'
Untouched-IsSound r r' u s = record {
  users = subst IsKeyed (sym u.members) s.users;
  senders = record {
    audio = ap audio_ready u.audio ∙ s.senders.audio;
    video = ap video_ready u.video ∙ s.senders.video;
  };
}

Untouched-IsSilent : (r r' : Room) → Untouched r r' → IsSilent r → IsSilent r'
Untouched-IsSilent r r' u quiet = (ap is_some u.audio ∙ quiet.0, ap is_some u.video ∙ quiet.1)

run-IsSilent :
    (e : Env) (ports : PortManager) (steps : List Step) (r : Room)
    → Allocates e
    → IsSound r
    → IsSilent r
    → (codes : List Code) × (r' : Room) × (run e ports steps r ≡ some (codes, r')) × IsSilent r'
unfolding run
run-IsSilent e ports [] r enough s quiet = ([], r, refl, quiet)
run-IsSilent e ports (call x now ∷ steps) r enough s quiet =
    let u = signal-Untouched x now r in
    let (codes, r', f, still) =
      run-IsSilent e ports steps (signal x now r).room enough (Untouched-IsSound r _ u s)
        (Untouched-IsSilent r _ u quiet) in
    ((signal x now r).code ∷ codes, r', ground (arith, f), still)
run-IsSilent e ports (answer json ∷ steps) r enough s quiet =
    let (h, g, sound, silent) = on_json-IsSound e json ports r enough s in
    let (codes, r', f, still) = run-IsSilent e h.ports steps h.room enough sound (silent quiet) in
    (codes, r', ground (arith, f, g), still)

silent-sends :
    (sendto : Address → List ℕ → Option ℕ) (now_ms : ℕ) (m : Memory) (base len : ℕ) (frame : List ℕ)
    (r : Room)
    → IsSilent r
    → (send_h264_data sendto now_ms m base len r ≡ some ([], r))
      × (send_aac_data sendto now_ms frame r ≡ some ([], r))
unfolding send_h264_data send_aac_data
silent-sends sendto now_ms m base len frame r quiet =
    (ground (arith, quiet.0, quiet.1), ground (arith, quiet.0, quiet.1))

leave-IsSilent : (r : Room) → IsSilent (leave r)
unfolding leave remove_sender stop_receive
leave-IsSilent r = (refl, refl)

-- Where the users that the messages ask for are allocated, behind the end of a conference every
-- sequence of signals and messages is handled, and the data that are sent then reach no session: no conference that is created or joined in between makes
-- the room send audio or video again.
pub leave-run :
    (e : Env) (ports : PortManager) (steps : List Step) (r : Room)
    (sendto : Address → List ℕ → Option ℕ) (now_ms : ℕ) (m : Memory) (base len : ℕ) (frame : List ℕ)
    → Allocates e
    → (codes : List Code) × (r' : Room) × (run e ports steps (leave r) ≡ some (codes, r'))
      × (send_h264_data sendto now_ms m base len r' ≡ some ([], r'))
      × (send_aac_data sendto now_ms frame r' ≡ some ([], r'))
leave-run e ports steps r sendto now_ms m base len frame enough =
    let (codes, r', f, quiet) =
      run-IsSilent e ports steps (leave r) enough (leave-IsSound r) (leave-IsSilent r) in
    let (video, audio) = silent-sends sendto now_ms m base len frame r' quiet in
    (codes, r', f, video, audio)

-- A room that is initialized anew while it knows its conference or its user's uuid refuses to
-- create and to join, with the error of a room that has joined, and it has no users.
pub initialize-joined :
    (e : Startup) (r : Room) (now : ℕ) (room_id user_id user_name : Text)
    → has_identity r ≡ true
    → (initialize e (un_initialize r)).0 ≡ true
    → ((signal_create_conference now user_id user_name (initialize e (un_initialize r)).1).code
        ≡ conference_already_joined)
      × ((signal_join_conference now room_id user_id user_name
            (initialize e (un_initialize r)).1).code
          ≡ conference_already_joined)
      × ((initialize e (un_initialize r)).1.other_users_map ≡ [])
unfolding initialize free_context signal_create_conference signal_join_conference
initialize-joined e r now room_id user_id user_name known started =
    (ground (arith, known, started), ground (arith, known, started), ground (arith, known, started))
