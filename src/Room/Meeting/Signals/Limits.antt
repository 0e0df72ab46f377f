-- ===== src/Room/Meeting/Signals/Limits.antt =====
-- How often a room sends signals.
use rtc_client.Common.{
  ℕ, ◌+◌, ◌-◌, ◌%◌, ◌^◌, ◌≤◌, ◌<◌, ◌≡◌, ◌≢◌, refl, true, [], arith, Option-cases, inl, inr,
}
use rtc_client.Common.Text.{Text, remove}
use rtc_client.Command.{
  CmdType, conference_create, conference_join, conference_pull_stream, conference_stop_pulling,
  conference_exit, conference_stop, conference_online_users,
}
use rtc_client.Json.{JsonObject}
use rtc_client.WsClient.{WsClient}
use rtc_client.Room.Meeting.{Room}
use rtc_client.Room.Meeting.Signals.{
  Code, ok, Signalled, Streams, refuse, is_limited, started, get_new_uuid, send_signal,
  create_params, join_params, pull_params, own_params, signal_create_conference,
  signal_join_conference, signal_streams, signal_own,
}

-- The signals but the heartbeat.
pub data Signal : Type 0 where
  create : Text → Text → Signal
  join : Text → Text → Text → Signal
  pull : Streams → Signal
  stop_pulling : Streams → Signal
  exit : Signal
  end_conference : Signal
  users : Signal

unfoldable pub signal : Signal → ℕ → Room → Signalled
unfolding signal_create_conference signal_join_conference signal_streams signal_own
signal (create user_id user_name) now r = signal_create_conference now user_id user_name r
signal (join room_id user_id user_name) now r =
    signal_join_conference now room_id user_id user_name r
signal (pull streams) now r = (signal_streams conference_pull_stream now streams r).0
signal (stop_pulling streams) now r = (signal_streams conference_stop_pulling now streams r).0
signal exit now r = signal_own conference_exit now r
signal end_conference now r = signal_own conference_stop now r
signal users now r = signal_own conference_online_users now r

-- A signal that is limited is refused for some reason, and changes nothing.
pub record Refused (r : Room) (s : Signalled) : Type 0 where
  pub code : s.code ≢ ok
  pub room : s.room ≡ r
  pub calls : s.calls ≡ []

refuse-Refused : (c : Code) (r : Room) → c ≢ ok → Refused r (refuse c r)
refuse-Refused c r h = record { code = h; room = refl; calls = refl }

create-Refused :
    (a b : Text) (now : ℕ) (r : Room)
    → is_limited now r ≡ true
    → Refused r (signal_create_conference now a b r)
unfolding signal_create_conference
create-Refused a b now r limited = record {
  code = λ e. absurd (ground (arith, limited, e));
  room = ground (arith, limited);
  calls = ground (arith, limited);
}

join-Refused :
    (a b c : Text) (now : ℕ) (r : Room)
    → is_limited now r ≡ true
    → Refused r (signal_join_conference now a b c r)
unfolding signal_join_conference
join-Refused a b c now r limited = record {
  code = λ e. absurd (ground (arith, limited, e));
  room = ground (arith, limited);
  calls = ground (arith, limited);
}

streams-Refused :
    (cmd : CmdType) (streams : Streams) (now : ℕ) (r : Room)
    → is_limited now r ≡ true
    → Refused r (signal_streams cmd now streams r).0
unfolding signal_streams
streams-Refused cmd streams now r limited = record {
  code = λ e. absurd (ground (arith, limited, e));
  room = ground (arith, limited);
  calls = ground (arith, limited);
}

own-Refused :
    (cmd : CmdType) (now : ℕ) (r : Room)
    → is_limited now r ≡ true
    → Refused r (signal_own cmd now r)
unfolding signal_own
own-Refused cmd now r limited = record {
  code = λ e. absurd (ground (arith, limited, e));
  room = ground (arith, limited);
  calls = ground (arith, limited);
}

pub signal-Refused :
    (s : Signal) (now : ℕ) (r : Room) → is_limited now r ≡ true → Refused r (signal s now r)
unfolding signal
signal-Refused (create a b) now r limited = create-Refused a b now r limited
signal-Refused (join a b c) now r limited = join-Refused a b c now r limited
signal-Refused (pull streams) now r limited =
    streams-Refused conference_pull_stream streams now r limited
signal-Refused (stop_pulling streams) now r limited =
    streams-Refused conference_stop_pulling streams now r limited
signal-Refused exit now r limited = own-Refused conference_exit now r limited
signal-Refused end_conference now r limited = own-Refused conference_stop now r limited
signal-Refused users now r limited = own-Refused conference_online_users now r limited

-- A signal that was sent keeps the time.
abbrev Kept : ℕ → Signalled → Type 0
Kept now s = s.code ≡ ok → (s.room.is_signal_running ≡ true) × (s.room.prev_signal_time ≡ now)

send_signal-Kept :
    (client : WsClient) (cmd : CmdType) (params : JsonObject) (now : ℕ) (r : Room)
    → r.is_signal_running ≡ true
    → r.prev_signal_time ≡ now
    → Kept now (send_signal client cmd params r)
unfolding send_signal get_new_uuid
send_signal-Kept client cmd params now r i t e = ground (arith, i, t, e)

create-Kept : (a b : Text) (now : ℕ) (r : Room) → Kept now (signal_create_conference now a b r)
unfolding signal_create_conference
create-Kept a b now r e = elim (Option-cases r.websocket_client) [
  | inl f ↦ absurd (ground (arith, e, f))
  | inr (client, f) ↦ ground (
    arith,
    e,
    f,
    send_signal-Kept client conference_create (create_params a b) now (started now r) refl refl,
  )
]

join-Kept : (a b c : Text) (now : ℕ) (r : Room) → Kept now (signal_join_conference now a b c r)
unfolding signal_join_conference
join-Kept a b c now r e = elim (Option-cases r.websocket_client) [
  | inl f ↦ absurd (ground (arith, e, f))
  | inr (client, f) ↦
      let named : Room = record (started now r) { my_user_id = b; my_user_name = c } in
      ground (
        arith,
        e,
        f,
        send_signal-Kept client conference_join (join_params a b c) now named refl refl,
      )
]

streams-Kept :
    (cmd : CmdType) (streams : Streams) (now : ℕ) (r : Room)
    → Kept now (signal_streams cmd now streams r).0
unfolding signal_streams
streams-Kept cmd streams now r e = elim (Option-cases r.websocket_client) [
  | inl f ↦ absurd (ground (arith, e, f))
  | inr (client, f) ↦ ground (
    arith,
    e,
    f,
    send_signal-Kept client cmd (pull_params (remove r.my_user_uuid streams) r) now (started now r)
        refl refl,
  )
]

own-Kept : (cmd : CmdType) (now : ℕ) (r : Room) → Kept now (signal_own cmd now r)
unfolding signal_own
own-Kept cmd now r e = elim (Option-cases r.websocket_client) [
  | inl f ↦ absurd (ground (arith, e, f))
  | inr (client, f) ↦ ground (
    arith,
    e,
    f,
    send_signal-Kept client cmd (own_params r.my_room_id r.my_user_uuid) now (started now r) refl
        refl,
  )
]

pub signal-Kept :
    (s : Signal) (now : ℕ) (r : Room)
    → (signal s now r).code ≡ ok
    → ((signal s now r).room.is_signal_running ≡ true)
      × ((signal s now r).room.prev_signal_time ≡ now)
unfolding signal
signal-Kept (create a b) now r = create-Kept a b now r
signal-Kept (join a b c) now r = join-Kept a b c now r
signal-Kept (pull streams) now r = streams-Kept conference_pull_stream streams now r
signal-Kept (stop_pulling streams) now r = streams-Kept conference_stop_pulling streams now r
signal-Kept exit now r = own-Kept conference_exit now r
signal-Kept end_conference now r = own-Kept conference_stop now r
signal-Kept users now r = own-Kept conference_online_users now r

pub is_limited_soon :
    (now t : ℕ) (r : Room)
    → r.is_signal_running ≡ true
    → r.prev_signal_time ≡ t
    → t ≤ now
    → now < t + 6
    → now < 2 ^ 64
    → is_limited now r ≡ true
unfolding is_limited
is_limited_soon now t r i e le lt low =
    let gap : (now + 2 ^ 64 - r.prev_signal_time) % 2 ^ 64 < 6 = omega arith in
    ground (arith, i, gap)
