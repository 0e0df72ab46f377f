-- ===== src/Room/Meeting/Online.antt =====
-- The messages about the streams and the users that are online.
use rtc_client.Common.{Option, ℕ, zero, suc, ◌+◌, false, none, some, List, [], ◌∷◌}
use rtc_client.Common.Text.{lookup, assign}
use rtc_client.Json.{JsonObject, get_key, get_index, as_object, array_size}
use rtc_client.Common.Text.{ascii}
use rtc_client.PortManager.{PortManager}
use rtc_client.Room.User.{RoomUser, Network}
use rtc_client.Room.User
use rtc_client.Room.Meeting.{Room}
use rtc_client.Room.Meeting.Handlers.{
  Env, Handled, OnlineUser, online_users, notice_if, text_of, ssrc_of, online_user, add_user,
}

-- The number of rounds of a loop up to `array_size()`.
abbrev pub rounds : JsonObject → ℕ
rounds o = elim (array_size o) [ none ↦ 0 | some n ↦ n ]

-- The loop over the SSRCs of a user, from the index `j` on; `left` rounds are left. What
-- `initialize` returns is not looked at.
unfoldable pub pull_ssrcs :
    (ℕ → Network) → JsonObject → ℕ → ℕ → PortManager → RoomUser → RoomUser × PortManager
unfolding ssrc_of User.initialize
pull_ssrcs networks ssrcs zero j ports user = (user, ports)
pull_ssrcs networks ssrcs (suc left) j ports user =
    let ssrc = ssrc_of "ssrc" (as_object (get_index j ssrcs)) in
    let i = User.initialize (networks j) ssrc ports user in
    pull_ssrcs networks ssrcs left (j + 1) i.ports i.user

-- One stream: a user that is not in the map is left out.
unfoldable pub pull_stream : (ℕ → Network) → JsonObject → PortManager → Room → Room × PortManager
unfolding text_of pull_ssrcs lookup assign
pull_stream networks stream ports r =
    let uuid = text_of "user_uuid" stream in
    let ssrcs = as_object (get_key (ascii "ssrcs") stream) in
    elim (lookup uuid r.other_users_map) [
      | none ↦ (r, ports)
      | some user ↦
          let (user', ports') = pull_ssrcs networks ssrcs (rounds ssrcs) 0 ports user in
          (record r { other_users_map = assign uuid user' r.other_users_map }, ports')
    ]

unfoldable pub pull_streams :
    (ℕ → ℕ → Network) → JsonObject → ℕ → ℕ → PortManager → Room → Room × PortManager
unfolding pull_stream
pull_streams networks streams zero i ports r = (r, ports)
pull_streams networks streams (suc left) i ports r =
    let (r', ports') = pull_stream (networks i) (as_object (get_index i streams)) ports r in
    pull_streams networks streams left (i + 1) ports' r'

unfoldable pub on_ws_conference_pull_stream : Env → JsonObject → PortManager → Room → Handled
unfolding pull_streams
on_ws_conference_pull_stream e params ports r =
    let streams = as_object (get_key (ascii "streams") params) in
    let (r', ports') = pull_streams e.networks streams (rounds streams) 0 ports r in
    record { room = record r' { is_signal_running = false }; ports = ports'; notices = [] }

unfoldable pub on_ws_conference_stop_pulling : PortManager → Room → Handled
on_ws_conference_stop_pulling ports r = record {
  room = record r { is_signal_running = false };
  ports = ports;
  notices = [];
}

-- The users of a message from the index `i` on.
unfoldable pub listed_users : JsonObject → ℕ → ℕ → List OnlineUser
unfolding online_user
listed_users users zero i = []
listed_users users (suc left) i =
    online_user (as_object (get_index i users)) ∷ listed_users users left (i + 1)

unfoldable pub add_users : Env → List OnlineUser → Room → Option Room
unfolding add_user
add_users e [] r = some r
add_users e (u ∷ us) r = elim (add_user e u r) [ none ↦ none | some r' ↦ add_users e us r' ]

unfoldable pub on_ws_conference_online_users :
    Env → JsonObject → PortManager → Room → Option Handled
unfolding listed_users add_users
on_ws_conference_online_users e params ports r =
    let users = as_object (get_key (ascii "online_users") params) in
    let listed = listed_users users (rounds users) 0 in
    elim (add_users e listed (record r { is_signal_running = false })) [
      | none ↦ none
      | some r' ↦
          some (record { room = r'; ports = ports; notices = notice_if r (online_users listed) })
    ]
