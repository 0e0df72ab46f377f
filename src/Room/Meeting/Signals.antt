-- ===== src/Room/Meeting/Signals.antt =====
-- The signals that a room sends to the server. `now` is the processor time in seconds, a uint64_t.
pub mod Limits
use rtc_client.Common.{
  ℕ, ◌+◌, ◌-◌, ◌%◌, ◌^◌, Bool, true, false, not, ◌&&◌, ◌||◌, Option, none, some, List, [], ◌∷◌, ltb,
  if◌then◌else◌,
}
use rtc_client.Common.Text.{Text, Dict, ascii, is_empty, assign, remove}
use rtc_client.Utils.{pos, common_to_string}
use rtc_client.Json.{JsonObject, t_string, t_obj, empty_object, set_key, set_index}
use rtc_client.Command.{
  CmdType, conference_create, conference_join, conference_pull_stream, conference_stop_pulling,
  conference_exit, conference_stop, conference_online_users, conference_heartbeat, app_get_request,
  app_get_request_map, params_json,
}
use rtc_client.WsClient.{WsClient, Call, send_text}
use rtc_client.Room.Meeting.{Room}

-- The results: 0, and the errors of src/application/app_error.h.
pub data Code : Type 0 where
  ok : Code
  invalid_params : Code
  reach_max_api_limit : Code
  websocket_not_init : Code
  websocket_not_connected : Code
  conference_not_joined : Code
  conference_already_joined : Code

-- What a signal returns and leaves, and the calls that the client makes.
pub record Signalled : Type 0 where
  pub code : Code
  pub room : Room
  pub calls : List Call

abbrev pub refuse : Code → Room → Signalled
refuse code r = record { code = code; room = r; calls = [] }

-- `m_my_room_id.size() != 0 || m_my_user_uuid.size() != 0`, and with both sizes 0 as it is negated
-- for the signals within a conference.
abbrev pub has_identity : Room → Bool
has_identity r = not (is_empty r.my_room_id) || not (is_empty r.my_user_uuid)

abbrev pub is_joined : Room → Bool
is_joined r = not (is_empty r.my_room_id || is_empty r.my_user_uuid)

-- The difference is taken modulo 2 ^ 64.
unfoldable pub is_limited : ℕ → Room → Bool
is_limited now r = r.is_signal_running && ltb ((now + 2 ^ 64 - r.prev_signal_time) % 2 ^ 64) 6

abbrev pub started : ℕ → Room → Room
started now r = record r { is_signal_running = true; prev_signal_time = now }

-- `get_new_uuid`
unfoldable pub get_new_uuid : Room → Text × Room
unfolding common_to_string
get_new_uuid r =
    let n = (r.uuid_generator + 1) % 2 ^ 64 in
    (common_to_string (pos n), record r { uuid_generator = n })

-- The end of every signal but the heartbeat: the request is written and sent.
unfoldable pub send_signal : WsClient → CmdType → JsonObject → Room → Signalled
unfolding get_new_uuid app_get_request send_text
send_signal client cmd params r =
    let (uuid, r') = get_new_uuid r in
    let (sent, calls) = send_text (app_get_request cmd uuid params) client in
    if sent then record { code = ok; room = r'; calls = calls } else record {
      code = websocket_not_connected;
      room = record r' { is_signal_running = false };
      calls = calls;
    }

unfoldable pub create_params : Text → Text → JsonObject
unfolding params_json assign
create_params user_id user_name =
    params_json (assign (ascii "user_name") user_name (assign (ascii "user_id") user_id []))
      empty_object

unfoldable pub signal_create_conference : ℕ → Text → Text → Room → Signalled
unfolding is_limited send_signal create_params
signal_create_conference now user_id user_name r = elim r.websocket_client [
  | none ↦ refuse websocket_not_init r
  | some client ↦
      if has_identity r
      then refuse conference_already_joined r
      else if is_limited now r
      then refuse reach_max_api_limit r
      else send_signal client conference_create (create_params user_id user_name) (started now r)
]

unfoldable pub join_params : Text → Text → Text → JsonObject
unfolding params_json assign
join_params conference_id user_id user_name =
    let p1 = assign (ascii "conference_id") conference_id [] in
    let p2 = assign (ascii "user_id") user_id p1 in
    params_json (assign (ascii "user_name") user_name p2) empty_object

unfoldable pub signal_join_conference : ℕ → Text → Text → Text → Room → Signalled
unfolding is_limited send_signal join_params
signal_join_conference now conference_id user_id user_name r = elim r.websocket_client [
  | none ↦ refuse websocket_not_init r
  | some client ↦
      if has_identity r
      then refuse conference_already_joined r
      else if is_limited now r
      then refuse reach_max_api_limit r
      else send_signal client conference_join (join_params conference_id user_id user_name)
          (record (started now r) { my_user_id = user_id; my_user_name = user_name })
]

-- The streams of users: each user's uuid with a set of SSRCs, which is in the order of its texts.
abbrev pub Streams : Type 0
Streams = Dict (List Text)

unfoldable pub ssrcs_json : ℕ → List Text → JsonObject → JsonObject
unfolding set_index set_key
ssrcs_json i [] o = o
ssrcs_json i (ssrc ∷ rest) o =
    let ssrc_json = set_key (ascii "ssrc") (t_string ssrc) empty_object in
    ssrcs_json (i + 1) rest (set_index i (t_obj ssrc_json) o)

unfoldable pub stream_json : Text → List Text → JsonObject
unfolding ssrcs_json set_key
stream_json user_uuid ssrcs =
    set_key (ascii "ssrcs") (t_obj (ssrcs_json 0 ssrcs empty_object))
      (set_key (ascii "user_uuid") (t_string user_uuid) empty_object)

-- A user with no SSRC is left out.
unfoldable pub streams_json : ℕ → Streams → JsonObject → JsonObject
unfolding stream_json set_index
streams_json n [] o = o
streams_json n ((user_uuid, ssrcs) ∷ rest) o =
    if is_empty ssrcs
    then streams_json n rest o
    else streams_json (n + 1) rest (set_index n (t_obj (stream_json user_uuid ssrcs)) o)

unfoldable pub pull_params : Streams → Room → JsonObject
unfolding streams_json set_key
pull_params streams r =
    let p1 = set_key (ascii "conference_id") (t_string r.my_room_id) empty_object in
    let p2 = set_key (ascii "user_uuid") (t_string r.my_user_uuid) p1 in
    set_key (ascii "streams") (t_obj (streams_json 0 streams empty_object)) p2

-- The two signals about streams, which differ in the command alone. The caller's map loses the
-- entry of this user; it is the second result.
unfoldable pub signal_streams : CmdType → ℕ → Streams → Room → Signalled × Streams
unfolding is_limited send_signal pull_params remove
signal_streams cmd now streams r = elim r.websocket_client [
  | none ↦ (refuse websocket_not_init r, streams)
  | some client ↦
      let others = remove r.my_user_uuid streams in
      if not (is_joined r)
      then (refuse conference_not_joined r, streams)
      else if is_empty others
      then (refuse invalid_params r, others)
      else if is_limited now r
      then (refuse reach_max_api_limit r, others)
      else (send_signal client cmd (pull_params others r) (started now r), others)
]

abbrev pub signal_start_pull_stream : ℕ → Streams → Room → Signalled × Streams
signal_start_pull_stream now streams r = signal_streams conference_pull_stream now streams r

abbrev pub signal_stop_pull_stream : ℕ → Streams → Room → Signalled × Streams
signal_stop_pull_stream now streams r = signal_streams conference_stop_pulling now streams r

unfoldable pub own_params : Text → Text → JsonObject
unfolding params_json assign
own_params conference_id user_uuid =
    params_json
      (assign (ascii "user_uuid") user_uuid (assign (ascii "conference_id") conference_id []))
      empty_object

-- The three signals that have the room and the user as their parameters.
unfoldable pub signal_own : CmdType → ℕ → Room → Signalled
unfolding is_limited send_signal own_params
signal_own cmd now r = elim r.websocket_client [
  | none ↦ refuse websocket_not_init r
  | some client ↦
      if not (is_joined r)
      then refuse conference_not_joined r
      else if is_limited now r
      then refuse reach_max_api_limit r
      else send_signal client cmd (own_params r.my_room_id r.my_user_uuid) (started now r)
]

abbrev pub signal_exit_conference : ℕ → Room → Signalled
signal_exit_conference now r = signal_own conference_exit now r

abbrev pub signal_stop_conference : ℕ → Room → Signalled
signal_stop_conference now r = signal_own conference_stop now r

abbrev pub signal_online_users : ℕ → Room → Signalled
signal_online_users now r = signal_own conference_online_users now r

-- The heartbeat looks at no state of the room but the client.
unfoldable pub signal_heartbeat : Text → Text → Room → Signalled
unfolding send_text app_get_request own_params
signal_heartbeat user_uuid conference_id r = elim r.websocket_client [
  | none ↦ refuse websocket_not_init r
  | some client ↦
      let text =
        app_get_request conference_heartbeat (ascii "0") (own_params conference_id user_uuid) in
      let (sent, calls) = send_text text client in
      record { code = if sent then ok else websocket_not_connected; room = r; calls = calls }
]
