-- ===== src/Room/Meeting/Handlers.antt =====
-- What a room does with the messages of the server. The field texts come from the message's
-- parameters; the log is left out.
pub mod Users
use Prim.Native.String.{String}
use rtc_client.Common.{
  ℕ, zero, suc, ◌+◌, Bool, true, false, not, ◌||◌, Option, none, some, List, [], ◌∷◌, if◌then◌else◌,
}
use rtc_client.Common.Text.{Text, Dict, ascii, same_text, lookup, assign, remove}
use rtc_client.Utils.{to_unsigned, string_to_int, string_to_long}
use rtc_client.Json.{JsonObject, get_key, get_index, as_string, as_object, array_size}
use rtc_client.PortManager.{PortManager}
use rtc_client.Rtp.VideoSession.{Setup}
use rtc_client.Room.User.{RoomUser, Network, create_user}
use rtc_client.Room.User
use rtc_client.Room.Meeting.{Room, Stream, add_sender_destination, stop_receive, remove_sender}

-- `struct OnlineUser` of src/application/app_event.h.
pub record OnlineUser : Type 0 where
  pub user_id : Text
  pub user_name : Text
  pub user_ip : Text
  pub user_uuid : Text
  pub video_ssrc : ℕ
  pub audio_ssrc : ℕ

-- The events that the callback is called with, and their data.
pub data Notice : Type 0 where
  conference_created : Notice
  conference_joined : Notice
  other_user_joined : OnlineUser → Notice
  online_users : List OnlineUser → Notice
  conference_left : Text → Notice
  user_gone_out : Text → Notice
  conference_stopped : Text → Notice
  conference_closed : Text → Notice

-- The system during a handler: how the sessions are set up, whether the receive thread starts,
-- the address of a text, and the network at each stream and SSRC of a message, and whether the user
-- of a uuid is allocated.
pub record Env : Type 0 where
  pub inet_addr : Text → ℕ
  pub audio_setup : Setup
  pub video_setup : Setup
  pub thread_started : Bool
  pub networks : ℕ → ℕ → Network
  pub allocated : Text → Bool

-- `ports` is the state of the one port manager.
pub record Handled : Type 0 where
  pub room : Room
  pub ports : PortManager
  pub notices : List Notice

abbrev pub notice_if : Room → Notice → List Notice
notice_if r n = if r.has_event_callback then n ∷ [] else []

unfoldable pub text_of : String → JsonObject → Text
unfolding get_key as_string
text_of key params = as_string (get_key (ascii key) params)

unfoldable pub ssrc_of : String → JsonObject → ℕ
unfolding text_of to_unsigned string_to_long
ssrc_of key params = to_unsigned 32 (string_to_long (text_of key params))

unfoldable pub port_of : String → JsonObject → ℕ
unfolding text_of to_unsigned string_to_int
port_of key params = to_unsigned 16 (string_to_int (text_of key params))

-- The stores of the parameters that `create` and `join` share.
unfoldable pub with_identity : JsonObject → Room → Room
unfolding text_of ssrc_of port_of
with_identity params r = record r {
  my_room_id = text_of "conference_id" params;
  my_ip_addr = text_of "user_ip" params;
  my_user_id = text_of "user_id" params;
  my_user_name = text_of "user_name" params;
  my_user_uuid = text_of "user_uuid" params;
  video_ssrc = ssrc_of "video_ssrc" params;
  audio_ssrc = ssrc_of "audio_ssrc" params;
  video_push_ip = text_of "push_video_ip" params;
  video_push_port = port_of "push_video_port" params;
  audio_push_ip = text_of "push_audio_ip" params;
  audio_push_port = port_of "push_audio_port" params;
}

unfoldable pub add_own_destination : Env → Room → Option Room
unfolding add_sender_destination
add_own_destination e r =
    let video : Stream = record {
      address = record { s_addr = e.inet_addr r.video_push_ip; port = r.video_push_port };
      sequence_start = 0;
      timestamp_start = 0;
      ssrc = r.video_ssrc;
    } in
    let audio : Stream = record {
      address = record { s_addr = e.inet_addr r.audio_push_ip; port = r.audio_push_port };
      sequence_start = 0;
      timestamp_start = 0;
      ssrc = r.audio_ssrc;
    } in
    add_sender_destination e.audio_setup e.video_setup video audio r

unfoldable pub start_receive : Env → Room → Room
start_receive e r =
    if r.receive_thread_running then r else record r { receive_thread_running = e.thread_started }

-- The stores, the destinations and the receive thread of a conference that begins.
unfoldable pub enter : Env → JsonObject → Room → Option Room
unfolding with_identity add_own_destination start_receive
enter e params r = elim (add_own_destination e (with_identity params r)) [
  | none ↦ none
  | some r' ↦ some (start_receive e r')
]

unfoldable pub on_ws_conference_create : Env → JsonObject → PortManager → Room → Option Handled
unfolding enter
on_ws_conference_create e params ports r = elim (enter e params r) [
  | none ↦ none
  | some r' ↦ some (record {
    room = record r' { is_signal_running = false };
    ports = ports;
    notices = notice_if r' conference_created;
  })
]

-- The reply to this client's request is told by its uuid or its user id.
unfoldable pub is_own_join : JsonObject → Room → Bool
unfolding text_of
is_own_join params r =
    same_text (text_of "user_uuid" params) r.my_user_uuid
    || same_text (text_of "user_id" params) r.my_user_id

unfoldable pub on_ws_conference_join : Env → JsonObject → PortManager → Room → Option Handled
unfolding enter is_own_join
on_ws_conference_join e params ports r =
    let entered : Option Room = if is_own_join params r then enter e params r else some r in
    elim entered [
      | none ↦ none
      | some r' ↦ some (record {
        room = record r' { is_signal_running = false };
        ports = ports;
        notices = notice_if r' conference_joined;
      })
    ]

unfoldable pub online_user : JsonObject → OnlineUser
unfolding text_of ssrc_of
online_user params = record {
  user_id = text_of "user_id" params;
  user_name = text_of "user_name" params;
  user_ip = text_of "user_ip" params;
  user_uuid = text_of "user_uuid" params;
  video_ssrc = ssrc_of "video_ssrc" params;
  audio_ssrc = ssrc_of "audio_ssrc" params;
}

-- The setters that follow `create_user`.
unfoldable pub described : OnlineUser → Room → RoomUser → RoomUser
described u r user = record user {
  user_id = u.user_id;
  user_name = u.user_name;
  user_ip_addr = u.user_ip;
  user_uuid = u.user_uuid;
  video_ssrc = u.video_ssrc;
  audio_ssrc = u.audio_ssrc;
  has_aac_callback = r.has_aac_callback;
  has_h264_callback = r.has_h264_callback;
  pinhole_uuid = r.my_user_uuid;
}

-- A user of the map is made where there is none of that uuid; `none` is a call through the null
-- pointer that `create_user` returns.
unfoldable pub add_user : Env → OnlineUser → Room → Option Room
unfolding create_user described lookup assign
add_user e u r = elim (lookup u.user_uuid r.other_users_map) [
  | some user ↦ some r
  | none ↦ elim (create_user (e.allocated u.user_uuid)) [
    | none ↦ none
    | some user ↦
        some
          (record r { other_users_map = assign u.user_uuid (described u r user) r.other_users_map })
  ]
]

unfoldable pub on_ws_conference_new_joined : Env → JsonObject → PortManager → Room → Option Handled
unfolding online_user add_user
on_ws_conference_new_joined e params ports r = elim (add_user e (online_user params) r) [
  | none ↦ none
  | some r' ↦ some (record {
    room = r';
    ports = ports;
    notices = notice_if r (other_user_joined (online_user params));
  })
]
