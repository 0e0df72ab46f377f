-- ===== src/Room/Meeting.antt =====
-- `LiveMeetingRoom` of src/application/app_meeting_room.cpp: the conference that this client is
-- in. The threads and the mutex are left out: an operation is one step.
pub mod Signals
pub mod Handlers
pub mod Receiving
pub mod Senders
pub mod Online
pub mod Leaving
pub mod Dispatch
use rtc_client.Common.{
  ℕ, ◌+◌, ◌%◌, ◌^◌, Bool, true, false, not, ◌||◌, Option, none, some, List, [], ◌∷◌, if◌then◌else◌,
}
use rtc_client.Common.Memory.{Memory}
use rtc_client.Common.Text.{Text, Dict}
use rtc_client.Rtp.Transmitter.{Address}
use rtc_client.Rtp.AudioSession.{AudioSession}
use rtc_client.Rtp.AudioSession
use rtc_client.Rtp.VideoSession.{VideoSession, Setup}
use rtc_client.Rtp.VideoSession
use rtc_client.WsClient.{WsClient, set_text_received_func, set_ws_event_func, is_connected}
use rtc_client.WsClient
use rtc_client.Room.User.{RoomUser}

-- `uuid_generator` is the `g_uuid_generator` of src/application/app_util.cpp.
pub record Room : Type 0 where
  pub initialized : Bool
  pub ws_thread_running : Bool
  pub websocket_client : Option WsClient
  pub other_users_map : Dict RoomUser
  pub receive_thread_running : Bool
  pub rtp_audio_sender : Option AudioSession
  pub rtp_video_sender : Option VideoSession
  pub rtp_send_initialized : Bool
  pub my_room_id : Text
  pub my_ip_addr : Text
  pub my_user_id : Text
  pub my_user_name : Text
  pub my_user_uuid : Text
  pub video_ssrc : ℕ
  pub audio_ssrc : ℕ
  pub video_push_ip : Text
  pub video_push_port : ℕ
  pub audio_push_ip : Text
  pub audio_push_port : ℕ
  pub is_signal_running : Bool
  pub prev_signal_time : ℕ
  pub has_event_callback : Bool
  pub has_signal_callback : Bool
  pub has_h264_callback : Bool
  pub has_aac_callback : Bool
  pub uuid_generator : ℕ

-- The constructor leaves the SSRCs and the ports as the memory has them.
abbrev pub new : ℕ → ℕ → ℕ → ℕ → Room
new video_ssrc audio_ssrc video_push_port audio_push_port = record {
  initialized = false;
  ws_thread_running = false;
  websocket_client = none;
  other_users_map = [];
  receive_thread_running = false;
  rtp_audio_sender = none;
  rtp_video_sender = none;
  rtp_send_initialized = false;
  my_room_id = [];
  my_ip_addr = [];
  my_user_id = [];
  my_user_name = [];
  my_user_uuid = [];
  video_ssrc = video_ssrc;
  audio_ssrc = audio_ssrc;
  video_push_ip = [];
  video_push_port = video_push_port;
  audio_push_ip = [];
  audio_push_port = audio_push_port;
  is_signal_running = false;
  prev_signal_time = 0;
  has_event_callback = false;
  has_signal_callback = false;
  has_h264_callback = false;
  has_aac_callback = false;
  uuid_generator = 0;
}

-- What the end of the client's connection calls is not looked at.
unfoldable pub free_context : Room → Room
free_context r = record r {
  ws_thread_running = false;
  receive_thread_running = false;
  websocket_client = none;
  rtp_audio_sender = none;
  rtp_video_sender = none;
  other_users_map = [];
  rtp_send_initialized = false;
  initialized = false;
}

abbrev pub un_initialize : Room → Room
un_initialize r = free_context r

unfoldable pub is_signal_connected : Room → Bool
is_signal_connected r = elim r.websocket_client [ none ↦ false | some c ↦ is_connected c ]

unfoldable pub stop_receive : Room → Room
stop_receive r = record r { receive_thread_running = false }

unfoldable pub set_event_callback_func : Bool → Room → Room
set_event_callback_func func r = record r { has_event_callback = func }

unfoldable pub set_signal_callback_func : Bool → Room → Room
set_signal_callback_func func r = record r { has_signal_callback = func }

unfoldable pub set_h264_receive_callback : Bool → Room → Room
set_h264_receive_callback func r = record r { has_h264_callback = func }

unfoldable pub set_aac_receive_callback : Bool → Room → Room
set_aac_receive_callback func r = record r { has_aac_callback = func }

-- What the system does during `initialize`: whether the thread starts, and whether the memory of
-- the sessions is allocated. The client is made by a `new` that throws where it fails.
pub record Startup : Type 0 where
  pub thread_started : Bool
  pub audio_made : Bool
  pub video_made : Bool

-- A client with the room's callbacks.
abbrev pub new_client : WsClient
new_client = set_ws_event_func true (set_text_received_func true WsClient.new)

unfoldable pub initialize : Startup → Room → Bool × Room
unfolding free_context
initialize e r =
    let fresh = if r.initialized then free_context r else r in
    let opened = record fresh { websocket_client = some new_client; ws_thread_running = true } in
    let with_audio = record opened { rtp_audio_sender = some AudioSession.new } in
    if not e.thread_started
    then (false, free_context (record opened { ws_thread_running = false }))
    else if not e.audio_made
    then (false, free_context (record opened { rtp_audio_sender = none }))
    else if not e.video_made
    then (false, free_context (record with_audio { rtp_video_sender = none }))
    else (true, record with_audio { rtp_video_sender = some VideoSession.new; initialized = true })

-- The data go to the session, whose result is not looked at. `none` is as in the sessions.
unfoldable pub send_h264_data :
    (Address → List ℕ → Option ℕ)
    → ℕ
    → Memory
    → ℕ
    → ℕ
    → Room
    → Option (List VideoSession.Sending × Room)
unfolding VideoSession.send_h264_data
send_h264_data sendto now_ms m base len r = elim r.rtp_video_sender [
  | none ↦ some ([], r)
  | some s ↦ elim (VideoSession.send_h264_data sendto now_ms m base len s) [
    | none ↦ none
    | some sent ↦ some (sent.sendings, record r { rtp_video_sender = some sent.session })
  ]
]

unfoldable pub send_aac_data :
    (Address → List ℕ → Option ℕ) → ℕ → List ℕ → Room → Option (List VideoSession.Sending × Room)
unfolding AudioSession.send_aac_data
send_aac_data sendto now_ms frame r = elim r.rtp_audio_sender [
  | none ↦ some ([], r)
  | some s ↦ elim (AudioSession.send_aac_data sendto now_ms frame s) [
    | none ↦ none
    | some sent ↦ some (sent.sendings, record r { rtp_audio_sender = some sent.session })
  ]
]

-- Where data are sent to, and as what: the video's or the audio's parameters of
-- `add_sender_destination`.
pub record Stream : Type 0 where
  pub address : Address
  pub sequence_start : ℕ
  pub timestamp_start : ℕ
  pub ssrc : ℕ

-- The `init` of both sessions; `false` is where one of them fails.
unfoldable pub init_senders :
    Setup → Setup → Stream → Stream → AudioSession → VideoSession → Room → Bool × Room
unfolding AudioSession.init VideoSession.init
init_senders audio_setup video_setup video audio a v r =
    let (audio_ok, a') =
      AudioSession.init audio_setup audio.sequence_start audio.timestamp_start audio.ssrc a in
    let (video_ok, v') =
      VideoSession.init video_setup video.sequence_start video.timestamp_start video.ssrc v in
    let with_audio = record r { rtp_audio_sender = some a' } in
    let with_both = record with_audio { rtp_video_sender = some v' } in
    if r.rtp_send_initialized
    then (true, r)
    else if not audio_ok
    then (false, with_audio)
    else if not video_ok
    then (false, with_both)
    else (true, record with_both { rtp_send_initialized = true })

-- The destinations that are added to the sessions that there are.
unfoldable pub add_destinations : Stream → Stream → Room → Option Room
unfolding AudioSession.add_destination VideoSession.add_destination
add_destinations video audio r = elim r.rtp_audio_sender [
  | none ↦ none
  | some a ↦ elim (AudioSession.add_destination audio.address a) [
    | none ↦ none
    | some (audio_ok, a') ↦ elim r.rtp_video_sender [
      | none ↦ none
      | some v ↦ elim (VideoSession.add_destination video.address v) [
        | none ↦ none
        | some (video_ok, v') ↦
            some (record r { rtp_audio_sender = some a'; rtp_video_sender = some v' })
      ]
    ]
  ]
]

unfoldable pub add_sender_destination : Setup → Setup → Stream → Stream → Room → Option Room
unfolding init_senders add_destinations
add_sender_destination audio_setup video_setup video audio r = elim r.rtp_audio_sender [
  | none ↦ some r
  | some a ↦ elim r.rtp_video_sender [
    | none ↦ some r
    | some v ↦
        let (ok, r') = init_senders audio_setup video_setup video audio a v r in
        if not ok then some r' else add_destinations video audio r'
  ]
]

unfoldable pub remove_sender : Room → Room
remove_sender r = record r {
  rtp_send_initialized = false;
  rtp_audio_sender = none;
  rtp_video_sender = none;
}
