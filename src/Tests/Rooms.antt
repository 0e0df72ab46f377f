-- ===== src/Tests/Rooms.antt =====
-- The theorems on the sessions, the users and the room at concrete inputs.
use rtc_client.Common.{
  ℕ, ◌<◌, ◌%◌, ◌^◌, ◌≡◌, ◌≢◌, refl, true, false, Option, none, some, List, [], ◌∷◌, All, arith,
  length,
}
use rtc_client.Common.Memory.{of_list, read}
use rtc_client.Common.Text.{Text, ascii, same_text}
use rtc_client.Codec.StartCode.{avc_find_start_code}
use rtc_client.Json.{JsonObject, empty_object, get_key, find, as_string, set_key, t_string}
use rtc_client.Command.{conference_user_gone}
use rtc_client.PortManager.{PortManager}
use rtc_client.PortManager
use rtc_client.Rtp.Packet.{fresh, parse}
use rtc_client.Rtp.Assembler.{Assembler}
use rtc_client.Rtp.H264Builder.{send_data, send_loop, skip_code}
use rtc_client.Rtp.H264Builder
use rtc_client.Rtp.AacBuilder
use rtc_client.Rtp.AacBuilder.RoundTrip.{Ready}
use rtc_client.Rtp.Loopback.Parse.{received}
use rtc_client.Rtp.Loopback.Stream.{AllUnits, sent_frames}
use rtc_client.Rtp.Transmitter.{Transmitter, Address}
use rtc_client.Rtp.AudioSession.{AudioSession, send_aac_data}
use rtc_client.Rtp.AudioSession.Delivery.{send_aac_data-parse}
use rtc_client.Rtp.VideoSession.{VideoSession, Setup, Sent, send_h264_data}
use rtc_client.Rtp.VideoSession.Delivery.{IsReliable}
use rtc_client.WsClient.{WsClient}
use rtc_client.Room.User.{RoomUser, Network}
use rtc_client.Room.User.Media.{watch, with_media}
use rtc_client.Room.User.Delivery.{wire, send_h264_data-watch}
use rtc_client.Room.Meeting.{Room, Startup}
use rtc_client.Room.Meeting
use rtc_client.Room.Meeting.Handlers.{Env, Handled, text_of}
use rtc_client.Room.Meeting.Handlers.Users.{[]-IsKeyed}
use rtc_client.Room.Meeting.Leaving.{leave}
use rtc_client.Room.Meeting.Signals.{
  Code, ok, conference_already_joined, signal_create_conference, signal_join_conference,
  has_identity, signal_own, is_limited, send_signal, get_new_uuid,
}
use rtc_client.WsClient.{send_text}
use rtc_client.Room.Meeting.Signals.Limits.{exit, users, create, signal}
use rtc_client.Room.Meeting.Dispatch.{handle_command, on_websocket_message}
use rtc_client.Room.Meeting.Dispatch.Members.{IsSound, Follows}
use rtc_client.Room.Meeting.Dispatch.Sound.{handle_command-Follows}
use rtc_client.Room.Meeting.Dispatch.Life.{Life, Life-message}
use rtc_client.Room.Meeting.Dispatch.Silence.{leave-run, initialize-joined}
use rtc_client.Room.Meeting.Dispatch.Waiting.{call, answer, run, signal-waits}
use rtc_client.Tests.Data.{h264_builder, stream, parameter_set}

-- A system that sends everything.
abbrev send_all : Address → List ℕ → Option ℕ
send_all d bytes = some (length bytes)

send_all-IsReliable : IsReliable send_all
send_all-IsReliable d bytes = ground arith

abbrev server : Address
server = record { s_addr = 16777343; port = 9000 }

abbrev transmitter : Transmitter
transmitter = record {
  initialize = true;
  bind_ip = 0;
  bind_port = 20000;
  is_open = true;
  destinations = server ∷ [];
}

abbrev idle_builder : H264Builder.Builder
idle_builder = record h264_builder { nalu_vec = [] }

abbrev filled_builder : H264Builder.Builder
filled_builder = record h264_builder { nalu_vec = (0x67 ∷ 1 ∷ []) ∷ (0x65 ∷ 0x88 ∷ 0 ∷ []) ∷ [] }

abbrev video_session : VideoSession
video_session = record {
  initialize = true;
  builder = some idle_builder;
  transmitter = some transmitter;
}

abbrev viewer : RoomUser
viewer = record {
  video_initialize = true;
  audio_initialize = false;
  bind_major_port = 20002;
  bind_audio_port = 0;
  major_receiver = none;
  audio_receiver = none;
  assembler = none;
  rtp_buffer = none;
  user_id = ascii "2";
  user_name = ascii "b";
  user_ip_addr = ascii "127.0.0.1";
  user_uuid = ascii "u2";
  video_ssrc = 7;
  audio_ssrc = 8;
  pinhole_uuid = ascii "u1";
  has_h264_callback = true;
  has_aac_callback = true;
}

abbrev started : Assembler
started = record { initialize = true; frame = [] }

stream_units : send_data stream 0 12 idle_builder ≡ some (true, filled_builder)
unfolding send_data avc_find_start_code read
stream_units = refl

filled-AllUnits : AllUnits filled_builder.nalu_vec
filled-AllUnits = (
  record { long = omega arith; byte = omega arith; type = omega arith },
  (record { long = omega arith; byte = omega arith; type = omega arith }, tt),
)

send_h264_data-watch_example :
    (sent : Sent) × (a' : Assembler) × (send_h264_data send_all 40 stream 0 12 video_session
      ≡ some sent)
    × (sent.ok ≡ true)
    × (watch (with_media viewer started []) (wire sent.sendings)
        ≡ some (
          record { bytes = sent_frames filled_builder.nalu_vec; ssrc = 7; timestamp = 40 } ∷ [],
          with_media viewer a' [],
        ))
send_h264_data-watch_example =
    send_h264_data-watch send_all 40 stream 0 12 video_session idle_builder filled_builder
      transmitter viewer started send_all-IsReliable refl refl refl stream_units (omega arith)
      filled-AllUnits (omega arith) (omega arith) (omega arith) (omega arith) refl refl

abbrev aac_builder : AacBuilder.Builder
aac_builder = record {
  initialize = true;
  ssrc = 7;
  sequence = 70000;
  timestamp = 1024;
  packet = none;
}

abbrev audio_session : AudioSession
audio_session = record {
  initialize = true;
  builder = some aac_builder;
  transmitter = some transmitter;
}

send_aac_data-parse_example :
    (bytes : List ℕ) × (b' : AacBuilder.Builder) × (send_aac_data send_all 40 parameter_set
        audio_session
      ≡ some (record {
        ok = true;
        session = record audio_session { builder = some b' };
        sendings = record { bytes = bytes; called = server ∷ [] } ∷ [];
      }))
    × Ready b'
    × (b'.sequence ≡ 70001 % 2 ^ 32)
    × (parse fresh (of_list bytes) (length bytes) ≡ (true, received 97 70000 40 7 parameter_set))
send_aac_data-parse_example =
    send_aac_data-parse send_all 40 parameter_set audio_session aac_builder transmitter fresh
      send_all-IsReliable refl refl refl
      (record {
        initialize = refl;
        sequence = omega arith;
        timestamp = omega arith;
        ssrc = omega arith;
      })
      (omega arith) (omega arith)

abbrev client : WsClient
client = record { connection = some 1; connected = true; has_recv_func = true; has_ws_func = true }

-- A room that has joined.
abbrev room : Room
room = record (Meeting.new 7 8 0 0) {
  initialized = true;
  websocket_client = some client;
  my_room_id = ascii "r1";
  my_user_uuid = ascii "u1";
  has_event_callback = true;
}

room-IsSound : IsSound room
room-IsSound = record { users = []-IsKeyed; senders = record { audio = refl; video = refl } }

abbrev setup : Setup
setup = record { allocated = true; free_port = 20000; socket_made = true; bound = true }

abbrev network : Network
network = record { check = λ port. true; transmitter_ok = λ port. true }

abbrev env : Env
env = record {
  inet_addr = length;
  audio_setup = setup;
  video_setup = setup;
  thread_started = true;
  networks = λ i j. network;
  allocated = λ uuid. true;
}

abbrev same_texts : Text → Text × Text
same_texts t = (t, t)

abbrev online : Text
online =
    ascii
      "{\"code\":\"200\",\"opcode\":\"2000\",\"params\":{\"online_users\":[{\"user_uuid\":\"u2\"}]}}"

abbrev startup : Startup
startup = record { thread_started = true; audio_made = true; video_made = true }

abbrev fresh_room : Room
fresh_room = (Meeting.initialize startup (Meeting.new 7 8 0 0)).1

online_short : length online < 2 ^ 32
unfolding ascii
online_short = omega arith

Life-message_example :
    (h : Handled) × (on_websocket_message env same_texts online PortManager.new fresh_room ≡ some h)
    × IsSound h.room
Life-message_example =
    Life-message fresh_room env same_texts online PortManager.new (λ uuid. refl) online_short
      (Life.begun (Meeting.new 7 8 0 0) startup (Life.born 7 8 0 0))

abbrev gone : JsonObject
gone = set_key (ascii "user_uuid") (t_string (ascii "u2")) empty_object

handle_command-Follows_example :
    (h : Handled) × (handle_command env conference_user_gone gone PortManager.new room ≡ some h)
    × Follows conference_user_gone gone room h.room
handle_command-Follows_example =
    handle_command-Follows env conference_user_gone gone PortManager.new room (λ uuid. refl)
      room-IsSound

sent_users : (signal users 100 room).code ≡ ok
unfolding signal signal_own is_limited send_signal get_new_uuid send_text ascii
sent_users = refl

no_code : same_text (text_of "code" empty_object) (ascii "200") ≡ false
unfolding text_of get_key find as_string same_text ascii
no_code = refl

signal-waits_example :
    (codes : List Code) × (run env PortManager.new
        (answer empty_object ∷ call exit 105 ∷ [])
        (signal users 100 room).room
      ≡ some (codes, (signal users 100 room).room))
    × All (λ c. c ≢ ok) codes
signal-waits_example =
    signal-waits env PortManager.new users 100 room (answer empty_object ∷ call exit 105 ∷ [])
      sent_users (no_code, ((omega arith, omega arith, omega arith), tt))

leave-run_example :
    (codes : List Code) × (r' : Room) × (run env PortManager.new
        (call (create (ascii "1") (ascii "a")) 200 ∷ [])
        (leave room)
      ≡ some (codes, r'))
    × (Meeting.send_h264_data send_all 40 stream 0 12 r' ≡ some ([], r'))
    × (Meeting.send_aac_data send_all 40 parameter_set r' ≡ some ([], r'))
leave-run_example =
    leave-run env PortManager.new (call (create (ascii "1") (ascii "a")) 200 ∷ []) room send_all 40
      stream 0 12 parameter_set (λ uuid. refl)

abbrev anew : Room
anew = (Meeting.initialize startup (Meeting.un_initialize room)).1

has_room : has_identity room ≡ true
unfolding ascii
has_room = refl

was_started : (Meeting.initialize startup (Meeting.un_initialize room)).0 ≡ true
unfolding Meeting.initialize Meeting.free_context
was_started = refl

initialize-joined_example :
    ((signal_create_conference 200 (ascii "1") (ascii "a") anew).code ≡ conference_already_joined)
    × ((signal_join_conference 200 (ascii "r2") (ascii "1") (ascii "a") anew).code
        ≡ conference_already_joined)
    × (anew.other_users_map ≡ [])
initialize-joined_example =
    initialize-joined startup room 200 (ascii "r2") (ascii "1") (ascii "a") has_room was_started
