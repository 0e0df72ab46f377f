-- ===== src/Room/Meeting/Dispatch.antt =====
-- The callbacks of the client: what a room does with a message, and with an event.
pub mod Waiting
pub mod Members
pub mod Steps
pub mod Sound
pub mod Silence
pub mod Life
use rtc_client.Common.{
  ℕ, Bool, true, false, not, ◌&&◌, Option, none, some, List, [], ◌∷◌, ◌++◌, ◌==◌, if◌then◌else◌,
}
use rtc_client.Common.Text.{Text, ascii, same_text}
use rtc_client.Utils.{ℤ, pos, negsuc, string_to_int}
use rtc_client.Json.{JsonObject, get_key, as_object, empty_object}
use rtc_client.Json.Reader.{Read, done, refused, stuck, read_from_string}
use rtc_client.Command.{
  CmdType, conference_create, conference_join, conference_new_joined, conference_pull_stream,
  conference_stop_pulling, conference_exit, conference_user_gone, conference_stop,
  conference_closing, conference_online_users, conference_kick_out, conference_heartbeat,
  cmd_number,
}
use rtc_client.PortManager.{PortManager}
use rtc_client.WsClient.{Event}
use rtc_client.Room.Meeting.{Room}
use rtc_client.Room.Meeting.Handlers.{
  Env, Handled, text_of, on_ws_conference_create, on_ws_conference_join,
  on_ws_conference_new_joined,
}
use rtc_client.Room.Meeting.Online.{
  on_ws_conference_pull_stream, on_ws_conference_stop_pulling, on_ws_conference_online_users,
}
use rtc_client.Room.Meeting.Leaving.{
  on_ws_conference_exit, on_ws_conference_stop, on_ws_conference_closing,
  on_ws_conference_user_gone,
}

-- The events that are passed to the signal callback.
unfoldable pub on_websocket_event : Event → Room → List Event
on_websocket_event event r = if r.has_signal_callback then event ∷ [] else []

abbrev pub unchanged : PortManager → Room → Handled
unchanged ports r = record { room = r; ports = ports; notices = [] }

-- The command of a message's `opcode`.
unfoldable pub command_of : ℤ → Option CmdType
command_of (negsuc n) = none
command_of (pos n) =
    if n == cmd_number conference_create
    then some conference_create
    else if n == cmd_number conference_join
    then some conference_join
    else if n == cmd_number conference_new_joined
    then some conference_new_joined
    else if n == cmd_number conference_pull_stream
    then some conference_pull_stream
    else if n == cmd_number conference_stop_pulling
    then some conference_stop_pulling
    else if n == cmd_number conference_exit
    then some conference_exit
    else if n == cmd_number conference_user_gone
    then some conference_user_gone
    else if n == cmd_number conference_stop
    then some conference_stop
    else if n == cmd_number conference_closing
    then some conference_closing
    else if n == cmd_number conference_online_users
    then some conference_online_users
    else if n == cmd_number conference_heartbeat
    then some conference_heartbeat
    else none

-- The cases of the `switch`; the one of `closing` goes on to the heartbeat's, which does nothing.
unfoldable pub handle_command : Env → CmdType → JsonObject → PortManager → Room → Option Handled
unfolding on_ws_conference_create on_ws_conference_join
handle_command e conference_create params ports r = on_ws_conference_create e params ports r
handle_command e conference_join params ports r = on_ws_conference_join e params ports r
handle_command e conference_new_joined params ports r = on_ws_conference_new_joined e params ports r
handle_command e conference_pull_stream params ports r =
    some (on_ws_conference_pull_stream e params ports r)
handle_command e conference_stop_pulling params ports r =
    some (on_ws_conference_stop_pulling ports r)
handle_command e conference_exit params ports r = some (on_ws_conference_exit params ports r)
handle_command e conference_user_gone params ports r =
    some (on_ws_conference_user_gone params ports r)
handle_command e conference_stop params ports r = some (on_ws_conference_stop params ports r)
handle_command e conference_closing params ports r = some (on_ws_conference_closing params ports r)
handle_command e conference_online_users params ports r =
    on_ws_conference_online_users e params ports r
handle_command e conference_kick_out params ports r = some (unchanged ports r)
handle_command e conference_heartbeat params ports r = some (unchanged ports r)

-- A message that has been read; only the code "200" is handled.
unfoldable pub on_json : Env → JsonObject → PortManager → Room → Option Handled
unfolding text_of command_of handle_command string_to_int
on_json e json ports r =
    if not (same_text (text_of "code" json) (ascii "200"))
    then some (unchanged ports r)
    else elim (command_of (string_to_int (text_of "opcode" json))) [
      | none ↦ some (unchanged ports r)
      | some cmd ↦ handle_command e cmd (as_object (get_key (ascii "params") json)) ports r
    ]

-- `none` is a read through a null pointer, or a text too long for the model of the reader.
unfoldable pub on_websocket_message :
    Env → (Text → Text × Text) → Text → PortManager → Room → Option Handled
unfolding on_json read_from_string
on_websocket_message e double_texts message ports r =
    elim (read_from_string double_texts empty_object message) [
      | done json left ↦ on_json e json ports r
      | refused ↦ some (unchanged ports r)
      | stuck ↦ none
    ]
