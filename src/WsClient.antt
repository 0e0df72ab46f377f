-- ===== src/WsClient.antt =====
-- `WSClient` of src/websocket/ws_client.cpp: the connection to the signalling server, over the
-- vendored mongoose, whose calls and events are arguments here. A connection is a number, and
-- `none` stands for a null pointer. The mutex, the manager and the logging are left out.
pub mod Connection
use rtc_client.Common.{
  ℕ, Bool, true, false, ◌&&◌, Option, none, some, List, [], ◌∷◌, ◌++◌, ltb, ◌==◌, bit_and,
  if◌then◌else◌,
}
use rtc_client.Common.Text.{Text}

-- The events of mongoose; the ones that the client does nothing with are `other_event`.
pub data Event : Type 0 where
  ws_open : Event
  ws_msg : ℕ → Text → Event
  close : Event
  error : Event
  ws_ctl : ℕ → Event
  other_event : Event

-- The calls that the client makes.
pub data Call : Type 0 where
  ws_connect : Call
  close_conn : ℕ → Call
  send_ping : Option ℕ → Call
  send_message : ℕ → Text → Call
  ws_func : Event → Call
  recv_func : Text → Call

pub record WsClient : Type 0 where
  pub connection : Option ℕ
  pub connected : Bool
  pub has_recv_func : Bool
  pub has_ws_func : Bool

abbrev pub new : WsClient
new = record { connection = none; connected = false; has_recv_func = false; has_ws_func = false }

unfoldable pub set_text_received_func : Bool → WsClient → WsClient
set_text_received_func func c = record c { has_recv_func = func }

unfoldable pub set_ws_event_func : Bool → WsClient → WsClient
set_ws_event_func func c = record c { has_ws_func = func }

unfoldable pub on_message_received : Text → WsClient → List Call
on_message_received text c = if c.has_recv_func then recv_func text ∷ [] else []

-- `wm->flags & 0x0F` is WEBSOCKET_OP_TEXT where it is 1.
unfoldable pub on_event_handle : Event → WsClient → WsClient × List Call
unfolding on_message_received
on_event_handle ws_open c =
    (record c { connected = true }, if c.has_ws_func then ws_func ws_open ∷ [] else [])
on_event_handle (ws_msg flags text) c =
    (c, if bit_and flags 0x0F == 1 then on_message_received text c else [])
on_event_handle close c = (
  record c { connection = none; connected = false },
  if c.has_ws_func then ws_func close ∷ [] else [],
)
on_event_handle error c = (c, [])
on_event_handle (ws_ctl flags) c = (c, [])
on_event_handle other_event c = (c, [])

-- Events that mongoose delivers one after the other.
unfoldable pub handle_all : List Event → WsClient → WsClient × List Call
unfolding on_event_handle
handle_all [] c = (c, [])
handle_all (e ∷ es) c =
    let (c', calls) = on_event_handle e c in
    let (c'', later) = handle_all es c' in (c'', calls ++ later)

-- What mongoose does within a call of `on_timer`: the events that `mg_close_conn` and
-- `mg_ws_connect` deliver before they return, and the connection that the latter returns.
pub record Connecting : Type 0 where
  pub while_closing : List Event
  pub while_connecting : List Event
  pub made : Option ℕ

unfoldable pub connect : Connecting → WsClient → WsClient × List Call
unfolding handle_all
connect m c =
    let (c', calls) = handle_all m.while_connecting c in
    (record c' { connection = m.made }, ws_connect ∷ calls)

unfoldable pub on_timer : Connecting → WsClient → WsClient × List Call
unfolding connect
on_timer m c = if c.connected then (c, send_ping c.connection ∷ []) else elim c.connection [
  | none ↦ connect m c
  | some conn ↦
      let (c', calls) = handle_all m.while_closing c in
      let (c'', later) = connect m (record c' { connection = none }) in
      (c'', close_conn conn ∷ (calls ++ later))
]

-- What `mg_mgr_poll` is called with.
unfoldable pub pulse : ℕ → ℕ
pulse timeout_ms = if ltb 1000 timeout_ms then 1000 else timeout_ms

-- The number that `mg_ws_send` returns is not looked at.
unfoldable pub send_text : Text → WsClient → Bool × List Call
send_text text c = elim c.connection [
  | none ↦ (false, [])
  | some conn ↦ if c.connected then (true, send_message conn text ∷ []) else (false, [])
]

abbrev pub is_connected : WsClient → Bool
is_connected c = c.connected
