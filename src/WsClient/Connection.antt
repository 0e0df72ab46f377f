-- ===== src/WsClient/Connection.antt =====
-- The states that a client can be in, and how it gets its connection back.
use rtc_client.Common.{
  ℕ, ◌≡◌, refl, Bool, true, false, none, some, List, [], ◌∷◌, arith, if◌then◌else◌, inl, inr,
  Bool-cases, Option-cases,
}
use rtc_client.Common.Text.{Text}
use rtc_client.WsClient.{
  Event, ws_open, ws_msg, close, error, ws_ctl, other_event, send_ping, send_message, WsClient, new,
  set_text_received_func, set_ws_event_func, on_event_handle, handle_all, Connecting, connect,
  on_timer, send_text, is_connected,
}

-- Whether an event can be delivered before the handshake.
abbrev pub is_early : Event → Bool
is_early ws_open = false
is_early (ws_msg flags text) = true
is_early close = true
is_early error = true
is_early (ws_ctl flags) = true
is_early other_event = true

abbrev pub all_early : List Event → Bool
all_early [] = true
all_early (e ∷ es) = if is_early e then all_early es else false

-- A handshake needs bytes of the peer, which come with a later poll.
pub record IsEarly (m : Connecting) : Type 0 where
  pub closing : all_early m.while_closing ≡ true
  pub connecting : all_early m.while_connecting ≡ true

abbrev pub HasConnection : WsClient → Type 0
HasConnection c = (conn : ℕ) × (c.connection ≡ some conn)

-- The clients that the room can come to hold: an event comes from the connection that there is.
pub data Reachable : WsClient → Type 0 where
  start :
      (text_func ws_func : Bool)
      → Reachable (set_ws_event_func ws_func (set_text_received_func text_func new))
  timer : (c : WsClient) (m : Connecting) → Reachable c → IsEarly m → Reachable (on_timer m c).0
  event :
      (c : WsClient) (e : Event) → Reachable c → HasConnection c → Reachable (on_event_handle e c).0

handle-connected :
    (e : Event) (c : WsClient)
    → is_early e ≡ true
    → c.connected ≡ false
    → (on_event_handle e c).0.connected ≡ false
unfolding on_event_handle
handle-connected ws_open c h off = ground (arith, h)
handle-connected (ws_msg flags text) c h off = off
handle-connected close c h off = refl
handle-connected error c h off = off
handle-connected (ws_ctl flags) c h off = off
handle-connected other_event c h off = off

handle_all-connected :
    (es : List Event) (c : WsClient)
    → all_early es ≡ true
    → c.connected ≡ false
    → (handle_all es c).0.connected ≡ false
unfolding handle_all
handle_all-connected [] c h off = off
handle_all-connected (e ∷ es) c h off =
    handle_all-connected es (on_event_handle e c).0 (ground (arith, h))
      (handle-connected e c (ground (arith, h)) off)

connect-connected :
    (m : Connecting) (c : WsClient)
    → IsEarly m
    → c.connected ≡ false
    → ((connect m c).0.connected ≡ false) × ((connect m c).0.connection ≡ m.made)
unfolding connect
connect-connected m c early off =
    (handle_all-connected m.while_connecting c early.connecting off, refl)

-- A timer on a client that is not connected leaves it with the connection that was made.
on_timer-made :
    (m : Connecting) (c : WsClient)
    → IsEarly m
    → c.connected ≡ false
    → ((on_timer m c).0.connected ≡ false) × ((on_timer m c).0.connection ≡ m.made)
unfolding on_timer
on_timer-made m c early off = elim (Option-cases c.connection) [
  | inl e ↦ ground (arith, off, e, connect-connected m c early off)
  | inr (conn, e) ↦
      let closed : WsClient = record (handle_all m.while_closing c).0 { connection = none } in
      ground (
        arith,
        off,
        e,
        connect-connected m closed early (handle_all-connected m.while_closing c early.closing off),
      )
]

on_timer-connected :
    (m : Connecting) (c : WsClient)
    → c.connected ≡ true
    → on_timer m c ≡ (c, send_ping c.connection ∷ [])
unfolding on_timer
on_timer-connected m c on = ground (arith, on)

handle-HasConnection :
    (e : Event) (c : WsClient)
    → HasConnection c
    → (on_event_handle e c).0.connected ≡ true
    → HasConnection (on_event_handle e c).0
unfolding on_event_handle
handle-HasConnection ws_open c h on = h
handle-HasConnection (ws_msg flags text) c h on = h
handle-HasConnection close c h on = absurd (ground (arith, on))
handle-HasConnection error c h on = h
handle-HasConnection (ws_ctl flags) c h on = h
handle-HasConnection other_event c h on = h

Reachable-HasConnection : {c : WsClient} → Reachable c → c.connected ≡ true → HasConnection c
unfolding set_ws_event_func set_text_received_func
Reachable-HasConnection (Reachable.start f g) on = absurd (ground (arith, on))
Reachable-HasConnection (Reachable.timer c m r early) on = elim (Bool-cases c.connected) [
  | inl was ↦ rw (on_timer-connected m c was) (Reachable-HasConnection r was)
  | inr off ↦ absurd (ground (arith, on, on_timer-made m c early off))
]
Reachable-HasConnection (Reachable.event c e r h) on = handle-HasConnection e c h on

-- In every client that can be reached, `send_text` succeeds exactly when `is_connected` is true,
-- and then its one call sends the message over the connection that the client has.
pub Reachable-send_text :
    (c : WsClient) (text : Text)
    → Reachable c
    → ((send_text text c).0 ≡ is_connected c)
      × (is_connected c ≡ true
          → (conn : ℕ) × (c.connection ≡ some conn)
            × (send_text text c ≡ (true, send_message conn text ∷ [])))
unfolding send_text
Reachable-send_text c text r = elim (Bool-cases c.connected) [
  | inl on ↦
      let (conn, e) = Reachable-HasConnection r on in
      (ground (arith, on, e), λ again. (conn, e, ground (arith, on, e)))
  | inr off ↦ elim (Option-cases c.connection) [
    | inl e ↦ (ground (arith, off, e), λ on. absurd (ground (arith, on, off)))
    | inr (conn, e) ↦ (ground (arith, off, e), λ on. absurd (ground (arith, on, off)))
  ]
]

-- A timer that finds any client without a handshake, and that makes a connection, is enough for
-- the next handshake to leave a client that sends over that connection.
pub on_timer-reconnects :
    (c : WsClient) (m : Connecting) (conn : ℕ) (text : Text)
    → c.connected ≡ false
    → IsEarly m
    → m.made ≡ some conn
    → ((on_timer m c).0.connected ≡ false)
      × (send_text text (on_event_handle ws_open (on_timer m c).0).0
          ≡ (true, send_message conn text ∷ []))
unfolding on_event_handle send_text
on_timer-reconnects c m conn text off early e =
    let (still, made) = on_timer-made m c early off in (still, rw (made, e) refl)
