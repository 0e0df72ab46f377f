-- ===== src/Room/Meeting/Dispatch/Waiting.antt =====
-- What a room does between a signal and the answer to it.
use rtc_client.Common.{
  ℕ, ◌+◌, ◌^◌, ◌≤◌, ◌<◌, ◌≡◌, ◌≢◌, refl, true, false, Option, none, some, List, [], ◌∷◌, All, arith,
}
use rtc_client.Common.Text.{ascii, same_text}
use rtc_client.Json.{JsonObject}
use rtc_client.PortManager.{PortManager}
use rtc_client.Room.Meeting.{Room}
use rtc_client.Room.Meeting.Handlers.{Env, text_of}
use rtc_client.Room.Meeting.Signals.{Code, ok}
use rtc_client.Room.Meeting.Signals.Limits.{
  Signal, signal, signal-Refused, signal-Kept, is_limited_soon,
}
use rtc_client.Room.Meeting.Dispatch.{on_json, unchanged}

-- A signal at a time, or a message of the server.
pub data Step : Type 0 where
  call : Signal → ℕ → Step
  answer : JsonObject → Step

-- The codes of the signals in order, and the room behind the last step.
unfoldable pub run : Env → PortManager → List Step → Room → Option (List Code × Room)
unfolding signal on_json
run e ports [] r = some ([], r)
run e ports (call s now ∷ steps) r = elim (run e ports steps (signal s now r).room) [
  | none ↦ none
  | some (codes, r') ↦ some ((signal s now r).code ∷ codes, r')
]
run e ports (answer json ∷ steps) r = elim (on_json e json ports r) [
  | none ↦ none
  | some h ↦ run e h.ports steps h.room
]

-- Signals less than six seconds after a time, and messages with another code than "200".
abbrev pub IsEarly : ℕ → Step → Type 0
IsEarly t (call s now) = (t ≤ now) × (now < t + 6) × (now < 2 ^ 64)
IsEarly t (answer json) = same_text (text_of "code" json) (ascii "200") ≡ false

on_json-error :
    (e : Env) (json : JsonObject) (ports : PortManager) (r : Room)
    → same_text (text_of "code" json) (ascii "200") ≡ false
    → on_json e json ports r ≡ some (unchanged ports r)
unfolding on_json
on_json-error e json ports r h = ground (arith, h)

run-early :
    (e : Env) (ports : PortManager) (t : ℕ) (steps : List Step) (r : Room)
    → r.is_signal_running ≡ true
    → r.prev_signal_time ≡ t
    → All (IsEarly t) steps
    → (codes : List Code) × (run e ports steps r ≡ some (codes, r)) × All (λ c. c ≢ ok) codes
unfolding run
run-early e ports t [] r i at h = ([], refl, tt)
run-early e ports t (call s now ∷ steps) r i at (h, hs) =
    let (codes, f, all) = run-early e ports t steps r i at hs in
    let refused = signal-Refused s now r (is_limited_soon now t r i at h.0 h.1 h.2) in
    ((signal s now r).code ∷ codes, rw (refused.room, f) refl, (refused.code, all))
run-early e ports t (answer json ∷ steps) r i at (h, hs) =
    let (codes, f, all) = run-early e ports t steps r i at hs in
    (codes, ground (arith, on_json-error e json ports r h, f), all)

-- Behind a signal that was sent no other signal but the heartbeat, which is not looked at here, is
-- sent for six seconds of processor time, and the room stays as it is, whatever answers with another code than "200" arrive meanwhile.
pub signal-waits :
    (e : Env) (ports : PortManager) (s : Signal) (t : ℕ) (r : Room) (steps : List Step)
    → (signal s t r).code ≡ ok
    → All (IsEarly t) steps
    → (codes : List Code) × (run e ports steps (signal s t r).room
        ≡ some (codes, (signal s t r).room))
      × All (λ c. c ≢ ok) codes
signal-waits e ports s t r steps sent early =
    let (i, at) = signal-Kept s t r sent in run-early e ports t steps (signal s t r).room i at early
