-- ===== src/Tests/Texts.antt =====
-- The theorems on texts, JSON and the client at concrete inputs.
use rtc_client.Common.{◌^◌, ◌⊎◌, ℕ, ◌≤◌, ◌≡◌, refl, Bool, true, false, some, [], ◌∷◌, arith, length}
use rtc_client.Common.Text.{Text, ascii, same_text, text_lt}
use rtc_client.Utils.{ℤ, pos, negsuc, string_replace}
use rtc_client.Json.Convert.Exact.{IsKept, as_int32-as_string}
use rtc_client.Json.{
  empty_object, t_string, t_bool, t_int16, t_obj, JsonObject, object, Members, no_members, member,
}
use rtc_client.Json.Writer.{escape_string, write_to_string}
use rtc_client.Json.Reader.{done, read_from_string}
use rtc_client.Json.RoundTrip.{IsPlain, IsText}
use rtc_client.Json.RoundTrip.Values.{read_from_string-write_to_string}
use rtc_client.Json.Reader.Ends.{Ends}
use rtc_client.Json.Reader.Termination.{read_from_string-Ends}
use rtc_client.WsClient.{
  WsClient, Connecting, ws_open, error, send_message, new, set_text_received_func,
  set_ws_event_func, is_connected, on_event_handle, on_timer, send_text,
}
use rtc_client.WsClient.Connection.{Reachable, IsEarly, Reachable-send_text, on_timer-reconnects}

abbrev no_double : Text → Text → ℤ
no_double fixed streamed = pos 0

abbrev no_truth : Text → Text → Bool
no_truth fixed streamed = false

as_int32-as_string_example : IsKept no_truth no_double (t_int16 (negsuc 41)) (negsuc 41)
as_int32-as_string_example =
    as_int32-as_string no_truth no_double (t_int16 (negsuc 41)) (negsuc 41) refl (omega arith)

-- A slash, a quote and a new line.
abbrev marks : Text
marks = 47 ∷ 34 ∷ 10 ∷ []

abbrev same_texts : Text → Text × Text
same_texts t = (t, t)

-- {"a":"\/\"\n","b":{"a":true},"c":{}}
abbrev nested : Members
nested = member (97 ∷ []) (t_string marks) (
    member (98 ∷ []) (t_obj (object false (member (97 ∷ []) (t_bool true) no_members)))
      (member (99 ∷ []) (t_obj (object false no_members)) no_members))

letter : (k : ℕ) → 97 ≤ k → IsText (k ∷ [])
letter k h = ((λ e. omega (arith, e, h)), tt)

marks-IsText : IsText marks
marks-IsText = (
  λ e. absurd (omega (arith, e)),
  (λ e. absurd (omega (arith, e)), (λ e. absurd (omega (arith, e)), tt)),
)

nested-IsPlain : IsPlain (t_obj (object false nested))
unfolding IsPlain escape_string same_text text_lt string_replace
nested-IsPlain = (
  refl,
  (tt, ((refl, refl, tt), ((refl, refl, (refl, refl, tt)), tt))),
  (
    letter 97 (omega arith),
    refl,
    marks-IsText,
    (
      letter 98 (omega arith),
      refl,
      (refl, (tt, tt), (letter 97 (omega arith), refl, tt, tt)),
      (letter 99 (omega arith), refl, (refl, tt, tt), tt),
    ),
  ),
)

read_from_string-write_to_string_example :
    (text : Text) × (left : JsonObject) × (write_to_string (object false nested)
      ≡ some (text, left))
    × ((2 ^ 32 ≤ length text)
        ⊎ (read_from_string same_texts empty_object text ≡ done (object false nested) []))
read_from_string-write_to_string_example =
    read_from_string-write_to_string same_texts nested nested-IsPlain

read_from_string-Ends_example :
    Ends
      (length (ascii "{\"a\":[1,{}]}"))
      (read_from_string same_texts empty_object (ascii "{\"a\":[1,{}]}"))
unfolding ascii
read_from_string-Ends_example =
    read_from_string-Ends same_texts empty_object (ascii "{\"a\":[1,{}]}") (omega arith)

abbrev begun : WsClient
begun = set_ws_event_func true (set_text_received_func true new)

abbrev connecting : Connecting
connecting = record { while_closing = []; while_connecting = error ∷ []; made = some 1 }

connecting-IsEarly : IsEarly connecting
connecting-IsEarly = record { closing = refl; connecting = refl }

abbrev made : WsClient
made = (on_timer connecting begun).0

made-Reachable : Reachable made
made-Reachable = Reachable.timer begun connecting (Reachable.start true true) connecting-IsEarly

Reachable-send_text_example :
    ((send_text marks made).0 ≡ is_connected made)
    × (is_connected made ≡ true
        → (conn : ℕ) × (made.connection ≡ some conn)
          × (send_text marks made ≡ (true, send_message conn marks ∷ [])))
Reachable-send_text_example = Reachable-send_text made marks made-Reachable

begun_off : begun.connected ≡ false
unfolding set_ws_event_func set_text_received_func
begun_off = refl

on_timer-reconnects_example :
    ((on_timer connecting begun).0.connected ≡ false)
    × (send_text marks (on_event_handle ws_open (on_timer connecting begun).0).0
        ≡ (true, send_message 1 marks ∷ []))
on_timer-reconnects_example =
    on_timer-reconnects begun connecting 1 marks begun_off connecting-IsEarly refl
