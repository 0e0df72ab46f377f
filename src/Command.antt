-- ===== src/Command.antt =====
-- The requests of src/application/app_command.h and src/application/app_command.cpp.
use rtc_client.Common.{ℕ, none, some, [], ◌∷◌}
use rtc_client.Common.Text.{Text, Dict, ascii}
use rtc_client.Utils.{pos, common_to_string}
use rtc_client.Json.{JsonObject, t_string, t_obj, empty_object, set_key}
use rtc_client.Json.Writer.{write_to_string}

-- The values of `CmdType` that have a name.
pub data CmdType : Type 0 where
  conference_create : CmdType
  conference_join : CmdType
  conference_new_joined : CmdType
  conference_pull_stream : CmdType
  conference_stop_pulling : CmdType
  conference_exit : CmdType
  conference_user_gone : CmdType
  conference_stop : CmdType
  conference_closing : CmdType
  conference_online_users : CmdType
  conference_kick_out : CmdType
  conference_heartbeat : CmdType

abbrev pub cmd_number : CmdType → ℕ
cmd_number conference_create = 1000
cmd_number conference_join = 1001
cmd_number conference_new_joined = 1002
cmd_number conference_pull_stream = 1100
cmd_number conference_stop_pulling = 1101
cmd_number conference_exit = 1200
cmd_number conference_user_gone = 1201
cmd_number conference_stop = 1202
cmd_number conference_closing = 1203
cmd_number conference_online_users = 2000
cmd_number conference_kick_out = 2001
cmd_number conference_heartbeat = 3000

unfoldable pub cmdtype_to_string : CmdType → Text
cmdtype_to_string conference_create = ascii "TYPE_CONFERENCE_CREATE"
cmdtype_to_string conference_join = ascii "TYPE_CONFERENCE_JOIN"
cmdtype_to_string conference_pull_stream = ascii "TYPE_CONFERENCE_PULL_STREAM"
cmdtype_to_string conference_stop_pulling = ascii "TYPE_CONFERENCE_STOP_PULLING"
cmdtype_to_string conference_exit = ascii "TYPE_CONFERENCE_EXIT"
cmdtype_to_string conference_stop = ascii "TYPE_CONFERENCE_STOP"
cmdtype_to_string conference_online_users = ascii "TYPE_CONFERENCE_ONLINE_USERS"
cmdtype_to_string conference_heartbeat = ascii "TYPE_CONFERENCE_HEARTBEAT"
cmdtype_to_string conference_new_joined = ascii "Unknown command type"
cmdtype_to_string conference_user_gone = ascii "Unknown command type"
cmdtype_to_string conference_closing = ascii "Unknown command type"
cmdtype_to_string conference_kick_out = ascii "Unknown command type"

-- The copy of a map of texts into an object.
unfoldable pub params_json : Dict Text → JsonObject → JsonObject
unfolding set_key
params_json [] o = o
params_json ((k, v) ∷ params) o = params_json params (set_key k (t_string v) o)

unfoldable pub request_json : CmdType → Text → JsonObject → JsonObject
unfolding set_key common_to_string
request_json cmd uuid params =
    let o1 =
      set_key (ascii "opcode") (t_string (common_to_string (pos (cmd_number cmd)))) empty_object in
    let o2 = set_key (ascii "request") (t_string (ascii "true")) o1 in
    let o3 = set_key (ascii "uuid") (t_string uuid) o2 in set_key (ascii "params") (t_obj params) o3

-- The text that `write_to_string` makes, and the empty text where it is false.
unfoldable pub written : JsonObject → Text
unfolding write_to_string
written o = elim (write_to_string o) [ none ↦ [] | some (text, o') ↦ text ]

-- `app_get_request` at an object.
unfoldable pub app_get_request : CmdType → Text → JsonObject → Text
unfolding request_json written
app_get_request cmd uuid params = written (request_json cmd uuid params)

-- `app_get_request` at a map.
unfoldable pub app_get_request_map : CmdType → Text → Dict Text → Text
unfolding app_get_request params_json
app_get_request_map cmd uuid params = app_get_request cmd uuid (params_json params empty_object)

unfoldable pub app_get_response : Text → Text → CmdType → Text → Dict Text → Text
unfolding set_key common_to_string written params_json
app_get_response code msg cmd uuid params =
    let o1 = set_key (ascii "code") (t_string code) empty_object in
    let o2 = set_key (ascii "msg") (t_string msg) o1 in
    let o3 = set_key (ascii "request") (t_string (ascii "false")) o2 in
    let o4 = set_key (ascii "opcode") (t_string (common_to_string (pos (cmd_number cmd)))) o3 in
    let o5 = set_key (ascii "uuid") (t_string uuid) o4 in
    written (set_key (ascii "params") (t_obj (params_json params empty_object)) o5)
