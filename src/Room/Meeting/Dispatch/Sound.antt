-- ===== src/Room/Meeting/Dispatch/Sound.antt =====
-- The handlers of the messages, on sound rooms.
use rtc_client.Common.{
  ◌<◌, ◌^◌, ◌≡◌, refl, ap, ◌∙◌, sym, Bool, false, some, List, arith, Option-cases, inl, inr,
  Bool-cases, length,
}
use rtc_client.Common.Text.{Text, ascii, same_text, lookup}
use rtc_client.Utils.{string_to_int}
use rtc_client.Json.{JsonObject, get_key, as_object, empty_object}
use rtc_client.Json.Reader.{Read, done, refused, stuck, read_from_string}
use rtc_client.Json.Reader.Ends.{Ends}
use rtc_client.Json.Reader.Termination.{read_from_string-Ends}
use rtc_client.Command.{
  CmdType, conference_create, conference_join, conference_new_joined, conference_pull_stream,
  conference_stop_pulling, conference_exit, conference_user_gone, conference_stop,
  conference_closing, conference_online_users, conference_kick_out, conference_heartbeat,
}
use rtc_client.PortManager.{PortManager}
use rtc_client.Room.Meeting.{Room, stop_receive, remove_sender}
use rtc_client.Room.Meeting.Senders.{Kept, Kept-refl}
use rtc_client.Room.Meeting.Handlers.{
  Env, Handled, notice_if, conference_created, conference_joined, other_user_joined, online_users,
  OnlineUser, online_user, text_of, is_own_join, on_ws_conference_create, on_ws_conference_join,
  on_ws_conference_new_joined,
}
use rtc_client.Room.Meeting.Handlers.Users.{
  Allocates, added, add_user-added, remove-IsKeyed, present, present-remove, present-added,
}
use rtc_client.Room.Meeting.Online.{
  rounds, listed_users, on_ws_conference_pull_stream, on_ws_conference_stop_pulling,
  on_ws_conference_online_users,
}
use rtc_client.Room.Meeting.Leaving.{
  leave, on_ws_conference_exit, on_ws_conference_stop, on_ws_conference_closing,
  on_ws_conference_user_gone,
}
use rtc_client.Room.Meeting.Dispatch.{
  handle_command, on_json, on_websocket_message, unchanged, command_of,
}
use rtc_client.Room.Meeting.Dispatch.Members.{
  IsSound, IsSilent, Follows, pull_streams-Same, members_after,
}
use rtc_client.Room.Meeting.Dispatch.Steps.{
  added_all, add_users-added_all, enter-Kept, idle-IsSound, Kept-IsSound, leave-IsSound,
  added-IsSound, IsSilent-added, IsSilent-added_all, added_all-IsSound, present-added_all,
}

Kept-Follows :
    (cmd : CmdType) (params : JsonObject) (r r' : Room)
    → ((k : Text) (was : Bool) → members_after cmd params k was ≡ was)
    → IsSound r
    → Kept r r'
    → Follows cmd params r (record r' { is_signal_running = false })
Kept-Follows cmd params r r' stays s k = record {
  sound = idle-IsSound r' (Kept-IsSound r r' s k);
  members = λ uuid. ap (present uuid) k.users ∙ sym (stays uuid (present uuid r.other_users_map));
  silent = λ quiet. (k.has_audio ∙ quiet.0, k.has_video ∙ quiet.1);
}

create-Follows :
    (e : Env) (params : JsonObject) (ports : PortManager) (r : Room)
    → IsSound r
    → (h : Handled) × (on_ws_conference_create e params ports r ≡ some h)
      × Follows conference_create params r h.room
unfolding on_ws_conference_create members_after
create-Follows e params ports r s =
    let (r', f, k) = enter-Kept e params r s.senders in
    (
      record {
        room = record r' { is_signal_running = false };
        ports = ports;
        notices = notice_if r' conference_created;
      },
      ground (arith, f),
      Kept-Follows conference_create params r r' (λ uuid was. refl) s k,
    )

join-Follows :
    (e : Env) (params : JsonObject) (ports : PortManager) (r : Room)
    → IsSound r
    → (h : Handled) × (on_ws_conference_join e params ports r ≡ some h)
      × Follows conference_join params r h.room
unfolding on_ws_conference_join members_after
join-Follows e params ports r s =
    let (r', f, k) = enter-Kept e params r s.senders in
    elim (Bool-cases (is_own_join params r)) [
      | inl own ↦ (
        record {
          room = record r' { is_signal_running = false };
          ports = ports;
          notices = notice_if r' conference_joined;
        },
        ground (arith, own, f),
        Kept-Follows conference_join params r r' (λ uuid was. refl) s k,
      )
      | inr other ↦ (
        record {
          room = record r { is_signal_running = false };
          ports = ports;
          notices = notice_if r conference_joined;
        },
        ground (arith, other),
        Kept-Follows conference_join params r r (λ uuid was. refl) s (Kept-refl r s.senders),
      )
    ]

leave-Follows :
    (cmd : CmdType) (params : JsonObject) (r : Room)
    → ((k : Text) (was : Bool) → members_after cmd params k was ≡ false)
    → Follows cmd params r (leave r)
unfolding leave stop_receive remove_sender lookup
leave-Follows cmd params r gone = record {
  sound = leave-IsSound r;
  members = λ k. sym (gone k (present k r.other_users_map));
  silent = λ quiet. (refl, refl);
}

new_joined-added :
    (e : Env) (params : JsonObject) (ports : PortManager) (r : Room)
    → Allocates e
    → on_ws_conference_new_joined e params ports r
      ≡ some (record {
        room = added (online_user params) r;
        ports = ports;
        notices = notice_if r (other_user_joined (online_user params));
      })
unfolding on_ws_conference_new_joined
new_joined-added e params ports r enough =
    ground (arith, add_user-added e (online_user params) r enough)

-- The users of a message.
abbrev users_of : JsonObject → List OnlineUser
users_of params =
    let users = as_object (get_key (ascii "online_users") params) in
    listed_users users (rounds users) 0

online_users-added_all :
    (e : Env) (params : JsonObject) (ports : PortManager) (r : Room)
    → Allocates e
    → on_ws_conference_online_users e params ports r
      ≡ some (record {
        room = added_all (users_of params) (record r { is_signal_running = false });
        ports = ports;
        notices = notice_if r (online_users (users_of params));
      })
unfolding on_ws_conference_online_users
online_users-added_all e params ports r enough =
    ground (
      arith,
      add_users-added_all e (users_of params) (record r { is_signal_running = false }) enough,
    )

-- In a room whose users are stored under their uuids, and whose sessions are set up whole where
-- they are, and where the users that a command asks for are allocated, every command is handled without a read through a null pointer and leaves such a room.
-- A new user's uuid and the listed ones are added to the set of the uuids, the uuid of a user that
-- is gone is taken out, the end of the conference leaves none, and every other command leaves the
-- set as it is; and where there are no sessions, none are made.
pub handle_command-Follows :
    (e : Env) (cmd : CmdType) (params : JsonObject) (ports : PortManager) (r : Room)
    → Allocates e
    → IsSound r
    → (h : Handled) × (handle_command e cmd params ports r ≡ some h) × Follows cmd params r h.room
unfolding handle_command members_after on_ws_conference_new_joined on_ws_conference_pull_stream
    on_ws_conference_stop_pulling on_ws_conference_exit on_ws_conference_user_gone
    on_ws_conference_stop on_ws_conference_closing on_ws_conference_online_users online_user
handle_command-Follows e conference_create params ports r enough s =
    create-Follows e params ports r s
handle_command-Follows e conference_join params ports r enough s = join-Follows e params ports r s
handle_command-Follows e conference_new_joined params ports r enough s = (
  record {
    room = added (online_user params) r;
    ports = ports;
    notices = notice_if r (other_user_joined (online_user params));
  },
  new_joined-added e params ports r enough,
  record {
    sound = added-IsSound (online_user params) r s;
    members = present-added (online_user params) r;
    silent = IsSilent-added (online_user params) r;
  },
)
handle_command-Follows e conference_pull_stream params ports r enough s =
    let streams : JsonObject = as_object (get_key (ascii "streams") params) in
    let same = pull_streams-Same e.networks streams (rounds streams) 0 ports r s in
    (
      _,
      refl,
      record { sound = idle-IsSound _ same.sound; members = same.members; silent = same.silent },
    )
handle_command-Follows e conference_stop_pulling params ports r enough s =
    (_, refl, record { sound = idle-IsSound r s; members = λ k. refl; silent = λ quiet. quiet })
handle_command-Follows e conference_exit params ports r enough s =
    (_, refl, leave-Follows conference_exit params r (λ k was. refl))
handle_command-Follows e conference_user_gone params ports r enough s = (
  _,
  refl,
  record {
    sound = record {
      users = remove-IsKeyed (text_of "user_uuid" params) r.other_users_map s.users;
      senders = record { audio = s.senders.audio; video = s.senders.video };
    };
    members = λ k. present-remove (text_of "user_uuid" params) k r.other_users_map;
    silent = λ quiet. quiet;
  },
)
handle_command-Follows e conference_stop params ports r enough s =
    (_, refl, leave-Follows conference_stop params r (λ k was. refl))
handle_command-Follows e conference_closing params ports r enough s =
    (_, refl, leave-Follows conference_closing params r (λ k was. refl))
handle_command-Follows e conference_online_users params ports r enough s =
    let users : JsonObject = as_object (get_key (ascii "online_users") params) in
    let idle : Room = record r { is_signal_running = false } in
    let listed_now : List OnlineUser = listed_users users (rounds users) 0 in
    (
      record {
        room = added_all listed_now idle;
        ports = ports;
        notices = notice_if r (online_users listed_now);
      },
      online_users-added_all e params ports r enough,
      record {
        sound = added_all-IsSound listed_now idle (idle-IsSound r s);
        members = present-added_all listed_now idle;
        silent = λ quiet. IsSilent-added_all listed_now idle (quiet.0, quiet.1);
      },
    )
handle_command-Follows e conference_kick_out params ports r enough s =
    (_, refl, record { sound = s; members = λ k. refl; silent = λ quiet. quiet })
handle_command-Follows e conference_heartbeat params ports r enough s =
    (_, refl, record { sound = s; members = λ k. refl; silent = λ quiet. quiet })

pub on_json-IsSound :
    (e : Env) (json : JsonObject) (ports : PortManager) (r : Room)
    → Allocates e
    → IsSound r
    → (h : Handled) × (on_json e json ports r ≡ some h)
      × IsSound h.room
      × (IsSilent r → IsSilent h.room)
unfolding on_json
on_json-IsSound e json ports r enough s =
    elim (Bool-cases (same_text (text_of "code" json) (ascii "200"))) [
      | inr bad ↦ (unchanged ports r, ground (arith, bad), s, λ quiet. quiet)
      | inl good ↦ elim (Option-cases (command_of (string_to_int (text_of "opcode" json)))) [
        | inl f ↦ (unchanged ports r, ground (arith, good, f), s, λ quiet. quiet)
        | inr (cmd, f) ↦
            let (h, g, follows) =
              handle_command-Follows e cmd (as_object (get_key (ascii "params") json)) ports r
                enough s in
            (h, ground (arith, good, f, g), follows.sound, follows.silent)
      ]
    ]

message-IsSound :
    (e : Env) (double_texts : Text → Text × Text) (message : Text) (ports : PortManager) (r : Room)
    → Allocates e
    → IsSound r
    → (read : Read JsonObject) → read_from_string double_texts empty_object message ≡ read
    → Ends (length message) read
    → (h : Handled) × (on_websocket_message e double_texts message ports r ≡ some h)
      × IsSound h.room
unfolding on_websocket_message
message-IsSound e double_texts message ports r enough s (done json left) f ends =
    let (h, g, sound, silent) = on_json-IsSound e json ports r enough s in
    (h, ground (arith, f, g), sound)
message-IsSound e double_texts message ports r enough s refused f ends =
    (unchanged ports r, ground (arith, f), s)
message-IsSound e double_texts message ports r enough s stuck f ends = absurd ends

-- Where the users that a message asks for are allocated, a room whose users are stored under their
-- uuids and whose sessions are set up whole handles every message of less than 2 ^ 32 bytes: the reading ends, no null pointer is read through, and
-- the room that is left is such a room again.
pub on_websocket_message-IsSound :
    (e : Env) (double_texts : Text → Text × Text) (message : Text) (ports : PortManager) (r : Room)
    → Allocates e
    → length message < 2 ^ 32
    → IsSound r
    → (h : Handled) × (on_websocket_message e double_texts message ports r ≡ some h)
      × IsSound h.room
on_websocket_message-IsSound e double_texts message ports r enough short s =
    message-IsSound e double_texts message ports r enough s
      (read_from_string double_texts empty_object message) refl
      (read_from_string-Ends double_texts empty_object message short)
