-- ===== src/Room/Meeting/Dispatch/Members.antt =====
-- What each message does to the users of a room.
use rtc_client.Common.{
  ℕ, zero, suc, ◌+◌, ◌≡◌, refl, ◌∙◌, sym, subst, Bool, false, ◌||◌, none, some, List, [], ◌∷◌,
  arith, if◌then◌else◌, Option-cases, inl, inr,
}
use rtc_client.Common.Text.{Text, Dict, ascii, same_text, same_iff, lookup, assign}
use rtc_client.Json.{JsonObject, get_key, as_object}
use rtc_client.Command.{
  CmdType, conference_create, conference_join, conference_new_joined, conference_pull_stream,
  conference_stop_pulling, conference_exit, conference_user_gone, conference_stop,
  conference_closing, conference_online_users, conference_kick_out, conference_heartbeat,
}
use rtc_client.PortManager.{PortManager}
use rtc_client.Room.User.{RoomUser, Network, initialize_video, initialize_audio}
use rtc_client.Room.User
use rtc_client.Room.Meeting.{Room}
use rtc_client.Room.Meeting.Senders.{is_some, IsReady}
use rtc_client.Room.Meeting.Handlers.{OnlineUser, text_of}
use rtc_client.Room.Meeting.Handlers.Users.{IsKeyed, assign-IsKeyed, present, present-assign}
use rtc_client.Room.Meeting.Online.{rounds, pull_ssrcs, pull_stream, pull_streams, listed_users}

-- A room whose users are stored under their uuids, and whose sessions are set up whole.
pub record IsSound (r : Room) : Type 0 where
  pub users : IsKeyed r.other_users_map
  pub senders : IsReady r

-- There is no session to send through.
abbrev pub IsSilent : Room → Type 0
IsSilent r = (is_some r.rtp_audio_sender ≡ false) × (is_some r.rtp_video_sender ≡ false)

user_uuid-initialize :
    (n : Network) (ssrc : ℕ) (ports : PortManager) (u : RoomUser)
    → (User.initialize n ssrc ports u).user.user_uuid ≡ u.user_uuid
unfolding User.initialize initialize_video initialize_audio
user_uuid-initialize n ssrc ports u = ground arith

user_uuid-pull_ssrcs :
    (networks : ℕ → Network) (ssrcs : JsonObject) (left j : ℕ) (ports : PortManager) (u : RoomUser)
    → (pull_ssrcs networks ssrcs left j ports u).0.user_uuid ≡ u.user_uuid
unfolding pull_ssrcs
user_uuid-pull_ssrcs networks ssrcs zero j ports u = refl
user_uuid-pull_ssrcs networks ssrcs (suc left) j ports u =
    user_uuid-pull_ssrcs networks ssrcs left (j + 1) _ _
    ∙ user_uuid-initialize (networks j) _ ports u

-- What the users, as a set of uuids, become.
unfoldable pub listed : Text → List OnlineUser → Bool
listed k [] = false
listed k (u ∷ us) = same_text u.user_uuid k || listed k us

unfoldable pub members_after : CmdType → JsonObject → Text → Bool → Bool
unfolding text_of listed listed_users
members_after conference_new_joined params k was = same_text (text_of "user_uuid" params) k || was
members_after conference_user_gone params k was =
    if same_text (text_of "user_uuid" params) k then false else was
members_after conference_online_users params k was =
    let users = as_object (get_key (ascii "online_users") params) in
    listed k (listed_users users (rounds users) 0) || was
members_after conference_exit params k was = false
members_after conference_stop params k was = false
members_after conference_closing params k was = false
members_after conference_create params k was = was
members_after conference_join params k was = was
members_after conference_pull_stream params k was = was
members_after conference_stop_pulling params k was = was
members_after conference_kick_out params k was = was
members_after conference_heartbeat params k was = was

pub record Follows (cmd : CmdType) (params : JsonObject) (r r' : Room) : Type 0 where
  pub sound : IsSound r'
  pub members :
      (k : Text)
      → present k r'.other_users_map ≡ members_after cmd params k (present k r.other_users_map)
  pub silent : IsSilent r → IsSilent r'

-- A room with the same sessions, the same set of uuids, and its users under them.
pub record Same (r r' : Room) : Type 0 where
  pub sound : IsSound r'
  pub members : (k : Text) → present k r'.other_users_map ≡ present k r.other_users_map
  pub silent : IsSilent r → IsSilent r'

Same-trans : (r r' r'' : Room) → Same r r' → Same r' r'' → Same r r''
Same-trans r r' r'' h h' = record {
  sound = h'.sound;
  members = λ k. h'.members k ∙ h.members k;
  silent = λ quiet. h'.silent (h.silent quiet);
}

pull_stream_known :
    (networks : ℕ → Network) (stream : JsonObject) (ports : PortManager) (r : Room) (u : RoomUser)
    → lookup (text_of "user_uuid" stream) r.other_users_map ≡ some u
    → (pull_stream networks stream ports r).0 ≡ record r {
      other_users_map =
          assign
            (text_of "user_uuid" stream)
            (pull_ssrcs networks
              (as_object (get_key (ascii "ssrcs") stream))
              (rounds (as_object (get_key (ascii "ssrcs") stream)))
              0
              ports
              u).0
            r.other_users_map;
    }
unfolding pull_stream
pull_stream_known networks stream ports r u e = ground (arith, e)

pull_stream_unknown :
    (networks : ℕ → Network) (stream : JsonObject) (ports : PortManager) (r : Room)
    → lookup (text_of "user_uuid" stream) r.other_users_map ≡ none
    → (pull_stream networks stream ports r).0 ≡ r
unfolding pull_stream
pull_stream_unknown networks stream ports r e = ground (arith, e)

present_same :
    (uuid k : Text) (u u' : RoomUser) (users : Dict RoomUser)
    → lookup uuid users ≡ some u
    → present k (assign uuid u' users) ≡ present k users
present_same uuid k u u' users e =
    ground (arith, e, present-assign uuid k u' users, same_iff uuid k)

pull_stream-Same :
    (networks : ℕ → Network) (stream : JsonObject) (ports : PortManager) (r : Room)
    → IsSound r
    → Same r (pull_stream networks stream ports r).0
pull_stream-Same networks stream ports r s =
    let uuid : Text = text_of "user_uuid" stream in
    let ssrcs : JsonObject = as_object (get_key (ascii "ssrcs") stream) in
    elim (Option-cases (lookup uuid r.other_users_map)) [
      | inl e ↦
          subst (Same r) (sym (pull_stream_unknown networks stream ports r e))
            (record { sound = s; members = λ k. refl; silent = λ quiet. quiet })
      | inr (u, e) ↦
          let u' : RoomUser = (pull_ssrcs networks ssrcs (rounds ssrcs) 0 ports u).0 in
          subst (Same r) (sym (pull_stream_known networks stream ports r u e)) (record {
            sound = record {
              users =
                  assign-IsKeyed uuid u' r.other_users_map
                    (user_uuid-pull_ssrcs networks ssrcs (rounds ssrcs) 0 ports u
                      ∙ s.users uuid u e)
                    s.users;
              senders = record { audio = s.senders.audio; video = s.senders.video };
            };
            members = λ k. present_same uuid k u u' r.other_users_map e;
            silent = λ quiet. (quiet.0, quiet.1);
          })
    ]

pub pull_streams-Same :
    (networks : ℕ → ℕ → Network) (streams : JsonObject) (left i : ℕ) (ports : PortManager)
    (r : Room)
    → IsSound r
    → Same r (pull_streams networks streams left i ports r).0
unfolding pull_streams
pull_streams-Same networks streams zero i ports r s = record {
  sound = s;
  members = λ k. refl;
  silent = λ quiet. quiet;
}
pull_streams-Same networks streams (suc left) i ports r s =
    let h = pull_stream-Same (networks i) _ ports r s in
    Same-trans r _ _ h (pull_streams-Same networks streams left (i + 1) _ _ h.sound)
