-- ===== src/Room/Meeting/Dispatch/Steps.antt =====
-- What the handlers keep of a sound room.
use rtc_client.Common.{◌≡◌, refl, ap, ◌∙◌, sym, subst, false, ◌||◌, some, List, [], ◌∷◌, arith}
use rtc_client.Common.Text.{Text}
use rtc_client.Json.{JsonObject}
use rtc_client.Room.Meeting.{Room, stop_receive, remove_sender}
use rtc_client.Room.Meeting.Senders.{
  is_some, IsReady, audio_ready, video_ready, Kept, Kept-trans, add_sender_destination-Kept,
}
use rtc_client.Room.Meeting.Handlers.{
  Env, OnlineUser, with_identity, start_receive, enter, add_own_destination,
}
use rtc_client.Room.Meeting.Handlers.Users.{
  IsKeyed, []-IsKeyed, present, added-IsKeyed, present-added, Allocates, added, add_user-added,
}
use rtc_client.Room.Meeting.Online.{add_users}
use rtc_client.Room.Meeting.Leaving.{leave}
use rtc_client.Room.Meeting.Dispatch.Members.{IsSound, IsSilent, listed}

add_own_destination-Kept :
    (e : Env) (r : Room) → IsReady r → (r' : Room) × (add_own_destination e r ≡ some r') × Kept r r'
unfolding add_own_destination
add_own_destination-Kept e r h = add_sender_destination-Kept e.audio_setup e.video_setup _ _ r h

start_receive-Kept : (e : Env) (r : Room) → IsReady r → Kept r (start_receive e r)
unfolding start_receive
start_receive-Kept e r h = record {
  has_audio = ground arith;
  has_video = ground arith;
  ready = record { audio = ground (arith, h.audio); video = ground (arith, h.video) };
  users = ground arith;
}

enter-some :
    (e : Env) (params : JsonObject) (r r' : Room)
    → add_own_destination e (with_identity params r) ≡ some r'
    → enter e params r ≡ some (start_receive e r')
unfolding enter
enter-some e params r r' f = ground (arith, f)

with_identity-Kept : (params : JsonObject) (r : Room) → IsReady r → Kept r (with_identity params r)
unfolding with_identity
with_identity-Kept params r h = record {
  has_audio = refl;
  has_video = refl;
  ready = record { audio = h.audio; video = h.video };
  users = refl;
}

pub enter-Kept :
    (e : Env) (params : JsonObject) (r : Room)
    → IsReady r
    → (r' : Room) × (enter e params r ≡ some r') × Kept r r'
enter-Kept e params r h =
    let named = with_identity-Kept params r h in
    let (r', f, k) = add_own_destination-Kept e (with_identity params r) named.ready in
    (
      start_receive e r',
      enter-some e params r r' f,
      Kept-trans r (with_identity params r) _ named
          (Kept-trans _ r' _ k (start_receive-Kept e r' k.ready)),
    )

pub idle-IsSound : (r : Room) → IsSound r → IsSound (record r { is_signal_running = false })
idle-IsSound r s = record {
  users = s.users;
  senders = record { audio = s.senders.audio; video = s.senders.video };
}

pub Kept-IsSound : (r r' : Room) → IsSound r → Kept r r' → IsSound r'
Kept-IsSound r r' s k = record { users = subst IsKeyed (sym k.users) s.users; senders = k.ready }

pub leave-IsSound : (r : Room) → IsSound (leave r)
unfolding leave stop_receive remove_sender
leave-IsSound r = record { users = []-IsKeyed; senders = record { audio = refl; video = refl } }

-- The room with all users of a list.
unfoldable pub added_all : List OnlineUser → Room → Room
added_all [] r = r
added_all (u ∷ us) r = added_all us (added u r)

pub add_users-added_all :
    (e : Env) (us : List OnlineUser) (r : Room)
    → Allocates e
    → add_users e us r ≡ some (added_all us r)
unfolding add_users added_all
add_users-added_all e [] r enough = refl
add_users-added_all e (u ∷ us) r enough =
    ground (arith, add_user-added e u r enough, add_users-added_all e us (added u r) enough)

senders-added :
    (u : OnlineUser) (r : Room)
    → ((added u r).rtp_audio_sender ≡ r.rtp_audio_sender)
      × ((added u r).rtp_video_sender ≡ r.rtp_video_sender)
unfolding added
senders-added u r = ground arith

pub added-IsSound : (u : OnlineUser) (r : Room) → IsSound r → IsSound (added u r)
added-IsSound u r s = record {
  users = added-IsKeyed u r s.users;
  senders = record {
    audio = ap audio_ready (senders-added u r).0 ∙ s.senders.audio;
    video = ap video_ready (senders-added u r).1 ∙ s.senders.video;
  };
}

pub IsSilent-added : (u : OnlineUser) (r : Room) → IsSilent r → IsSilent (added u r)
IsSilent-added u r quiet =
    (ap is_some (senders-added u r).0 ∙ quiet.0, ap is_some (senders-added u r).1 ∙ quiet.1)

pub IsSilent-added_all : (us : List OnlineUser) (r : Room) → IsSilent r → IsSilent (added_all us r)
unfolding added_all
IsSilent-added_all [] r quiet = quiet
IsSilent-added_all (u ∷ us) r quiet = IsSilent-added_all us (added u r) (IsSilent-added u r quiet)

pub added_all-IsSound : (us : List OnlineUser) (r : Room) → IsSound r → IsSound (added_all us r)
unfolding added_all
added_all-IsSound [] r s = s
added_all-IsSound (u ∷ us) r s = added_all-IsSound us (added u r) (added-IsSound u r s)

pub present-added_all :
    (us : List OnlineUser) (r : Room) (k : Text)
    → present k (added_all us r).other_users_map ≡ listed k us || present k r.other_users_map
unfolding added_all listed
present-added_all [] r k = refl
present-added_all (u ∷ us) r k =
    present-added_all us (added u r) k ∙ ground (arith, present-added u r k)
