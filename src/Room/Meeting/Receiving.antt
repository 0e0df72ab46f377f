-- ===== src/Room/Meeting/Receiving.antt =====
-- `receive_loop` of the room's receive thread: one round over the users. The pinhole datagrams,
-- which a round sends now and then, are left out.
pub mod Keeping
use rtc_client.Common.{Option, none, some, List, [], ◌∷◌}
use rtc_client.Common.Text.{Text, Dict}
use rtc_client.Rtp.Receiver.{Datagram}
use rtc_client.Room.User.{RoomUser, Call, AacCall, receive_video, receive_audio}
use rtc_client.Room.Meeting.{Room}

-- What the callbacks are called with for a user.
pub record Received : Type 0 where
  pub uuid : Text
  pub audio : Option AacCall
  pub video : Option Call

-- What arrives for a user within a round.
pub record Arrival : Type 0 where
  pub audio : Datagram
  pub video : Datagram

unfoldable pub receive_user : Arrival → RoomUser → Option (Received × RoomUser)
unfolding receive_audio receive_video
receive_user a u =
    let (audio, u') = receive_audio a.audio u in
    elim (receive_video a.video u') [
      | none ↦ none
      | some (video, u'') ↦ some (record { uuid = u.user_uuid; audio = audio; video = video }, u'')
    ]

-- The users in the order of their uuids, each with what arrives for it.
unfoldable pub receive_users :
    (Text → Arrival) → Dict RoomUser → Option (List Received × Dict RoomUser)
unfolding receive_user
receive_users arrivals [] = some ([], [])
receive_users arrivals ((uuid, u) ∷ rest) = elim (receive_user (arrivals uuid) u) [
  | none ↦ none
  | some (received, u') ↦ elim (receive_users arrivals rest) [
    | none ↦ none
    | some (later, rest') ↦ some (received ∷ later, (uuid, u') ∷ rest')
  ]
]

unfoldable pub receive_round : (Text → Arrival) → Room → Option (List Received × Room)
unfolding receive_users
receive_round arrivals r = elim (receive_users arrivals r.other_users_map) [
  | none ↦ none
  | some (received, users) ↦ some (received, record r { other_users_map = users })
]
