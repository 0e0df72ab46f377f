-- ===== src/Room/Meeting/Receiving/Keeping.antt =====
-- What a round of `receive_loop` leaves as it is.
use rtc_client.Common.{
  ◌≡◌, ap, ◌∙◌, sym, subst, Bool-cases, Option, Option-cases, some, List, [], ◌∷◌, arith, inl, inr,
}
use rtc_client.Common.Text.{Text, Dict, same_text, lookup}
use rtc_client.Room.User.{RoomUser, Call, receive_video, receive_audio, handle_video}
use rtc_client.Room.Meeting.{Room}
use rtc_client.Room.Meeting.Handlers.Users.{IsKeyed}
use rtc_client.Room.Meeting.Dispatch.Members.{IsSound}
use rtc_client.Room.Meeting.Receiving.{
  Arrival, Received, receive_user, receive_users, receive_round,
}
use rtc_client.Rtp.Receiver.{Datagram}

user_uuid-receive_audio :
    (d : Datagram) (u : RoomUser) → (receive_audio d u).1.user_uuid ≡ u.user_uuid
unfolding receive_audio
user_uuid-receive_audio d u = ground arith

user_uuid-receive_video :
    (d : Datagram) (u u' : RoomUser) (c : Option Call)
    → receive_video d u ≡ some (c, u')
    → u'.user_uuid ≡ u.user_uuid
unfolding receive_video handle_video
user_uuid-receive_video d u u' c e = ground (arith, e)

user_uuid-receive_user :
    (a : Arrival) (u u' : RoomUser) (x : Received)
    → receive_user a u ≡ some (x, u')
    → u'.user_uuid ≡ u.user_uuid
unfolding receive_user
user_uuid-receive_user a u u' x e =
    elim (Option-cases (receive_video a.video (receive_audio a.audio u).1)) [
      | inl f ↦ absurd (ground (arith, e, f))
      | inr ((c, v), f) ↦
          let same : u' ≡ v = ground (arith, e, f) in
          ap (λ y. y.user_uuid) same
          ∙ user_uuid-receive_video a.video (receive_audio a.audio u).1 v c f
          ∙ user_uuid-receive_audio a.audio u
    ]

-- Every user that is found behind the round was found before it, with its uuid.
receive_users-lookup :
    (arrivals : Text → Arrival) (xs ys : Dict RoomUser) (calls : List Received)
    → receive_users arrivals xs ≡ some (calls, ys)
    → (k : Text) (v : RoomUser) → lookup k ys ≡ some v
    → (u : RoomUser) × (lookup k xs ≡ some u) × (v.user_uuid ≡ u.user_uuid)
unfolding receive_users lookup
receive_users-lookup arrivals [] ys calls e k v f =
    let none_left : ys ≡ [] = ground (arith, e) in absurd (ground (arith, f, none_left))
receive_users-lookup arrivals ((uuid, u) ∷ xs) ys calls e k v f =
    elim (Option-cases (receive_user (arrivals uuid) u)) [
      | inl g ↦ absurd (ground (arith, e, g))
      | inr ((x, u'), g) ↦ elim (Option-cases (receive_users arrivals xs)) [
        | inl h ↦ absurd (ground (arith, e, g, h))
        | inr ((later, zs), h) ↦
            let shape : ys ≡ (uuid, u') ∷ zs = ground (arith, e, g, h) in
            let found : lookup k ((uuid, u') ∷ zs) ≡ some v = ap (lookup k) (sym shape) ∙ f in
            elim (Bool-cases (same_text k uuid)) [
              | inl here ↦
                  let same : v ≡ u' = ground (arith, found, here) in
                  (
                    u,
                    ground (arith, here),
                    ap (λ y. y.user_uuid) same ∙ user_uuid-receive_user (arrivals uuid) u u' x g,
                  )
              | inr other ↦
                  let (w, there, same) =
                    receive_users-lookup arrivals xs zs later h k v
                      (ground (arith, found, other)) in
                  (w, ground (arith, there, other), same)
            ]
      ]
    ]

receive_users-IsKeyed :
    (arrivals : Text → Arrival) (xs ys : Dict RoomUser) (calls : List Received)
    → receive_users arrivals xs ≡ some (calls, ys)
    → IsKeyed xs
    → IsKeyed ys
receive_users-IsKeyed arrivals xs ys calls e keyed k v f =
    let (u, there, same) = receive_users-lookup arrivals xs ys calls e k v f in
    same ∙ keyed k u there

pub receive_round-IsSound :
    (arrivals : Text → Arrival) (r r' : Room) (calls : List Received)
    → IsSound r
    → receive_round arrivals r ≡ some (calls, r')
    → IsSound r'
unfolding receive_round
receive_round-IsSound arrivals r r' calls s e =
    elim (Option-cases (receive_users arrivals r.other_users_map)) [
      | inl f ↦ absurd (ground (arith, e, f))
      | inr ((xs, users), f) ↦
          let same : r' ≡ record r { other_users_map = users } = ground (arith, e, f) in
          subst IsSound (sym same) (record {
            users = receive_users-IsKeyed arrivals r.other_users_map users xs f s.users;
            senders = record { audio = s.senders.audio; video = s.senders.video };
          })
    ]
