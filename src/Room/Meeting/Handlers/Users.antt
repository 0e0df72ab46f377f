-- ===== src/Room/Meeting/Handlers/Users.antt =====
-- Which users a room has, and under which uuid.
use rtc_client.Common.{
  ◌≡◌, refl, ap, ◌∙◌, sym, subst, Bool, true, false, ◌||◌, none, some, [], arith, if◌then◌else◌,
  Option-cases, inl, inr,
}
use rtc_client.Common.Text.{
  Text, Dict, same_text, same_iff, lookup, assign, remove, lookup-assign, lookup-remove,
}
use rtc_client.Room.User.{RoomUser, create_user, new}
use rtc_client.Room.Meeting.{Room}
use rtc_client.Room.Meeting.Handlers.{Env, OnlineUser, add_user, described}

-- Every user is stored under its own uuid.
abbrev pub IsKeyed : Dict RoomUser → Type 0
IsKeyed users = (uuid : Text) (u : RoomUser) → lookup uuid users ≡ some u → u.user_uuid ≡ uuid

pub []-IsKeyed : IsKeyed []
unfolding lookup
[]-IsKeyed uuid u e = absurd (ground (arith, e))

pub assign-IsKeyed :
    (uuid : Text) (u : RoomUser) (users : Dict RoomUser)
    → u.user_uuid ≡ uuid
    → IsKeyed users
    → IsKeyed (assign uuid u users)
assign-IsKeyed uuid u users own keyed k v e =
    ground (arith, own, keyed k v, e, lookup-assign uuid k u users, same_iff uuid k)

pub remove-IsKeyed :
    (uuid : Text) (users : Dict RoomUser) → IsKeyed users → IsKeyed (remove uuid users)
remove-IsKeyed uuid users keyed k v e = ground (arith, keyed k v, e, lookup-remove uuid k users)

abbrev pub present : Text → Dict RoomUser → Bool
present uuid users = elim (lookup uuid users) [ none ↦ false | some u ↦ true ]

pub present-assign :
    (uuid k : Text) (u : RoomUser) (users : Dict RoomUser)
    → present k (assign uuid u users) ≡ same_text uuid k || present k users
present-assign uuid k u users = ground (arith, lookup-assign uuid k u users)

pub present-remove :
    (uuid k : Text) (users : Dict RoomUser)
    → present k (remove uuid users) ≡ (if same_text uuid k then false else present k users)
present-remove uuid k users = ground (arith, lookup-remove uuid k users)

-- Every user that a message asks for is allocated.
abbrev pub Allocates : Env → Type 0
Allocates e = (uuid : Text) → e.allocated uuid ≡ true

-- The user that `add_user` makes, and the room with it.
abbrev new_user : OnlineUser → Room → RoomUser
new_user u r = described u r new

unfoldable pub added : OnlineUser → Room → Room
added u r = elim (lookup u.user_uuid r.other_users_map) [
  | some user ↦ r
  | none ↦ record r { other_users_map = assign u.user_uuid (new_user u r) r.other_users_map }
]

pub add_user-added :
    (e : Env) (u : OnlineUser) (r : Room) → Allocates e → add_user e u r ≡ some (added u r)
unfolding add_user added create_user
add_user-added e u r enough = ground (arith, enough u.user_uuid)

added_known :
    (u : OnlineUser) (r : Room) (user : RoomUser)
    → lookup u.user_uuid r.other_users_map ≡ some user
    → (added u r).other_users_map ≡ r.other_users_map
unfolding added
added_known u r user e = ground (arith, e)

added_new :
    (u : OnlineUser) (r : Room)
    → lookup u.user_uuid r.other_users_map ≡ none
    → (added u r).other_users_map ≡ assign u.user_uuid (new_user u r) r.other_users_map
unfolding added
added_new u r e = ground (arith, e)

user_uuid-new_user : (u : OnlineUser) (r : Room) → (new_user u r).user_uuid ≡ u.user_uuid
unfolding described
user_uuid-new_user u r = refl

pub added-IsKeyed :
    (u : OnlineUser) (r : Room) → IsKeyed r.other_users_map → IsKeyed (added u r).other_users_map
added-IsKeyed u r keyed = elim (Option-cases (lookup u.user_uuid r.other_users_map)) [
  | inl e ↦
      subst IsKeyed (sym (added_new u r e))
        (assign-IsKeyed u.user_uuid (new_user u r) r.other_users_map (user_uuid-new_user u r) keyed)
  | inr (user, e) ↦ subst IsKeyed (sym (added_known u r user e)) keyed
]

present_known :
    (uuid k : Text) (users : Dict RoomUser) (user : RoomUser)
    → lookup uuid users ≡ some user
    → present k users ≡ same_text uuid k || present k users
present_known uuid k users user e = ground (arith, e, same_iff uuid k)

pub present-added :
    (u : OnlineUser) (r : Room) (k : Text)
    → present k (added u r).other_users_map ≡ same_text u.user_uuid k || present k r.other_users_map
present-added u r k = elim (Option-cases (lookup u.user_uuid r.other_users_map)) [
  | inl e ↦
      ap (present k) (added_new u r e)
      ∙ present-assign u.user_uuid k (new_user u r) r.other_users_map
  | inr (user, e) ↦
      ap (present k) (added_known u r user e) ∙ present_known u.user_uuid k r.other_users_map user e
]
