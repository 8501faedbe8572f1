-- ===== src/Api/Ws/Members.antt =====
-- crates/hysj-api/src/ws/handler.rs: the devices that a group message goes to.
use hysj.Base.{
  ℕ, ◌≡◌, true, false, not, ◌&&◌, some, List, [], ◌∷◌, ◌==◌, if◌then◌else◌, Bool-cases, inl, inr,
  arith,
}
use hysj.Database.{Device, GroupMember}
use hysj.Database.Groups
use hysj.Database.Groups.{elem, members_of, role_of, is_some}
use hysj.Database.Devices
use hysj.Database.Devices.{devices_of, find_device}
use hysj.Api.Ws.Handler.{ids_of, other_members}

other-insert :
    (user v : ℕ) (m : GroupMember) (ms : List GroupMember)
    → elem v (other_members user (Groups.insert_by_time m ms))
      ≡ (if not (m.user_id == user) && m.user_id == v then true else elem v (other_members user ms))
unfolding elem other_members Groups.insert_by_time
other-insert user v m [] = ground arith
other-insert user v m (n ∷ ns) = ground (arith, other-insert user v m ns)

-- The members of a group other than the sender are the users with a role there other than the sender.
pub elem-other_members :
    (user group_id v : ℕ) (ms : List GroupMember)
    → elem v (other_members user (members_of group_id ms))
      ≡ (if v == user then false else is_some (role_of group_id v ms))
unfolding elem other_members members_of role_of
elem-other_members user group_id v [] = ground arith
elem-other_members user group_id v (m ∷ ms) =
    ground
      (arith, elem-other_members user group_id v ms, other-insert user v m (members_of group_id ms))

ids-insert :
    (id : ℕ) (d : Device) (ds : List Device)
    → elem id (ids_of (Devices.insert_by_time d ds))
      ≡ (if d.id == id then true else elem id (ids_of ds))
unfolding elem ids_of Devices.insert_by_time
ids-insert id d [] = ground arith
ids-insert id d (e ∷ es) = ground (arith, ids-insert id d es)

-- A device of one of the users is among the devices of the users.
pub elem-devices_of :
    (us : List ℕ) (ds : List Device) (d : Device)
    → find_device d.id ds ≡ some d
    → elem d.user_id us ≡ true
    → elem d.id (ids_of (devices_of us ds)) ≡ true
unfolding devices_of find_device
elem-devices_of us [] d f h = absurd (ground arith)
elem-devices_of us (e ∷ es) d f h = elim (Bool-cases (e.id == d.id)) [
  | inl q ↦ ground (arith, ids-insert d.id e (devices_of us es))
  | inr q ↦
      ground (arith, elem-devices_of us es d (ground arith) h, ids-insert d.id e (devices_of us es))
]
