-- ===== src/Database/Accounts.antt =====
-- crates/hysj-db/src/users.rs: the deletion of a user, with the rows that the keys of the migrations
-- cascade to.
use hysj.Base.{ℕ, Bool, not, ◌||◌, none, some, List, [], ◌∷◌, ◌==◌, if◌then◌else◌, ok, err}
use hysj.Database.{
  DbError, not_found, User, Group, GroupMember, Device, PreKey, PinnedMessage, VpnSession,
  UserVpnKey, LoginAttempt, Contact, ContactRequest, Run,
}
use hysj.Database.Users.{is_user}
use hysj.Database.Groups.{find_group, is_some}
use hysj.Database.Devices.{find_device}

-- The rows that do not pass a test.
unfoldable pub without {ℓ} : {A : Type ℓ} → (A → Bool) → List A → List A
without p [] = []
without p (x ∷ xs) = let rest = without p xs in if p x then rest else x ∷ rest

-- ON DELETE SET NULL
unfoldable pub forget_user : ℕ → List LoginAttempt → List LoginAttempt
forget_user id [] = []
forget_user id (a ∷ rest) =
    let others = forget_user id rest in
    elim a.user_id [
      | none ↦ a ∷ others
      | some u ↦ if u == id then record a { user_id = none } ∷ others else a ∷ others
    ]

-- The groups that the user created go, with their members and pins, and the user's devices, with
-- their pre-keys.
unfoldable pub delete_user : ℕ → Run DbError (Unit {0})
delete_user id db =
    let groups = without (λ (g : Group). g.creator_id == id) db.groups in
    let devices = without (λ (d : Device). d.user_id == id) db.devices in
    let lost = λ (group_id : ℕ). not (is_some (find_group group_id groups)) in
    if is_user id db.users
    then (
      record db {
        users = without (λ (u : User). u.id == id) db.users;
        groups = groups;
        group_members =
            without (λ (m : GroupMember). m.user_id == id || lost m.group_id) db.group_members;
        devices = devices;
        pre_keys =
            without (λ (k : PreKey). not (is_some (find_device k.device_id devices))) db.pre_keys;
        pinned_messages =
            without (λ (p : PinnedMessage). p.pinned_by == id || lost p.group_id)
              db.pinned_messages;
        vpn_sessions = without (λ (x : VpnSession). x.user_id == id) db.vpn_sessions;
        user_vpn_keys = without (λ (k : UserVpnKey). k.user_id == id) db.user_vpn_keys;
        login_attempts = forget_user id db.login_attempts;
        contacts =
            without (λ (c : Contact). c.user_id == id || c.contact_user_id == id) db.contacts;
        contact_requests =
            without (λ (r : ContactRequest). r.from_user_id == id || r.to_user_id == id)
              db.contact_requests;
      },
      ok tt,
    )
    else (db, err not_found)
