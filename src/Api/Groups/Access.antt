-- ===== src/Api/Groups/Access.antt =====
-- Who may do what to a group, and what an allowed operation changes.
use hysj.Base.{
  ℕ, ◌≡◌, refl, Bool, true, false, ◌&&◌, Option, none, some, Bytes, bytes_eq, [], ◌∷◌, ◌++◌, lit,
  ◌==◌, if◌then◌else◌, ok, err, Bool-cases, Option-cases, inl, inr, arith,
}
use hysj.Database.{GroupMember, Db}
use hysj.Database.Users.{is_user}
use hysj.Database.Groups.{find_group, role_of, is_some, elem}
use hysj.Database.Groups
use hysj.Database.Groups.Laws.{
  role_of-delete_row, role_of-delete_rows, role_of-append, role_of-append_ne, find_group-delete,
  delete_row-affected, delete_group_row-affected,
}
use hysj.Api.Error.{HysjError, validation_error, forbidden, group_not_found}
use hysj.Api.Groups.{
  is_bad_name, need_admin, add_member, remove_member, leave_group, delete_group, update_group,
}

-- The role of a user in a group.
abbrev pub role_in : Db → ℕ → ℕ → Option Bytes
role_in db group_id user_id = role_of group_id user_id db.group_members

abbrev pub is_admin : Option Bytes → Bool
is_admin none = false
is_admin (some r) = bytes_eq r (lit "admin")

-- What a user who is not an admin is told: members know the group, others do not.
abbrev pub refusal : Option Bytes → ℕ → HysjError
refusal none group_id = group_not_found group_id
refusal (some r) group_id = forbidden

need_admin-refused :
    (db : Db) (user group_id : ℕ)
    → is_admin (role_in db group_id user) ≡ false
    → need_admin user group_id db ≡ (db, err (refusal (role_in db group_id user) group_id))
unfolding need_admin Groups.get_member_role
need_admin-refused db user group_id h = elim (Option-cases (role_in db group_id user)) [
  | inl e ↦ ground arith
  | inr (r, e) ↦ ground arith
]

need_admin-ok :
    (db : Db) (user group_id : ℕ)
    → is_admin (role_in db group_id user) ≡ true
    → need_admin user group_id db ≡ (db, ok tt)
unfolding need_admin Groups.get_member_role
need_admin-ok db user group_id h = elim (Option-cases (role_in db group_id user)) [
  | inl e ↦ ground arith
  | inr (r, e) ↦ ground arith
]

-- A user who is not an admin of a group cannot add or remove a member, delete it or rename it: the
-- database stays as it is, a member is told that it is forbidden and anybody else that there is no such
-- group (a bad new name is refused before that).
pub not_admin_refused :
    (db : Db) (user group_id other now : ℕ) (name : Bytes)
    → is_admin (role_in db group_id user) ≡ false
    → (add_member user group_id other now db
        ≡ (db, err (refusal (role_in db group_id user) group_id)))
      × (remove_member user group_id other db
          ≡ (db, err (refusal (role_in db group_id user) group_id)))
      × (delete_group user group_id db ≡ (db, err (refusal (role_in db group_id user) group_id)))
      × (update_group user group_id name db ≡ (
        db,
        err (
            if is_bad_name name
            then validation_error
            else refusal (role_in db group_id user) group_id),
      ))
unfolding add_member remove_member delete_group update_group
not_admin_refused db user group_id other now name h =
    let e = need_admin-refused db user group_id h in
    (ground arith, ground arith, ground arith, ground arith)

-- An admin who removes another user that is a member succeeds: the member has no role in the group
-- any more, every other role, in this group and the others, stays, and so do the groups.
pub remove_member-ok :
    (db : Db) (user group_id other : ℕ)
    → is_admin (role_in db group_id user) ≡ true
    → (other == user) ≡ false
    → is_some (role_in db group_id other) ≡ true
    → (db' : Db) × (remove_member user group_id other db ≡ (db', ok tt))
      × (db'.groups ≡ db.groups)
      × ((h v : ℕ)
          → role_in db' h v ≡ (if group_id == h && other == v then none else role_in db h v))
unfolding remove_member Groups.remove_member
remove_member-ok db user group_id other a n m = (
  record db { group_members = Groups.delete_row group_id other db.group_members },
  ground (
    arith,
    need_admin-ok db user group_id a,
    delete_row-affected group_id other db.group_members,
  ),
  refl,
  λ h v. role_of-delete_row group_id other h v db.group_members,
)

-- An admin who adds an existing user that is not in the existing group succeeds: the user gets the
-- role "member" there, every other role, in this group and the others, stays, and so do the groups.
add_member-ok :
    (db : Db) (user group_id other now : ℕ)
    → is_admin (role_in db group_id user) ≡ true
    → is_some (find_group group_id db.groups) ≡ true
    → is_user other db.users ≡ true
    → role_in db group_id other ≡ none
    → (db' : Db) × (add_member user group_id other now db ≡ (db', ok tt))
      × (db'.groups ≡ db.groups)
      × ((h v : ℕ)
          → role_in db' h v
            ≡ (if group_id == h && other == v then some (lit "member") else role_in db h v))
unfolding add_member Groups.add_member
add_member-ok db user group_id other now a g u r =
    let m : GroupMember = record {
      group_id = group_id;
      user_id = other;
      alias_name = none;
      alias_color = none;
      role = lit "member";
      joined_at = now;
    } in
    (
      record db { group_members = db.group_members ++ m ∷ [] },
      ground (arith, need_admin-ok db user group_id a),
      refl,
      λ h v. elim (Bool-cases (group_id == h && other == v)) [
        | inl e ↦ ground (arith, role_of-append h v db.group_members m)
        | inr e ↦ ground (arith, role_of-append_ne h v db.group_members m)
      ],
    )

-- An admin who deletes an existing group succeeds: it is gone, nobody has a role in it, and every
-- other group and every role in another group stays.
delete_group-ok :
    (db : Db) (user group_id : ℕ)
    → is_admin (role_in db group_id user) ≡ true
    → is_some (find_group group_id db.groups) ≡ true
    → (db' : Db) × (delete_group user group_id db ≡ (db', ok tt))
      × ((h : ℕ)
          → find_group h db'.groups ≡ (if group_id == h then none else find_group h db.groups))
      × ((h v : ℕ) → role_in db' h v ≡ (if group_id == h then none else role_in db h v))
unfolding delete_group Groups.delete_group
delete_group-ok db user group_id a g = (
  record db {
    groups = Groups.delete_group_row group_id db.groups;
    group_members = Groups.delete_rows group_id db.group_members;
    pinned_messages = Groups.delete_pins group_id db.pinned_messages;
  },
  ground (arith, need_admin-ok db user group_id a, delete_group_row-affected group_id db.groups),
  λ h. find_group-delete group_id h db.groups,
  λ h v. role_of-delete_rows group_id h v db.group_members,
)

-- Any member may leave, an admin too, even the only one: afterwards the member has no role in the group,
-- every other role stays, and so does the group.
pub leave_group-ok :
    (db : Db) (user group_id : ℕ)
    → is_some (role_in db group_id user) ≡ true
    → (db' : Db) × (leave_group user group_id db ≡ (db', ok tt))
      × (db'.groups ≡ db.groups)
      × ((h v : ℕ)
          → role_in db' h v ≡ (if group_id == h && user == v then none else role_in db h v))
unfolding leave_group Groups.remove_member
leave_group-ok db user group_id m = (
  record db { group_members = Groups.delete_row group_id user db.group_members },
  ground (arith, delete_row-affected group_id user db.group_members),
  refl,
  λ h v. role_of-delete_row group_id user h v db.group_members,
)
