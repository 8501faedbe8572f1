-- ===== src/Database/Groups.antt =====
-- crates/hysj-db/src/groups.rs.
pub mod Laws
pub mod Lists
use hysj.Base.{
  ℕ, ◌-◌, Bool, true, false, not, ◌&&◌, ◌||◌, Option, none, some, Bytes, List, [], ◌∷◌, ◌++◌,
  length, ltb, ◌==◌, if◌then◌else◌, ok, err, take, drop,
}
use hysj.Database.{
  DbError, query_failed, not_found, conflict, Group, GroupMember, PinnedMessage, Db, Run, lift,
  ◌>>=◌, ◌>>◌,
}
use hysj.Database.Users.{is_user}

-- The row of a group.
unfoldable pub find_group : ℕ → List Group → Option Group
find_group id [] = none
find_group id (g ∷ gs) = if g.id == id then some g else find_group id gs

abbrev pub is_row : ℕ → ℕ → GroupMember → Bool
is_row group_id user_id m = m.group_id == group_id && m.user_id == user_id

-- SELECT role FROM group_members WHERE group_id = $1 AND user_id = $2
unfoldable pub role_of : ℕ → ℕ → List GroupMember → Option Bytes
role_of group_id user_id [] = none
role_of group_id user_id (m ∷ ms) =
    if is_row group_id user_id m then some m.role else role_of group_id user_id ms

unfoldable pub elem : ℕ → List ℕ → Bool
elem x [] = false
elem x (y ∷ ys) = if y == x then true else elem x ys

-- DELETE FROM group_members WHERE group_id = $1 AND user_id = $2
unfoldable pub delete_row : ℕ → ℕ → List GroupMember → List GroupMember
delete_row group_id user_id [] = []
delete_row group_id user_id (m ∷ ms) =
    let rest = delete_row group_id user_id ms in
    if is_row group_id user_id m then rest else m ∷ rest

-- DELETE FROM group_members WHERE group_id = $1
unfoldable pub delete_rows : ℕ → List GroupMember → List GroupMember
delete_rows group_id [] = []
delete_rows group_id (m ∷ ms) =
    let rest = delete_rows group_id ms in if m.group_id == group_id then rest else m ∷ rest

-- DELETE FROM groups WHERE id = $1
unfoldable pub delete_group_row : ℕ → List Group → List Group
delete_group_row id [] = []
delete_group_row id (g ∷ gs) =
    let rest = delete_group_row id gs in if g.id == id then rest else g ∷ rest

-- UPDATE groups SET name = $2 WHERE id = $1
unfoldable pub rename : ℕ → Bytes → List Group → List Group
rename id name [] = []
rename id name (g ∷ gs) =
    let rest = rename id name gs in if g.id == id then record g { name = name } ∷ rest else g ∷ rest

abbrev pub is_some {ℓ} : {A : Type ℓ} → Option A → Bool
is_some none = false
is_some (some a) = true

-- The new id and the clock come last. The primary key and the key to `users` are checked.
unfoldable pub create_group : Bytes → ℕ → Bool → ℕ → ℕ → Run DbError Group
create_group name creator_id is_anonymous id now db =
    let group : Group = record {
      id = id;
      name = name;
      creator_id = creator_id;
      is_anonymous = is_anonymous;
      max_members = 50;
      created_at = now;
    } in
    if is_some (find_group id db.groups)
    then (db, err conflict)
    else if is_user creator_id db.users
    then (record db { groups = db.groups ++ group ∷ [] }, ok group)
    else (db, err query_failed)

unfoldable pub add_member : ℕ → ℕ → Bytes → ℕ → Run DbError GroupMember
add_member group_id user_id role now db =
    let member : GroupMember = record {
      group_id = group_id;
      user_id = user_id;
      alias_name = none;
      alias_color = none;
      role = role;
      joined_at = now;
    } in
    if is_some (role_of group_id user_id db.group_members)
    then (db, err conflict)
    else if is_some (find_group group_id db.groups) && is_user user_id db.users
    then (record db { group_members = db.group_members ++ member ∷ [] }, ok member)
    else (db, err query_failed)

unfoldable pub remove_member : ℕ → ℕ → Run DbError Bool
remove_member group_id user_id db =
    let kept = delete_row group_id user_id db.group_members in
    (record db { group_members = kept }, ok (ltb 0 (length db.group_members - length kept)))

unfoldable pub find_by_id : ℕ → Run DbError Group
find_by_id group_id db = elim (find_group group_id db.groups) [
  | none ↦ (db, err not_found)
  | some group ↦ (db, ok group)
]

-- ORDER BY joined_at ASC; rows of one time stay in the table's order.
unfoldable pub insert_by_time : GroupMember → List GroupMember → List GroupMember
insert_by_time m [] = m ∷ []
insert_by_time m (n ∷ ns) =
    let rest = insert_by_time m ns in if ltb n.joined_at m.joined_at then n ∷ rest else m ∷ n ∷ ns

unfoldable pub members_of : ℕ → List GroupMember → List GroupMember
members_of group_id [] = []
members_of group_id (m ∷ ms) =
    let rest = members_of group_id ms in
    if m.group_id == group_id then insert_by_time m rest else rest

unfoldable pub get_members : ℕ → Run DbError (List GroupMember)
get_members group_id db = (db, ok (members_of group_id db.group_members))

unfoldable pub get_member_role : ℕ → ℕ → Run DbError (Option Bytes)
get_member_role group_id user_id db = (db, ok (role_of group_id user_id db.group_members))

-- ON DELETE CASCADE
unfoldable pub delete_pins : ℕ → List PinnedMessage → List PinnedMessage
delete_pins group_id [] = []
delete_pins group_id (p ∷ ps) =
    let rest = delete_pins group_id ps in if p.group_id == group_id then rest else p ∷ rest

unfoldable pub delete_group : ℕ → Run DbError Bool
delete_group group_id db =
    let kept = delete_group_row group_id db.groups in
    (
      record db {
        groups = kept;
        group_members = delete_rows group_id db.group_members;
        pinned_messages = delete_pins group_id db.pinned_messages;
      },
      ok (ltb 0 (length db.groups - length kept)),
    )

unfoldable pub update_group_name : ℕ → Bytes → Run DbError (Unit {0})
update_group_name group_id name db =
    if is_some (find_group group_id db.groups)
    then (record db { groups = rename group_id name db.groups }, ok tt)
    else (db, err not_found)

-- COUNT(*) > 0, for the rows that `role_of` looks for.
unfoldable pub is_member : ℕ → ℕ → Run DbError Bool
is_member group_id user_id db = (db, ok (is_some (role_of group_id user_id db.group_members)))
