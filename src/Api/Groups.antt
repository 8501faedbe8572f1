-- ===== src/Api/Groups.antt =====
-- crates/hysj-api/src/routes/groups.rs: the group routes. The authenticated user comes first; new ids
-- and the clock are arguments.
pub mod Access
use hysj.Base.{
  ℕ, ◌+◌, Bool, true, false, not, ◌||◌, Option, none, some, Bytes, bytes_eq, List, [], ◌∷◌, length,
  lit, ltb, ◌==◌, if◌then◌else◌, Result, ok, err, panic,
}
use hysj.Database.{DbError, Group, GroupMember, Db, Run, lift, ◌>>=◌, ◌>>◌}
use hysj.Api.Error.{HysjError, validation_error, forbidden, group_not_found, db_do}
use hysj.Database.Groups
use hysj.Database.Groups.Lists

pub record GroupMemberDto : Type 0 where
  pub user_id : ℕ
  pub alias_name : Option Bytes
  pub alias_color : Option Bytes
  pub role : Bytes
  pub joined_at : ℕ

pub record GroupResponse : Type 0 where
  pub id : ℕ
  pub name : Bytes
  pub is_anonymous : Bool
  pub members : List GroupMemberDto
  pub created_at : ℕ

unfoldable pub member_dtos : List GroupMember → List GroupMemberDto
member_dtos [] = []
member_dtos (m ∷ ms) =
    record {
      user_id = m.user_id;
      alias_name = m.alias_name;
      alias_color = m.alias_color;
      role = m.role;
      joined_at = m.joined_at;
    }
    ∷ member_dtos ms

-- Any error of `find_by_id` becomes GroupNotFound.
abbrev pub found_or : ℕ → Run DbError Group → Run HysjError Group
found_or group_id m db = elim (m db).1 [
  | ok g ↦ ((m db).0, ok g)
  | err e ↦ ((m db).0, err (group_not_found group_id))
  | panic ↦ ((m db).0, panic)
]

unfoldable pub build_group_response : ℕ → Run HysjError GroupResponse
build_group_response group_id = do
  group ← found_or group_id (Groups.find_by_id group_id)
  members ← db_do (Groups.get_members group_id)
  lift (
      ok (record {
        id = group.id;
        name = group.name;
        is_anonymous = group.is_anonymous;
        members = member_dtos members;
        created_at = group.created_at;
      }))

-- `req.name.is_empty() || req.name.len() > 64`
abbrev pub is_bad_name : Bytes → Bool
is_bad_name name = length name == 0 || ltb 64 (length name)

-- The loop over `member_ids`.
unfoldable pub add_members : ℕ → ℕ → List ℕ → ℕ → Run HysjError (Unit {0})
add_members auth_user group_id [] now = lift (ok tt)
add_members auth_user group_id (member_id ∷ rest) now =
    let others = add_members auth_user group_id rest now in
    if member_id == auth_user
    then others
    else db_do (Groups.add_member group_id member_id (lit "member") now) >>= λ m. others

unfoldable pub create_group : ℕ → Bytes → Bool → List ℕ → ℕ → ℕ → Run HysjError GroupResponse
create_group auth_user name is_anonymous member_ids id now =
    if is_bad_name name then lift (err validation_error) else do
      group ← db_do (Groups.create_group name auth_user is_anonymous id now)
      m ← db_do (Groups.add_member group.id auth_user (lit "admin") now)
      add_members auth_user group.id member_ids now
      build_group_response group.id

-- The loop of `list_groups`.
unfoldable pub group_responses : List Group → Run HysjError (List GroupResponse)
group_responses [] = lift (ok [])
group_responses (g ∷ gs) = do
  response ← build_group_response g.id
  rest ← group_responses gs
  lift (ok (response ∷ rest))

unfoldable pub list_groups : ℕ → ℕ → ℕ → Run HysjError (List GroupResponse)
list_groups auth_user limit offset = do
  groups ← db_do (Lists.list_groups_for_user_paginated auth_user limit offset)
  group_responses groups

unfoldable pub get_group : ℕ → ℕ → Run HysjError GroupResponse
get_group auth_user group_id = do
  is_member ← db_do (Groups.is_member group_id auth_user)
  if is_member then build_group_response group_id else lift (err (group_not_found group_id))

-- The match on the caller's role that the admin routes start with.
unfoldable pub need_admin : ℕ → ℕ → Run HysjError (Unit {0})
need_admin auth_user group_id = do
  role ← db_do (Groups.get_member_role group_id auth_user)
  elim role [
    | some r ↦ if bytes_eq r (lit "admin") then lift (ok tt) else lift (err forbidden)
    | none ↦ lift (err (group_not_found group_id))
  ]

unfoldable pub add_member : ℕ → ℕ → ℕ → ℕ → Run HysjError (Unit {0})
add_member auth_user group_id user_id now = do
  need_admin auth_user group_id
  m ← db_do (Groups.add_member group_id user_id (lit "member") now)
  lift (ok tt)

unfoldable pub remove_member : ℕ → ℕ → ℕ → Run HysjError (Unit {0})
remove_member auth_user group_id user_id = do
  need_admin auth_user group_id
  if user_id == auth_user then lift (err validation_error) else lift (ok tt)
  removed ← db_do (Groups.remove_member group_id user_id)
  if removed then lift (ok tt) else lift (err validation_error)

unfoldable pub leave_group : ℕ → ℕ → Run HysjError (Unit {0})
leave_group auth_user group_id = do
  removed ← db_do (Groups.remove_member group_id auth_user)
  if removed then lift (ok tt) else lift (err (group_not_found group_id))

unfoldable pub delete_group : ℕ → ℕ → Run HysjError (Unit {0})
delete_group auth_user group_id = do
  need_admin auth_user group_id
  deleted ← db_do (Groups.delete_group group_id)
  if deleted then lift (ok tt) else lift (err (group_not_found group_id))

unfoldable pub update_group : ℕ → ℕ → Bytes → Run HysjError (Unit {0})
update_group auth_user group_id name =
    if is_bad_name name
    then lift (err validation_error)
    else do need_admin auth_user group_id; db_do (Groups.update_group_name group_id name)
