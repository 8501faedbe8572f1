-- ===== src/Api/Contacts.antt =====
-- crates/hysj-api/src/routes/contacts.rs and contact_requests.rs. The authenticated user comes first; new
-- ids and the clock come last.
pub mod Mutual
mod Examples
use hysj.Base.{
  ℕ, Bool, true, false, Option, none, some, Bytes, List, [], ◌∷◌, length, ltb, ◌==◌, if◌then◌else◌,
  ok, err, panic,
}
use hysj.Database.{User, Contact, ContactRequest, Run, lift, ◌>>=◌, ◌>>◌}
use hysj.Database.Users
use hysj.Database.Contacts
use hysj.Database.Requests
use hysj.Api.Error.{HysjError, validation_error, user_not_found, db_do}

pub record ContactDto : Type 0 where
  pub user_id : ℕ
  pub username : Bytes
  pub display_name : Option Bytes
  pub nickname : Option Bytes
  pub is_blocked : Bool

pub record ContactRequestDto : Type 0 where
  pub id : ℕ
  pub from_user_id : ℕ
  pub from_username : Bytes
  pub from_display_name : Option Bytes
  pub created_at : ℕ

-- `find_by_id(…).await?.ok_or(UserNotFound(id))?`
unfoldable pub need_user : ℕ → Run HysjError User
need_user id = do
  found ← db_do (Users.find_by_id id)
  elim found [ none ↦ lift (err (user_not_found id)) | some user ↦ lift (ok user) ]

-- The loop of `list_contacts`.
unfoldable pub contact_dtos : List Contact → Run HysjError (List ContactDto)
contact_dtos [] = lift (ok [])
contact_dtos (c ∷ cs) = do
  user ← need_user c.contact_user_id
  rest ← contact_dtos cs
  lift (
      ok (
        record {
          user_id = c.contact_user_id;
          username = user.username;
          display_name = user.display_name;
          nickname = c.nickname;
          is_blocked = c.is_blocked;
        }
        ∷ rest))

unfoldable pub list_contacts : ℕ → ℕ → ℕ → Run HysjError (List ContactDto)
list_contacts auth_user limit offset = do
  contacts ← db_do (Contacts.get_contacts_paginated auth_user limit offset)
  contact_dtos contacts

unfoldable pub add_contact : ℕ → ℕ → ℕ → Run HysjError (Unit {0})
add_contact auth_user contact_user_id now =
    if auth_user == contact_user_id then lift (err validation_error) else do
      user ← need_user contact_user_id
      contact ← db_do (Contacts.add_contact auth_user contact_user_id now)
      lift (ok tt)

unfoldable pub remove_contact : ℕ → ℕ → Run HysjError (Unit {0})
remove_contact auth_user contact_user_id = db_do (Contacts.remove_contact auth_user contact_user_id)

abbrev is_long : Option Bytes → Bool
is_long none = false
is_long (some nick) = ltb 64 (length nick)

unfoldable pub set_nickname : ℕ → ℕ → Option Bytes → Run HysjError (Unit {0})
set_nickname auth_user contact_user_id nickname =
    if is_long nickname
    then lift (err validation_error)
    else db_do (Contacts.set_nickname auth_user contact_user_id nickname)

unfoldable pub block_contact : ℕ → ℕ → ℕ → Run HysjError (Unit {0})
block_contact auth_user contact_user_id now = do
  user ← need_user contact_user_id
  db_do (Contacts.block_contact auth_user contact_user_id now)

unfoldable pub unblock_contact : ℕ → ℕ → Run HysjError (Unit {0})
unblock_contact auth_user contact_user_id =
    db_do (Contacts.unblock_contact auth_user contact_user_id)

unfoldable pub send_request : ℕ → ℕ → ℕ → ℕ → Run HysjError (Unit {0})
send_request auth_user to_user_id id now =
    if auth_user == to_user_id then lift (err validation_error) else do
      user ← need_user to_user_id
      request ← db_do (Requests.send_request auth_user to_user_id id now)
      lift (ok tt)

-- The loop of `list_incoming`.
unfoldable pub request_dtos : List ContactRequest → Run HysjError (List ContactRequestDto)
request_dtos [] = lift (ok [])
request_dtos (q ∷ qs) = do
  found ← db_do (Users.find_by_id q.from_user_id)
  rest ← request_dtos qs
  elim found [
    | none ↦ lift (ok rest)
    | some user ↦ lift (
        ok (
          record {
            id = q.id;
            from_user_id = q.from_user_id;
            from_username = user.username;
            from_display_name = user.display_name;
            created_at = q.created_at;
          }
          ∷ rest))
  ]

unfoldable pub list_incoming : ℕ → ℕ → ℕ → Run HysjError (List ContactRequestDto)
list_incoming auth_user limit offset = do
  requests ← db_do (Requests.get_pending_paginated auth_user limit offset)
  request_dtos requests

-- `let _ = add_contact(…).await`
unfoldable pub try_add : ℕ → ℕ → ℕ → Run HysjError (Unit {0})
try_add user_id contact_user_id now db =
    ((Contacts.add_contact user_id contact_user_id now db).0, ok tt)

unfoldable pub accept_request : ℕ → ℕ → ℕ → Run HysjError (Unit {0})
accept_request auth_user request_id now = do
  req ← db_do (Requests.accept request_id auth_user)
  try_add auth_user req.from_user_id now
  try_add req.from_user_id auth_user now

unfoldable pub reject_request : ℕ → ℕ → Run HysjError (Unit {0})
reject_request auth_user request_id = db_do (Requests.reject request_id auth_user)
