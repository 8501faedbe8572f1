-- ===== src/Database/Users.antt =====
-- crates/hysj-db/src/users.rs, but for the deletion of a user. New ids and the clock come last. The
-- keys are those of migrations/001_initial.sql: id, username and phone_number are unique.
use hysj.Base.{
  ℕ, ◌+◌, Bool, true, false, not, ◌&&◌, ◌||◌, Option, none, some, Bytes, bytes_eq, List, [], ◌∷◌,
  ◌++◌, lit, ltb, leb, ◌==◌, if◌then◌else◌, ok, err,
}
use hysj.Database.{DbError, query_failed, not_found, conflict, User, Run}

unfoldable pub is_user : ℕ → List User → Bool
is_user id [] = false
is_user id (u ∷ us) = if u.id == id then true else is_user id us

-- VARCHAR counts characters: the bytes that do not continue one.
unfoldable pub characters : Bytes → ℕ
characters [] = 0
characters (b ∷ bs) = let rest = characters bs in if leb 128 b && ltb b 192 then rest else 1 + rest

-- The first row that passes a test.
unfoldable pub find_user : (User → Bool) → List User → Option User
find_user p [] = none
find_user p (u ∷ us) = if p u then some u else find_user p us

abbrev pub has_id : ℕ → User → Bool
has_id id u = u.id == id

abbrev pub has_name : Bytes → User → Bool
has_name username u = bytes_eq u.username username

abbrev pub has_phone : Bytes → User → Bool
has_phone phone_number u = bytes_eq u.phone_number phone_number

abbrev pub taken : Option User → Bool
taken none = false
taken (some u) = true

unfoldable pub create_user :
    Bytes → Bytes → Bytes → Bytes → Bytes → Bytes → ℕ → ℕ → Run DbError User
create_user username phone_number password_hash salt identity_public_key identity_dh_public_key id
      now db =
    let user : User = record {
      id = id;
      username = username;
      phone_number = phone_number;
      display_name = none;
      password_hash = password_hash;
      salt = salt;
      identity_public_key = identity_public_key;
      identity_dh_public_key = identity_dh_public_key;
      totp_secret = none;
      has_2fa_enabled = false;
      created_at = now;
      last_seen_at = now;
      avatar_url = none;
      status = lit "online";
    } in
    if ltb 32 (characters username) || ltb 20 (characters phone_number)
    then (db, err query_failed)
    else if is_user id db.users
        || taken (find_user (has_name username) db.users)
        || taken (find_user (has_phone phone_number) db.users)
    then (db, err conflict)
    else (record db { users = user ∷ db.users }, ok user)

unfoldable pub find_by_id : ℕ → Run DbError (Option User)
find_by_id id db = (db, ok (find_user (has_id id) db.users))

unfoldable pub find_by_username : Bytes → Run DbError (Option User)
find_by_username username db = (db, ok (find_user (has_name username) db.users))

unfoldable pub find_by_phone_number : Bytes → Run DbError (Option User)
find_by_phone_number phone_number db = (db, ok (find_user (has_phone phone_number) db.users))

unfoldable pub is_username_available : Bytes → Run DbError Bool
is_username_available username db = (db, ok (not (taken (find_user (has_name username) db.users))))

-- UPDATE users SET … WHERE id = …
unfoldable pub change : ℕ → (User → User) → List User → List User
change id f [] = []
change id f (u ∷ us) = let rest = change id f us in if u.id == id then f u ∷ rest else u ∷ rest

-- An update of one user, which fails where there is none.
unfoldable pub update : ℕ → (User → User) → Run DbError (Unit {0})
update id f db =
    if is_user id db.users
    then (record db { users = change id f db.users }, ok tt)
    else (db, err not_found)

unfoldable pub update_last_seen : ℕ → ℕ → Run DbError (Unit {0})
update_last_seen user_id now = update user_id (λ u. record u { last_seen_at = now })

unfoldable pub enable_2fa : ℕ → Bytes → Run DbError (Unit {0})
enable_2fa user_id totp_secret =
    update user_id (λ u. record u { totp_secret = some totp_secret; has_2fa_enabled = true })

unfoldable pub disable_2fa : ℕ → Run DbError (Unit {0})
disable_2fa user_id = update user_id (λ u. record u { totp_secret = none; has_2fa_enabled = false })

-- A name of another user is a conflict.
unfoldable pub set_username : ℕ → Bytes → Run DbError (Unit {0})
set_username user_id username db =
    let others = λ (u : User). has_name username u && not (u.id == user_id) in
    if not (is_user user_id db.users)
    then (db, err not_found)
    else if ltb 32 (characters username)
    then (db, err query_failed)
    else if taken (find_user others db.users)
    then (db, err conflict)
    else (
      record db { users = change user_id (λ u. record u { username = username }) db.users },
      ok tt,
    )

unfoldable pub set_display_name : ℕ → Bytes → Run DbError (Unit {0})
set_display_name user_id display_name =
    update user_id (λ u. record u { display_name = some display_name })

unfoldable pub set_avatar : ℕ → Option Bytes → Run DbError (Unit {0})
set_avatar user_id avatar_url = update user_id (λ u. record u { avatar_url = avatar_url })

-- The column is VARCHAR(16).
unfoldable pub set_status : ℕ → Bytes → Run DbError (Unit {0})
set_status user_id status db =
    if is_user user_id db.users && ltb 16 (characters status)
    then (db, err query_failed)
    else update user_id (λ u. record u { status = status }) db

-- A user for the tests.
abbrev pub account : ℕ → User
account id = record {
  id = id;
  username = lit "u" ++ id ∷ [];
  phone_number = lit "+" ++ id ∷ [];
  display_name = none;
  password_hash = lit "h";
  salt = [];
  identity_public_key = lit "k";
  identity_dh_public_key = lit "k";
  totp_secret = none;
  has_2fa_enabled = false;
  created_at = 0;
  last_seen_at = 0;
  avatar_url = none;
  status = lit "online";
}
