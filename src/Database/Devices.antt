-- ===== src/Database/Devices.antt =====
-- crates/hysj-db/src/devices.rs. New ids and the clock come last.
use hysj.Base.{
  ℕ, ◌-◌, Bool, true, false, ◌&&◌, Option, none, some, Bytes, List, [], ◌∷◌, ◌++◌, length, lit, ltb,
  ◌==◌, if◌then◌else◌, ok, err,
}
use hysj.Database.{DbError, query_failed, not_found, conflict, Device, PreKey, Run}
use hysj.Database.Users.{is_user, characters}
use hysj.Database.Groups.{elem, is_some}

unfoldable pub find_device : ℕ → List Device → Option Device
find_device id [] = none
find_device id (d ∷ ds) = if d.id == id then some d else find_device id ds

unfoldable pub register_device : ℕ → Bytes → Bytes → Bytes → Bytes → ℕ → ℕ → Run DbError Device
register_device user_id device_name signed_pre_key signed_pre_key_sig kyber_public_key id now db =
    let device : Device = record {
      id = id;
      user_id = user_id;
      device_name = device_name;
      push_token = none;
      signed_pre_key = signed_pre_key;
      signed_pre_key_sig = signed_pre_key_sig;
      kyber_public_key = kyber_public_key;
      is_online = false;
      last_active_at = now;
      registered_at = now;
    } in
    if ltb 64 (characters device_name)
    then (db, err query_failed)
    else if is_some (find_device id db.devices)
    then (db, err conflict)
    else if is_user user_id db.users
    then (record db { devices = db.devices ++ device ∷ [] }, ok device)
    else (db, err query_failed)

unfoldable pub find_by_id : ℕ → Run DbError Device
find_by_id device_id db = elim (find_device device_id db.devices) [
  | none ↦ (db, err not_found)
  | some device ↦ (db, ok device)
]

-- ORDER BY registered_at ASC; rows of one time stay in the table's order.
unfoldable pub insert_by_time : Device → List Device → List Device
insert_by_time d [] = d ∷ []
insert_by_time d (e ∷ es) =
    let rest = insert_by_time d es in
    if ltb e.registered_at d.registered_at then e ∷ rest else d ∷ e ∷ es

-- WHERE user_id = ANY($1)
unfoldable pub devices_of : List ℕ → List Device → List Device
devices_of user_ids [] = []
devices_of user_ids (d ∷ ds) =
    let rest = devices_of user_ids ds in
    if elem d.user_id user_ids then insert_by_time d rest else rest

unfoldable pub list_by_users : List ℕ → Run DbError (List Device)
list_by_users user_ids db = (db, ok (devices_of user_ids db.devices))

unfoldable pub list_by_user : ℕ → Run DbError (List Device)
list_by_user user_id db = (db, ok (devices_of (user_id ∷ []) db.devices))

-- DELETE FROM devices WHERE id = $1 AND user_id = $2
unfoldable pub delete_row : ℕ → ℕ → List Device → List Device
delete_row device_id user_id [] = []
delete_row device_id user_id (d ∷ ds) =
    let rest = delete_row device_id user_id ds in
    if d.id == device_id && d.user_id == user_id then rest else d ∷ rest

-- ON DELETE CASCADE
unfoldable pub delete_pre_keys : ℕ → List PreKey → List PreKey
delete_pre_keys device_id [] = []
delete_pre_keys device_id (k ∷ ks) =
    let rest = delete_pre_keys device_id ks in if k.device_id == device_id then rest else k ∷ rest

unfoldable pub delete_device : ℕ → ℕ → Run DbError Bool
delete_device device_id user_id db =
    let kept = delete_row device_id user_id db.devices in
    if ltb 0 (length db.devices - length kept)
    then (record db { devices = kept; pre_keys = delete_pre_keys device_id db.pre_keys }, ok true)
    else (record db { devices = kept }, ok false)

-- UPDATE devices SET is_online = $1, last_active_at = $2 WHERE id = $3
unfoldable pub mark_online : ℕ → Bool → ℕ → List Device → List Device
mark_online device_id online now [] = []
mark_online device_id online now (d ∷ ds) =
    let rest = mark_online device_id online now ds in
    if d.id == device_id
    then record d { is_online = online; last_active_at = now } ∷ rest
    else d ∷ rest

unfoldable pub set_online : ℕ → Bool → ℕ → Run DbError (Unit {0})
set_online device_id online now db =
    (record db { devices = mark_online device_id online now db.devices }, ok tt)

unfoldable pub put_token : ℕ → Bytes → List Device → List Device
put_token device_id push_token [] = []
put_token device_id push_token (d ∷ ds) =
    let rest = put_token device_id push_token ds in
    if d.id == device_id then record d { push_token = some push_token } ∷ rest else d ∷ rest

unfoldable pub update_push_token : ℕ → Bytes → Run DbError (Unit {0})
update_push_token device_id push_token db =
    (record db { devices = put_token device_id push_token db.devices }, ok tt)

-- ORDER BY last_active_at DESC LIMIT 1
unfoldable pub last_active : ℕ → List Device → Option Device
last_active user_id [] = none
last_active user_id (d ∷ ds) =
    let rest = last_active user_id ds in
    if d.user_id == user_id
    then elim rest [
      | none ↦ some d
      | some e ↦ if ltb d.last_active_at e.last_active_at then some e else some d
    ]
    else rest

unfoldable pub find_one_device_for_user : ℕ → Run DbError Device
find_one_device_for_user user_id db = elim (last_active user_id db.devices) [
  | none ↦ (db, err not_found)
  | some device ↦ (db, ok device)
]

-- A device for the tests.
abbrev pub phone : ℕ → ℕ → Device
phone id user_id = record {
  id = id;
  user_id = user_id;
  device_name = lit "phone";
  push_token = none;
  signed_pre_key = [];
  signed_pre_key_sig = [];
  kyber_public_key = [];
  is_online = false;
  last_active_at = 0;
  registered_at = 0;
}
