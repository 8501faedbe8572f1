-- ===== src/Database/Keys.antt =====
-- crates/hysj-db/src/keys.rs: the one-time pre-keys of a device. The clock comes last.
pub mod Claims
use hysj.Base.{
  ℕ, ◌+◌, Bool, true, false, not, ◌&&◌, Option, none, some, Bytes, List, [], ◌∷◌, ◌++◌, leb, ◌==◌,
  if◌then◌else◌, ok, err,
}
use hysj.Database.{DbError, query_failed, PreKey, Db, Run, lift, ◌>>=◌, ◌>>◌}
use hysj.Database.Groups.{is_some}
use hysj.Database.Devices.{find_device}

-- INSERT INTO pre_keys (device_id, public_key, is_used, created_at) VALUES ($1, $2, false, NOW())
unfoldable pub insert_pre_key : ℕ → Bytes → ℕ → Run DbError (Unit {0})
insert_pre_key device_id public_key now db =
    let key : PreKey = record {
      id = db.next_pre_key_id;
      device_id = device_id;
      public_key = public_key;
      is_used = false;
      created_at = now;
    } in
    if is_some (find_device device_id db.devices)
    then (
      record db { pre_keys = db.pre_keys ++ key ∷ []; next_pre_key_id = db.next_pre_key_id + 1 },
      ok tt,
    )
    else (db, err query_failed)

-- The loop with its count.
unfoldable pub store_loop : ℕ → List Bytes → ℕ → ℕ → Run DbError ℕ
store_loop device_id [] now count = lift (ok count)
store_loop device_id (key ∷ keys) now count = do
  insert_pre_key device_id key now
  store_loop device_id keys now (count + 1)

unfoldable pub store_pre_keys : ℕ → List Bytes → ℕ → Run DbError ℕ
store_pre_keys device_id public_keys now = store_loop device_id public_keys now 0

-- WHERE device_id = $1 AND is_used = false
abbrev pub is_available : ℕ → PreKey → Bool
is_available device_id k = k.device_id == device_id && not k.is_used

-- ORDER BY id ASC LIMIT 1
abbrev pub older : PreKey → Option PreKey → PreKey
older k none = k
older k (some m) = if leb k.id m.id then k else m

unfoldable pub oldest : ℕ → List PreKey → Option PreKey
oldest device_id [] = none
oldest device_id (k ∷ ks) =
    let rest = oldest device_id ks in if is_available device_id k then some (older k rest) else rest

-- UPDATE pre_keys SET is_used = true WHERE id = …
unfoldable pub mark_used : ℕ → List PreKey → List PreKey
mark_used id [] = []
mark_used id (k ∷ ks) =
    let rest = mark_used id ks in
    if k.id == id then record k { is_used = true } ∷ rest else k ∷ rest

unfoldable pub claim_one_time_pre_key : ℕ → Run DbError (Option PreKey)
claim_one_time_pre_key device_id db = elim (oldest device_id db.pre_keys) [
  | none ↦ (db, ok none)
  | some k ↦
      (record db { pre_keys = mark_used k.id db.pre_keys }, ok (some (record k { is_used = true })))
]

unfoldable pub count_rows : ℕ → List PreKey → ℕ
count_rows device_id [] = 0
count_rows device_id (k ∷ ks) =
    let rest = count_rows device_id ks in if is_available device_id k then 1 + rest else rest

unfoldable pub count_available_pre_keys : ℕ → Run DbError ℕ
count_available_pre_keys device_id db = (db, ok (count_rows device_id db.pre_keys))
