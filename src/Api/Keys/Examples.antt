-- ===== src/Api/Keys/Examples.antt =====
-- Runs of the model of the key routes.
use hysj.Base.{arith, Option, ◌≤◌, List, ◌≡◌, false, some, Bytes, [], ◌∷◌, lit, ok}
use mathlib.Core.List.{Mem}
use hysj.Auth.Toy.{toy_libraries}
use hysj.Database.{User, Device, PreKey, Db, empty_db}
use hysj.Database.Users.{account}
use hysj.Database.Devices.{phone}
use hysj.Database.Select.{select, All}
use hysj.Database.Bundles.{public_key_of}
use hysj.Api.Keys.{PreKeyBundleResponse, b64_option, fetch_bundle}
use hysj.Api.Keys.Supply.{Supplied, fetch_bundle-ok}

abbrev key : PreKey
key = record { id = 1; device_id = 4; public_key = lit "a"; is_used = false; created_at = 0 }

-- Device 4 of user 9 has one key.
abbrev db : Db
db = record empty_db {
  users = account 9 ∷ [];
  devices = phone 4 9 ∷ [];
  pre_keys = key ∷ [];
  next_pre_key_id = 2;
}

abbrev keys : List Bytes
keys = (1 ∷ lit "x") ∷ (1 ∷ lit "y") ∷ []

fetch_bundle-ok_example :
    (u : User) × (d : Device) × (otpk : Option PreKey) × (db' : Db)
    × (bundle : PreKeyBundleResponse) × Mem u (account 9 ∷ [])
    × Mem d (phone 4 9 ∷ [])
    × All (λ e. e.last_active_at ≤ d.last_active_at) (phone 4 9 ∷ [])
    × (fetch_bundle 9 db ≡ (db', ok bundle))
    × (bundle.device_id ≡ toy_libraries.uuid_text d.id)
    × (toy_libraries.b64_decode bundle.identity_public_key ≡ some u.identity_public_key)
    × (toy_libraries.b64_decode bundle.signed_pre_key ≡ some d.signed_pre_key)
    × (toy_libraries.b64_decode bundle.signed_pre_key_signature ≡ some d.signed_pre_key_sig)
    × (toy_libraries.b64_decode bundle.kyber_public_key ≡ some d.kyber_public_key)
    × (bundle.one_time_pre_key ≡ b64_option (public_key_of otpk))
    × Supplied d.id otpk db db'
unfolding select
fetch_bundle-ok_example = fetch_bundle-ok 9 db (omega arith) (omega arith)
