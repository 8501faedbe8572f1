-- ===== src/Database/Bundles.antt =====
-- crates/hysj-db/src/keys.rs: get_pre_key_bundle.
use hysj.Base.{ℕ, Option, none, some, Bytes, ok, err}
use hysj.Database.{DbError, not_found, User, PreKey, Run, lift, ◌>>=◌}
use hysj.Database.Users.{find_by_id}
use hysj.Database.Devices.{find_one_device_for_user}
use hysj.Database.Keys.{claim_one_time_pre_key}

pub record PreKeyBundleData : Type 0 where
  pub identity_public_key : Bytes
  pub identity_dh_public_key : Bytes
  pub device_id : ℕ
  pub signed_pre_key : Bytes
  pub signed_pre_key_sig : Bytes
  pub one_time_pre_key : Option Bytes
  pub kyber_public_key : Bytes

abbrev pub public_key_of : Option PreKey → Option Bytes
public_key_of none = none
public_key_of (some k) = some k.public_key

-- `fetch_one` of the user's row.
abbrev pub need_row : Option User → Run DbError User
need_row none = lift (err not_found)
need_row (some user) = lift (ok user)

-- The statement for the device is that of find_one_device_for_user.
unfoldable pub get_pre_key_bundle : ℕ → Run DbError PreKeyBundleData
get_pre_key_bundle user_id = do
  found ← find_by_id user_id
  user ← need_row found
  device ← find_one_device_for_user user_id
  otpk ← claim_one_time_pre_key device.id
  lift (
      ok (record {
        identity_public_key = user.identity_public_key;
        identity_dh_public_key = user.identity_dh_public_key;
        device_id = device.id;
        signed_pre_key = device.signed_pre_key;
        signed_pre_key_sig = device.signed_pre_key_sig;
        one_time_pre_key = public_key_of otpk;
        kyber_public_key = device.kyber_public_key;
      }))
