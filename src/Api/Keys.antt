-- ===== src/Api/Keys.antt =====
-- crates/hysj-api/src/routes/keys.rs and crates/hysj-shared/src/dto/keys.rs. The authenticated user or
-- device comes first, the clock last.
pub mod Supply
mod Examples
use hysj.Base.{
  ℕ, ◌+◌, Option, none, some, Bytes, List, ◌++◌, length, lit, ltb, ◌==◌, if◌then◌else◌, Result, ok,
  err, panic,
}
use hysj.Auth.Libraries.{Libraries}
use hysj.Database.{Db, DbError, not_found, Run, lift, ◌>>=◌, ◌>>◌}
use hysj.Database.Bundles.{PreKeyBundleData}
use hysj.Database.Bundles
use hysj.Database.Keys
use hysj.Api.Error.{HysjError, validation_error, user_not_found, of_db_error, db_do}
use hysj.Api.Auth.{Limited, limited, decode_all}
use hysj.Api.Auth.Request.{or_error}

pub record PreKeyBundleResponse : Type 0 where
  pub device_id : Bytes
  pub identity_public_key : Bytes
  pub signed_pre_key : Bytes
  pub signed_pre_key_signature : Bytes
  pub one_time_pre_key : Option Bytes
  pub kyber_public_key : Bytes

abbrev pub max_pre_keys_per_device : ℕ
max_pre_keys_per_device = 100

-- PREKEY_FETCH_MAX in PREKEY_FETCH_WINDOW_SECONDS.
abbrev prekey_fetch_max : ℕ
prekey_fetch_max = 30

abbrev prekey_fetch_window_seconds : ℕ
prekey_fetch_window_seconds = 60

-- A row that is missing is a user that is not found.
abbrev pub bundle_error : ℕ → DbError → HysjError
bundle_error user_id not_found = user_not_found user_id
bundle_error user_id e = of_db_error e

abbrev pub bundle_result : {A : Type 0} → ℕ → Result DbError A → Result HysjError A
bundle_result user_id (ok a) = ok a
bundle_result user_id (err e) = err (bundle_error user_id e)
bundle_result user_id panic = panic

-- `get_pre_key_bundle(…).await.map_err(…)?`
abbrev pub bundle_do : {A : Type 0} → ℕ → Run DbError A → Run HysjError A
bundle_do user_id m db = let (db', r) = m db in (db', bundle_result user_id r)

module _ ⦃l : Libraries⦄ where
  abbrev pub b64_option : Option Bytes → Option Bytes
  b64_option none = none
  b64_option (some k) = some (l.b64 k)

  abbrev pub response : PreKeyBundleData → PreKeyBundleResponse
  response bundle = record {
    device_id = l.uuid_text bundle.device_id;
    identity_public_key = l.b64 bundle.identity_public_key;
    signed_pre_key = l.b64 bundle.signed_pre_key;
    signed_pre_key_signature = l.b64 bundle.signed_pre_key_sig;
    one_time_pre_key = b64_option bundle.one_time_pre_key;
    kyber_public_key = l.b64 bundle.kyber_public_key;
  }

  -- Behind the limiter.
  unfoldable pub fetch_bundle : ℕ → Run HysjError PreKeyBundleResponse
  fetch_bundle user_id = do
    bundle ← bundle_do user_id (Bundles.get_pre_key_bundle user_id)
    lift (ok (response bundle))

  unfoldable pub get_pre_key_bundle : ℕ → ℕ → ℕ → Limited PreKeyBundleResponse
  get_pre_key_bundle auth_user user_id instant =
      limited (lit "prekey:" ++ l.uuid_text auth_user) prekey_fetch_max prekey_fetch_window_seconds
        instant (fetch_bundle user_id)

  unfoldable pub replenish_pre_keys : ℕ → List Bytes → ℕ → Run HysjError ℕ
  replenish_pre_keys auth_device pre_keys now =
      if length pre_keys == 0 then lift (err validation_error) else do
        current ← db_do (Keys.count_available_pre_keys auth_device)
        if ltb max_pre_keys_per_device (current + length pre_keys)
            then lift (err validation_error)
            else lift (ok tt)
        keys ← or_error validation_error (decode_all pre_keys)
        db_do (Keys.store_pre_keys auth_device keys now)
