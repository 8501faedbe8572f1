-- ===== src/Api/Auth/Profile.antt =====
-- crates/hysj-api/src/routes/auth.rs: the second factor, the profile and the sender certificate. The
-- authenticated user comes first.
use hysj.Base.{
  ℕ, Bool, false, ◌||◌, Option, none, some, Bytes, bytes_eq, length, lit, ltb, ◌==◌, if◌then◌else◌,
  ok, err,
}
use hysj.Base.Utf8.{is_utf8}
use hysj.Crypto.Primitives.{Primitives, Json}
use hysj.Auth.Libraries.{Libraries, generate_totp_uri, verify_totp}
use hysj.Auth.Certificate.{SenderCertificate, get_signing_keypair_from_seed, sign_certificate}
use hysj.Database.{Run, lift, ◌>>=◌, ◌>>◌}
use hysj.Database.Users
use hysj.Database.Accounts.{delete_user}
use hysj.Api.Error.{
  HysjError, validation_error, internal, user_not_found, invalid_two_factor_code, db_do,
}
use hysj.Api.Auth.Request.{AuthUser, auth_do, password_do, or_error}

pub record TwoFactorSetupResponse : Type 0 where
  pub secret : Bytes
  pub qr_uri : Bytes

pub record SenderCertificateResponse : Type 0 where
  pub certificate : Bytes
  pub server_public_key : Bytes

unfoldable pub set_username : ℕ → Bytes → Run HysjError (Unit {0})
set_username auth_user username =
    if ltb (length username) 3 || ltb 32 (length username)
    then lift (err validation_error)
    else db_do (Users.set_username auth_user username)

unfoldable pub username_available : Bytes → Run HysjError Bool
username_available username = db_do (Users.is_username_available username)

unfoldable pub set_display_name : ℕ → Bytes → Run HysjError (Unit {0})
set_display_name auth_user display_name =
    if length display_name == 0 || ltb 64 (length display_name)
    then lift (err validation_error)
    else db_do (Users.set_display_name auth_user display_name)

unfoldable pub delete_account : ℕ → Run HysjError (Unit {0})
delete_account auth_user = db_do (delete_user auth_user)

abbrev is_long : Option Bytes → Bool
is_long none = false
is_long (some url) = ltb 2048 (length url)

unfoldable pub set_avatar : ℕ → Option Bytes → Run HysjError (Unit {0})
set_avatar auth_user avatar_url =
    if is_long avatar_url
    then lift (err validation_error)
    else db_do (Users.set_avatar auth_user avatar_url)

abbrev is_status : Bytes → Bool
is_status s =
    bytes_eq s (lit "online")
    || bytes_eq s (lit "away")
    || bytes_eq s (lit "dnd")
    || bytes_eq s (lit "offline")

unfoldable pub set_user_status : ℕ → Bytes → Run HysjError (Unit {0})
set_user_status auth_user status =
    if is_status status
    then db_do (Users.set_status auth_user status)
    else lift (err validation_error)

module _ ⦃l : Libraries⦄ where
  -- `secret` is the new random secret, in base32.
  unfoldable pub setup_2fa : AuthUser → Bytes → Run HysjError TwoFactorSetupResponse
  setup_2fa auth secret = do
    qr_uri ← auth_do (generate_totp_uri secret auth.username)
    db_do (Users.enable_2fa auth.user_id secret)
    lift (ok (record { secret = secret; qr_uri = qr_uri }))

  -- The start of `verify_2fa` and `disable_2fa`: the code is right for the user's secret.
  unfoldable pub check_code : ℕ → Bytes → ℕ → Run HysjError (Unit {0})
  check_code auth_user code now = do
    found ← db_do (Users.find_by_id auth_user)
    user ← or_error (user_not_found auth_user) found
    totp_secret ← or_error validation_error user.totp_secret
    if is_utf8 totp_secret then lift (ok tt) else lift (err internal)
    valid ← password_do (verify_totp totp_secret code now)
    if valid then lift (ok tt) else lift (err invalid_two_factor_code)

  unfoldable pub verify_2fa : ℕ → Bytes → ℕ → Run HysjError (Unit {0})
  verify_2fa auth_user code now = check_code auth_user code now

  unfoldable pub disable_2fa : ℕ → Bytes → ℕ → Run HysjError (Unit {0})
  disable_2fa auth_user code now = do
    check_code auth_user code now
    db_do (Users.disable_2fa auth_user)

  module _ ⦃p : Primitives⦄ ⦃j : Json SenderCertificate⦄ where
    -- `seed` is the server's certificate signing seed.
    unfoldable pub sender_certificate :
        AuthUser → Bytes → ℕ → Run HysjError SenderCertificateResponse
    sender_certificate auth seed now = do
      found ← db_do (Users.find_by_id auth.user_id)
      user ← or_error (user_not_found auth.user_id) found
      let keys = get_signing_keypair_from_seed seed
      let cert = sign_certificate auth.user_id auth.username user.identity_public_key keys.0 now
      lift (ok (record { certificate = l.b64 (j.to_vec cert); server_public_key = l.b64 keys.1 }))
