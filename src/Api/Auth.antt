-- ===== src/Api/Auth.antt =====
-- crates/hysj-api/src/routes/auth.rs: registration, login and tokens. Random salts, new ids and the
-- clock come last; the rate limiter has a clock of its own.
pub mod Request
pub mod Profile
pub mod Refresh
pub mod Login
pub mod Session
pub mod Register
mod Examples
use hysj.Base.{
  ℕ, ◌+◌, Bool, true, false, not, ◌&&◌, ◌||◌, Option, none, some, Bytes, List, [], ◌∷◌, ◌++◌,
  length, lit, ltb, ◌==◌, if◌then◌else◌, Result, ok, err, panic,
}
use hysj.Auth.Libraries.{Libraries, hash_password, verify_password}
use hysj.Auth.Jwt.{create_access_token, create_refresh_token, validate_token}
use hysj.Database.{User, Device, Db, Run, lift, ◌>>=◌, ◌>>◌}
use hysj.Database.Users
use hysj.Database.Devices
use hysj.Database.Keys
use hysj.Database.Logins
use hysj.Api.RateLimit.{Entries, check_rate_limit}
use hysj.Api.Error.{
  HysjError, auth_failed, invalid_credentials, rate_limited, invalid_token, internal,
  validation_error, device_not_found, db_do,
}
use hysj.Api.Auth.Request.{auth_do, password_do, or_error, uuid_or}

pub record RegisterRequest : Type 0 where
  pub username : Option Bytes
  pub phone_number : Bytes
  pub password : Bytes
  pub identity_public_key : Bytes
  pub signed_pre_key : Bytes
  pub signed_pre_key_signature : Bytes
  pub kyber_public_key : Bytes
  pub one_time_pre_keys : List Bytes
  pub device_name : Bytes

pub record LoginRequest : Type 0 where
  pub phone_number : Bytes
  pub password : Bytes
  pub device_id : Option ℕ

pub record LoginResponse : Type 0 where
  pub access_token : Bytes
  pub refresh_token : Bytes
  pub user_id : ℕ
  pub device_id : ℕ
  pub requires_2fa : Bool

-- A handler behind the in-memory limiter. Its panic is that of a clock below the window.
abbrev pub Limited : Type 0 → Type 0
Limited A = Entries → Db → Entries × (Db × Result HysjError A)

abbrev pub limited :
    {S A : Type 0}
    → Bytes
    → ℕ
    → ℕ
    → ℕ
    → (S → S × Result HysjError A)
    → Entries
    → S
    → Entries × (S × Result HysjError A)
limited key max_requests window instant handler entries db =
    let checked = check_rate_limit key max_requests window instant entries in
    elim checked.1 [
      | ok allowed ↦ elim allowed [
        | true ↦ (checked.0, handler db)
        | false ↦ (checked.0, (db, err rate_limited))
      ]
      | err e ↦ (checked.0, (db, panic))
      | panic ↦ (checked.0, (db, panic))
    ]

-- LOGIN_MAX and REGISTER_MAX; the windows and the lockout are 60 seconds each.
abbrev pub login_max : ℕ
login_max = 100

abbrev pub or_empty : Option Bytes → Bytes
or_empty none = []
or_empty (some b) = b

-- `!username.is_empty() && (username.len() < 3 || username.len() > 32)`
abbrev pub is_bad_username : Bytes → Bool
is_bad_username name = not (length name == 0) && (ltb (length name) 3 || ltb 32 (length name))

-- The checks before anything is stored.
unfoldable pub check_request : RegisterRequest → Run HysjError (Unit {0})
check_request req =
    if is_bad_username (or_empty req.username)
    then lift (err validation_error)
    else if length req.device_name == 0 || ltb 64 (length req.device_name)
    then lift (err validation_error)
    else if ltb (length req.password) 8
    then lift (err validation_error)
    else lift (ok tt)

module _ ⦃l : Libraries⦄ where
  unfoldable pub decode_all : List Bytes → Option (List Bytes)
  decode_all [] = some []
  decode_all (k ∷ ks) = elim (l.b64_decode k) [
    | none ↦ none
    | some b ↦ elim (decode_all ks) [ none ↦ none | some bs ↦ some (b ∷ bs) ]
  ]

  -- The two tokens of a user and a device.
  unfoldable pub tokens : ℕ → ℕ → Bytes → Bytes → ℕ → Run HysjError LoginResponse
  tokens user_id device_id username jwt_secret now = do
    access_token ← auth_do (create_access_token user_id device_id username jwt_secret now)
    refresh_token ← auth_do (create_refresh_token user_id device_id username jwt_secret now)
    lift (
        ok (record {
          access_token = access_token;
          refresh_token = refresh_token;
          user_id = user_id;
          device_id = device_id;
          requires_2fa = false;
        }))

  -- From the user on: the device and its keys.
  unfoldable pub register_device :
      RegisterRequest → User → Bytes → ℕ → ℕ → Run HysjError LoginResponse
  register_device req user jwt_secret device_id now = do
    signed_pre_key ← or_error validation_error (l.b64_decode req.signed_pre_key)
    signed_pre_key_sig ← or_error validation_error (l.b64_decode req.signed_pre_key_signature)
    kyber_pk ← or_error validation_error (l.b64_decode req.kyber_public_key)
    device ← db_do (
        Devices.register_device user.id req.device_name signed_pre_key signed_pre_key_sig kyber_pk
          device_id now)
    pre_key_bytes ← or_error validation_error (decode_all req.one_time_pre_keys)
    count ← db_do (Keys.store_pre_keys device.id pre_key_bytes now)
    tokens user.id device.id user.username jwt_secret now

  unfoldable pub register_user :
      RegisterRequest → Bytes → Bytes → ℕ → ℕ → ℕ → Run HysjError LoginResponse
  register_user req jwt_secret salt user_id device_id now = do
    check_request req
    (password_hash, hash_salt) ← password_do (hash_password req.password salt)
    identity_pk ← or_error validation_error (l.b64_decode req.identity_public_key)
    user ← db_do (
        Users.create_user (or_empty req.username) req.phone_number password_hash hash_salt
          identity_pk identity_pk user_id now)
    register_device req user jwt_secret device_id now

  unfoldable pub register :
      Bytes → RegisterRequest → Bytes → Bytes → ℕ → ℕ → ℕ → ℕ → Limited LoginResponse
  register ip req jwt_secret salt user_id device_id now instant =
      limited (lit "register:" ++ ip) login_max 60 instant
        (register_user req jwt_secret salt user_id device_id now)

  -- The device that is named, or the user's latest.
  unfoldable pub login_device : Option ℕ → ℕ → Run HysjError Device
  login_device none user_id db = elim (Devices.find_one_device_for_user user_id db).1 [
    | ok d ↦ (db, ok d)
    | err e ↦ (db, err auth_failed)
    | panic ↦ (db, panic)
  ]
  login_device (some device_id) user_id db = elim (Devices.find_by_id device_id db).1 [
    | ok d ↦ (db, ok d)
    | err e ↦ (db, err (device_not_found device_id))
    | panic ↦ (db, panic)
  ]

  -- After a valid password. Uuid::nil() is 0.
  unfoldable pub login_user : LoginRequest → User → Bytes → ℕ → Run HysjError LoginResponse
  login_user req user jwt_secret now =
      if user.has_2fa_enabled
      then lift (
          ok (record {
            access_token = [];
            refresh_token = [];
            user_id = user.id;
            device_id = 0;
            requires_2fa = true;
          }))
      else do
        device ← login_device req.device_id user.id
        response ← tokens user.id device.id user.username jwt_secret now
        db_do (Users.update_last_seen user.id now)
        lift (ok response)

  unfoldable pub check_password :
      Bytes → LoginRequest → User → Bytes → ℕ → Run HysjError LoginResponse
  check_password ip req user jwt_secret now = do
    valid ← password_do (verify_password req.password user.password_hash)
    if valid then db_do (Logins.record_attempt ip (some user.id) true now) else do
      db_do (Logins.record_attempt ip (some user.id) false now)
      lift (err invalid_credentials)
    login_user req user jwt_secret now

  unfoldable pub login_unlimited : Bytes → LoginRequest → Bytes → ℕ → Run HysjError LoginResponse
  login_unlimited ip req jwt_secret now = do
    locked ← db_do (Logins.is_locked_out ip login_max 60 now)
    if locked then lift (err rate_limited) else lift (ok tt)
    found ← db_do (Users.find_by_phone_number req.phone_number)
    user ← or_error invalid_credentials found
    check_password ip req user jwt_secret now

  unfoldable pub login : Bytes → LoginRequest → Bytes → ℕ → ℕ → Limited LoginResponse
  login ip req jwt_secret now instant =
      limited (lit "login:" ++ ip) login_max 60 instant (login_unlimited ip req jwt_secret now)

  -- Any valid token will do.
  unfoldable pub refresh : Bytes → Bytes → ℕ → Run HysjError LoginResponse
  refresh refresh_token jwt_secret now = do
    claims ← auth_do (validate_token refresh_token jwt_secret now)
    user_id ← uuid_or claims.sub
    device_id ← uuid_or claims.device_id
    tokens user_id device_id claims.username jwt_secret now
