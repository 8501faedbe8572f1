-- ===== src/Api/Auth/Session.antt =====
-- crates/hysj-api/src/routes/auth.rs: what a successful login gives.
use hysj.Base.{
  ℕ, ◌+◌, ◌-◌, ◌≤◌, ◌<◌, ◌≡◌, refl, true, false, some, Bytes, ◌∷◌, ◌++◌, lit, leb, ok, err,
  if◌then◌else◌, Bool-cases, inl, inr, arith,
}
use hysj.Auth.Libraries.{Libraries, verify_password, leeway}
use hysj.Auth.Jwt.{
  access_token_expiry_seconds, refresh_token_expiry_seconds, claims_for, create_access_token,
  create_refresh_token, validate_token,
}
use hysj.Database.{User, Device, Db}
use hysj.Database.Users.{
  find_user, has_phone, find_by_phone_number, characters, update, update_last_seen, change,
}
use hysj.Database.Devices.{find_device, find_by_id}
use hysj.Database.Logins.{record_attempt, failures_after, count_recent_failures, is_locked_out}
use hysj.Api.Error.{database_error}
use hysj.Api.RateLimit.{Entries, check_rate_limit}
use hysj.Api.Auth.{
  LoginRequest, LoginResponse, login_max, login, login_unlimited, check_password, login_user,
  login_device, tokens,
}
use hysj.Api.Auth.Login.{is_user-find_user}

module _ ⦃l : Libraries⦄ where
  -- A login that the in-memory limiter allows, with the number and the password of a user without a
  -- second factor, from an address with fewer than 100 failures in the last minute, that names any
  -- registered device, of whatever user, succeeds if the address has at most 45 characters: the access
  -- token authenticates this user on that device for 15 minutes and the skew, the attempt is recorded as a
  -- success, and the user was last seen now. From a longer address, which the table of attempts does not
  -- take, it fails with a database error, and no table changes.
  pub login-ok :
      (ip : Bytes) (req : LoginRequest) (secret : Bytes) (now instant later : ℕ)
      (entries entries' : Entries) (db : Db) (u : User) (d : Device)
      → check_rate_limit (lit "login:" ++ ip) login_max 60 instant entries ≡ (entries', ok true)
      → failures_after ip (now - 60) db.login_attempts < login_max
      → find_user (has_phone req.phone_number) db.users ≡ some u
      → l.argon2_verify req.password u.password_hash ≡ some true
      → u.has_2fa_enabled ≡ false
      → req.device_id ≡ some d.id
      → find_device d.id db.devices ≡ some d
      → (db' : Db) × (response : LoginResponse) × (login ip req secret now instant entries db ≡ (
        entries',
        if leb (characters ip) 45 then (db', ok response) else (db, err database_error),
      ))
        × (response.user_id ≡ u.id)
        × (response.device_id ≡ d.id)
        × (response.requires_2fa ≡ false)
        × (later ≤ now + access_token_expiry_seconds + leeway
            → validate_token response.access_token secret later
              ≡ ok (claims_for u.id d.id u.username access_token_expiry_seconds now))
        × (db' ≡ record db {
          login_attempts =
              record { ip_address = ip; user_id = some u.id; success = true; attempted_at = now }
              ∷ db.login_attempts;
          users = change u.id (λ x. record x { last_seen_at = now }) db.users;
        })
  unfolding login login_unlimited is_locked_out count_recent_failures find_by_phone_number
      check_password verify_password record_attempt login_user login_device find_by_id tokens
      create_access_token create_refresh_token validate_token update_last_seen update
  login-ok ip req secret now instant later entries entries' db u d a h f v t e g =
      let claims = claims_for u.id d.id u.username access_token_expiry_seconds now in
      let next = claims_for u.id d.id u.username refresh_token_expiry_seconds now in
      (
        record db {
          login_attempts =
              record { ip_address = ip; user_id = some u.id; success = true; attempted_at = now }
              ∷ db.login_attempts;
          users = change u.id (λ x. record x { last_seen_at = now }) db.users;
        },
        record {
          access_token = l.encode claims secret;
          refresh_token = l.encode next secret;
          user_id = u.id;
          device_id = d.id;
          requires_2fa = false;
        },
        elim (Bool-cases (leb (characters ip) 45)) [
          | inl c ↦ ground (arith, is_user-find_user (has_phone req.phone_number) db.users u f)
          | inr c ↦ ground (arith, is_user-find_user (has_phone req.phone_number) db.users u f)
        ],
        refl,
        refl,
        refl,
        (λ k. ground (arith, l.decode-encode claims secret later k)),
        refl,
      )
