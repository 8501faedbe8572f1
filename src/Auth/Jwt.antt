-- ===== src/Auth/Jwt.antt =====
-- crates/hysj-auth/src/jwt.rs. The clock comes last.
use hysj.Base.{ℕ, ◌+◌, Bytes, Result, ok, err, panic}
use hysj.Auth.Libraries.{
  Libraries, AuthError, Claims, JwtError, expired_signature, malformed, other, expired,
  invalid_token, token_validation_failed,
}

-- 15 * 60
abbrev pub access_token_expiry_seconds : ℕ
access_token_expiry_seconds = 900

-- 30 * 24 * 60 * 60
abbrev pub refresh_token_expiry_seconds : ℕ
refresh_token_expiry_seconds = 2592000

abbrev of_jwt_error : JwtError → AuthError
of_jwt_error expired_signature = expired
of_jwt_error malformed = invalid_token
of_jwt_error other = token_validation_failed

module _ ⦃l : Libraries⦄ where
  abbrev pub claims_for : ℕ → ℕ → Bytes → ℕ → ℕ → Claims
  claims_for user_id device_id username seconds now = record {
    sub = l.uuid_text user_id;
    device_id = l.uuid_text device_id;
    username = username;
    exp = now + seconds;
    iat = now;
  }

  -- HS256 signs whatever claims.
  unfoldable pub create_access_token : ℕ → ℕ → Bytes → Bytes → ℕ → Result AuthError Bytes
  create_access_token user_id device_id username secret now =
      ok (l.encode (claims_for user_id device_id username access_token_expiry_seconds now) secret)

  unfoldable pub create_refresh_token : ℕ → ℕ → Bytes → Bytes → ℕ → Result AuthError Bytes
  create_refresh_token user_id device_id username secret now =
      ok (l.encode (claims_for user_id device_id username refresh_token_expiry_seconds now) secret)

  unfoldable pub validate_token : Bytes → Bytes → ℕ → Result AuthError Claims
  validate_token token secret now = elim (l.decode token secret now) [
    | ok claims ↦ ok claims
    | err e ↦ err (of_jwt_error e)
    | panic ↦ panic
  ]
