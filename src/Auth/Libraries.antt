-- ===== src/Auth/Libraries.antt =====
-- What crates/hysj-auth and the routes take from third-party crates (argon2, jsonwebtoken, totp-rs,
-- base64, uuid), as a parameter with documented laws; crates/hysj-auth/src/lib.rs: the error type; and
-- password.rs and totp.rs, which only call them. Times are in seconds.
use hysj.Base.{
  ℕ, ◌+◌, ◌≤◌, ◌<◌, ◌≡◌, Bool, true, Option, none, some, Bytes, Result, ok, err, panic, or_fail,
}

-- The message texts are left out.
pub data AuthError : Type 0 where
  hashing_failed token_creation_failed token_validation_failed invalid_token expired : AuthError
  totp_error certificate_error : AuthError

pub record Claims : Type 0 where
  pub sub : Bytes
  pub device_id : Bytes
  pub username : Bytes
  pub exp : ℕ
  pub iat : ℕ

pub data JwtError : Type 0 where
  expired_signature malformed other : JwtError

-- Validation::new allows for 60 seconds of clock skew.
abbrev pub leeway : ℕ
leeway = 60

pub record Libraries : Type 0 where
  -- argon2: the password and the salt; the password and the hash, `none` if that is no hash.
  pub argon2_hash : Bytes → Bytes → Option Bytes
  pub argon2_verify : Bytes → Bytes → Option Bool
  pub argon2_verify-hash :
      (password salt hash : Bytes)
      → argon2_hash password salt ≡ some hash
      → argon2_verify password hash ≡ some true
  -- jsonwebtoken, HS256: the claims and the secret; the token, the secret and the clock.
  pub encode : Claims → Bytes → Bytes
  pub decode : Bytes → Bytes → ℕ → Result JwtError Claims
  pub decode-encode :
      (claims : Claims) (secret : Bytes) (now : ℕ)
      → now ≤ claims.exp + leeway
      → decode (encode claims secret) secret now ≡ ok claims
  pub decode-encode_late :
      (claims : Claims) (secret : Bytes) (now : ℕ)
      → claims.exp + leeway < now
      → decode (encode claims secret) secret now ≡ err expired_signature
  -- totp-rs: `none` if the secret is no secret.
  pub totp_url : Bytes → Bytes → Option Bytes
  pub totp_check : Bytes → Bytes → ℕ → Option Bool
  pub b64 : Bytes → Bytes
  pub b64_decode : Bytes → Option Bytes
  pub b64_decode-b64 : (bytes : Bytes) → b64_decode (b64 bytes) ≡ some bytes
  pub uuid_text : ℕ → Bytes
  pub parse_uuid : Bytes → Option ℕ
  pub parse_uuid-text : (id : ℕ) → parse_uuid (uuid_text id) ≡ some id

module _ ⦃l : Libraries⦄ where
  -- (hash, salt). The salt is drawn at random.
  unfoldable pub hash_password : Bytes → Bytes → Result AuthError (Bytes × Bytes)
  hash_password password salt = elim (l.argon2_hash password salt) [
    | none ↦ err hashing_failed
    | some hash ↦ ok (hash, salt)
  ]

  unfoldable pub verify_password : Bytes → Bytes → Result AuthError Bool
  verify_password password hash = or_fail (l.argon2_verify password hash) hashing_failed

  -- `expect`: an unusable secret panics.
  unfoldable pub generate_totp_uri : Bytes → Bytes → Result AuthError Bytes
  generate_totp_uri secret username = elim (l.totp_url secret username) [
    | none ↦ panic
    | some url ↦ ok url
  ]

  unfoldable pub verify_totp : Bytes → Bytes → ℕ → Result AuthError Bool
  verify_totp secret code now = or_fail (l.totp_check secret code now) totp_error
