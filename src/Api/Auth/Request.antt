-- ===== src/Api/Auth/Request.antt =====
-- crates/hysj-api/src/routes/auth.rs and middleware/auth.rs: the client's address, the authenticated
-- user, and `?` on an operation of hysj-auth.
use hysj.Base.{
  ℕ, Bool, ◌&&◌, ◌||◌, Option, none, some, Bytes, [], ◌∷◌, length, lit, ◌==◌, if◌then◌else◌, Result,
  ok, err, panic,
}
use hysj.Auth.Libraries.{
  Libraries, AuthError, hashing_failed, token_creation_failed, token_validation_failed,
  invalid_token, expired, totp_error, certificate_error,
}
use hysj.Auth.Jwt.{validate_token}
use hysj.Database.{Run, lift, ◌>>=◌}
use hysj.Messaging.Queue.{strip_prefix}
use hysj.Api.Error.{HysjError, auth_failed, token_expired}
use hysj.Api.Error

-- From<hysj_auth::AuthError> for AppError.
abbrev pub of_auth_error : AuthError → HysjError
of_auth_error expired = token_expired
of_auth_error invalid_token = Error.HysjError.invalid_token
of_auth_error hashing_failed = auth_failed
of_auth_error token_creation_failed = auth_failed
of_auth_error token_validation_failed = auth_failed
of_auth_error totp_error = auth_failed
of_auth_error certificate_error = auth_failed

abbrev pub auth_do : {A : Type 0} → Result AuthError A → Run HysjError A
auth_do (ok a) = lift (ok a)
auth_do (err e) = lift (err (of_auth_error e))
auth_do panic = lift panic

-- `.map_err(|e| AppError(HysjError::AuthFailed(e.to_string())))?`
abbrev pub password_do : {A : Type 0} → Result AuthError A → Run HysjError A
password_do (ok a) = lift (ok a)
password_do (err e) = lift (err auth_failed)
password_do panic = lift panic

abbrev pub or_error : {A : Type 0} → HysjError → Option A → Run HysjError A
or_error e none = lift (err e)
or_error e (some a) = lift (ok a)

-- `split(',').next()`
unfoldable pub before_comma : Bytes → Bytes
before_comma [] = []
before_comma (b ∷ bs) = let rest = before_comma bs in if b == 44 then [] else b ∷ rest

-- The white space of a header's text is a blank or a tab.
abbrev is_space : ℕ → Bool
is_space b = b == 32 || b == 9

unfoldable pub trim_end : Bytes → Bytes
trim_end [] = []
trim_end (b ∷ bs) =
    let rest = trim_end bs in if is_space b && length rest == 0 then [] else b ∷ rest

unfoldable pub trim : Bytes → Bytes
trim [] = []
trim (b ∷ bs) = let rest = trim bs in if is_space b then rest else trim_end (b ∷ bs)

-- A header by its name, if its value is text.
unfoldable pub extract_ip : (Bytes → Option Bytes) → Bytes
extract_ip headers = elim (headers (lit "cf-connecting-ip")) [
  | some cf ↦ cf
  | none ↦ elim (headers (lit "x-forwarded-for")) [
    | some xff ↦ trim (before_comma xff)
    | none ↦ elim (headers (lit "x-real-ip")) [ some real ↦ real | none ↦ lit "unknown" ]
  ]
]

pub record AuthUser : Type 0 where
  pub user_id : ℕ
  pub device_id : ℕ
  pub username : Bytes

module _ ⦃l : Libraries⦄ where
  abbrev pub uuid_or : Bytes → Run HysjError ℕ
  uuid_or text = or_error Error.HysjError.invalid_token (l.parse_uuid text)

  -- The value of the Authorization header comes first.
  unfoldable pub from_request_parts : Option Bytes → Bytes → ℕ → Run HysjError AuthUser
  from_request_parts header jwt_secret now = do
    auth_header ← or_error auth_failed header
    token ← or_error auth_failed (strip_prefix (lit "Bearer ") auth_header)
    claims ← auth_do (validate_token token jwt_secret now)
    user_id ← uuid_or claims.sub
    device_id ← uuid_or claims.device_id
    lift (ok (record { user_id = user_id; device_id = device_id; username = claims.username }))
