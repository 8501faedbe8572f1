-- ===== src/Messaging/Otp.antt =====
-- crates/hysj-messaging/src/otp.rs: one-time codes and the tokens that a verified number gets.
pub mod Laws
use hysj.Base.{
  ℕ, Bool, true, false, Option, none, some, Bytes, bytes_eq, List, [], ◌∷◌, ◌++◌, ◌+◌, lit,
  if◌then◌else◌, ok,
}
use hysj.Messaging.Redis.{Redis, MessagingError, Run, is_some, lift, ◌>>=◌, ◌>>◌}

unfoldable pub otp_key : Bytes → Bytes
otp_key phone_number = lit "otp:" ++ phone_number

unfoldable pub token_key : Bytes → Bytes
token_key token = lit "otp_verified:" ++ token

-- The digits drawn are arguments; `to_string` of one is a character.
unfoldable pub generate_otp : List ℕ → Bytes
generate_otp [] = []
generate_otp (d ∷ ds) = (48 + d) ∷ generate_otp ds

module _ ⦃r : Redis⦄ where
  unfoldable pub store_otp : Bytes → Bytes → ℕ → Run (Unit {0})
  store_otp phone_number code ttl_seconds = r.set_ex (otp_key phone_number) code ttl_seconds

  unfoldable pub verify_otp : Bytes → Bytes → Run Bool
  verify_otp phone_number code = do
    let key = otp_key phone_number
    stored ← r.get key
    elim stored [
      | some stored_code ↦
          if bytes_eq stored_code code
          then (do deleted ← r.del key; lift (ok true))
          else lift (ok false)
      | none ↦ lift (ok false)
    ]

  unfoldable pub store_verification_token : Bytes → Bytes → ℕ → Run (Unit {0})
  store_verification_token token phone_number ttl_seconds =
      r.set_ex (token_key token) phone_number ttl_seconds

  unfoldable pub validate_verification_token : Bytes → Run (Option Bytes)
  validate_verification_token token = do
    let key = token_key token
    phone ← r.get key
    if is_some phone then (do deleted ← r.del key; lift (ok phone)) else lift (ok phone)
