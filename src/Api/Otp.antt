-- ===== src/Api/Otp.antt =====
-- crates/hysj-api/src/routes/otp.rs and the DTOs of crates/hysj-shared/src/dto/auth.rs that it uses. The
-- code and the token, which are drawn at random, and the clock are arguments.
pub mod Guesses
mod Examples
use hysj.Base.{
  ℕ, Bool, true, false, not, ◌&&◌, ◌||◌, Option, none, some, Bytes, List, [], ◌∷◌, ◌++◌, length,
  lit, ltb, leb, ◌==◌, if◌then◌else◌, Result, ok, err, panic,
}
use hysj.Messaging.Redis.{Redis, MessagingError}
use hysj.Messaging.Otp
use hysj.Api.Error.{HysjError, rate_limited, validation_error, internal_error}
use hysj.Api.RateLimit.{Entries, check_rate_limit}
use hysj.Api.Auth.Request.{before_comma, trim}

abbrev pub otp_code_length : ℕ
otp_code_length = 6

-- 5 * 60
abbrev pub otp_expiry_seconds : ℕ
otp_expiry_seconds = 300

-- 10 * 60
abbrev pub otp_verification_token_expiry_seconds : ℕ
otp_verification_token_expiry_seconds = 600

pub record SendOtpResponse : Type 0 where
  pub expires_in : ℕ
  pub dev_code : Option Bytes

pub record VerifyOtpResponse : Type 0 where
  pub verified : Bool
  pub verification_token : Option Bytes

-- The Twilio service: whether the message, a number and a code, is answered with success.
pub record Twilio : Type 0 where
  pub accepts : Bytes → Bytes → Bool

-- The limiter, Redis, the Twilio service if it is configured, and the messages that it took.
pub record State (C : Type 0) : Type 0 where
  pub entries : Entries
  pub redis : C
  pub twilio : Option Twilio
  pub sent : List (Bytes × Bytes)

-- This one does not look at x-real-ip.
unfoldable pub extract_ip : (Bytes → Option Bytes) → Bytes
extract_ip get = elim (get (lit "cf-connecting-ip")) [
  | some cf ↦ cf
  | none ↦ elim (get (lit "x-forwarded-for")) [
    | some xff ↦ trim (before_comma xff)
    | none ↦ lit "unknown"
  ]
]

unfoldable pub digits : Bytes → Bytes
digits [] = []
digits (b ∷ bs) = let rest = digits bs in if leb 48 b && leb b 57 then b ∷ rest else rest

abbrev pub starts_with_plus : Bytes → Bool
starts_with_plus [] = false
starts_with_plus (b ∷ bs) = b == 43

unfoldable pub is_phone_number : Bytes → Bool
is_phone_number phone = not (
    ltb (length (digits phone)) 8 || ltb 15 (length (digits phone)) || not (starts_with_plus phone))

module _ ⦃r : Redis⦄ where
  abbrev pub Run : Type 0 → Type 0
  Run A = State r.Conn → State r.Conn × Result HysjError A

  abbrev pub lift : {A : Type 0} → Result HysjError A → Run A
  lift m st = (st, m)

  infixl 5 ◌>>=◌ ◌>>◌
  abbrev pub ◌>>=◌ : {A B : Type 0} → Run A → (A → Run B) → Run B
  ◌>>=◌ m f st = elim (m st).1 [
    | ok a ↦ f a (m st).0
    | err e ↦ ((m st).0, err e)
    | panic ↦ ((m st).0, panic)
  ]

  abbrev pub ◌>>◌ : {B : Type 0} → Run (Unit {0}) → Run B → Run B
  m >> k = m >>= λ _. k

  -- `.map_err(|e| AppError(HysjError::InternalError(e.to_string())))?`
  abbrev pub redis_do : {A : Type 0} → (r.Conn → r.Conn × Result MessagingError A) → Run A
  redis_do m st = elim (m st.redis).1 [
    | ok a ↦ (record st { redis = (m st.redis).0 }, ok a)
    | err e ↦ (record st { redis = (m st.redis).0 }, err internal_error)
    | panic ↦ (record st { redis = (m st.redis).0 }, panic)
  ]

  unfoldable pub limit : Bytes → ℕ → ℕ → Run (Unit {0})
  limit key max_requests instant st =
      let checked = check_rate_limit key max_requests 3600 instant st.entries in
      elim checked.1 [
        | ok allowed ↦
            (record st { entries = checked.0 }, if allowed then ok tt else err rate_limited)
        | err e ↦ (record st { entries = checked.0 }, panic)
        | panic ↦ (record st { entries = checked.0 }, panic)
      ]

  unfoldable pub send_sms_twilio : Twilio → Bytes → Bytes → Run (Unit {0})
  send_sms_twilio config to code st =
      if config.accepts to code
      then (record st { sent = st.sent ++ (to, code) ∷ [] }, ok tt)
      else (st, err internal_error)

  -- In an SMS, or in the answer if there is no Twilio.
  unfoldable pub send_code : Bytes → Bytes → Run (Option Bytes)
  send_code phone_number code st = elim st.twilio [
    | some twilio ↦ (do send_sms_twilio twilio phone_number code; lift (ok none)) st
    | none ↦ (st, ok (some code))
  ]

  unfoldable pub send_otp : Bytes → Bytes → Bytes → ℕ → Run SendOtpResponse
  send_otp ip phone_number code instant = do
    limit (lit "otp:" ++ phone_number) 3 instant
    limit (lit "otp_ip:" ++ ip) 10 instant
    if is_phone_number phone_number then lift (ok tt) else lift (err validation_error)
    redis_do (Otp.store_otp phone_number code otp_expiry_seconds)
    dev_code ← send_code phone_number code
    lift (ok (record { expires_in = otp_expiry_seconds; dev_code = dev_code }))

  unfoldable pub verify_otp : Bytes → Bytes → Bytes → Run VerifyOtpResponse
  verify_otp phone_number code token =
      if not (length code == otp_code_length) then lift (err validation_error) else do
        valid ← redis_do (Otp.verify_otp phone_number code)
        if not valid
            then lift (ok (record { verified = false; verification_token = none }))
            else (do
              redis_do (
                  Otp.store_verification_token token phone_number
                    otp_verification_token_expiry_seconds)
              lift (ok (record { verified = true; verification_token = some token })))
