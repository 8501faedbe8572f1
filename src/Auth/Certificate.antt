-- ===== src/Auth/Certificate.antt =====
-- crates/hysj-auth/src/certificate.rs. The clock comes last.
use hysj.Base.{
  ℕ, zero, suc, ◌+◌, ◌/◌, ◌%◌, Bool, Bytes, [], ◌∷◌, ◌++◌, length, ltb, ◌==◌, if◌then◌else◌, Result,
  ok, err,
}
use hysj.Crypto.Primitives.{Primitives}
use hysj.Auth.Libraries.{Libraries, AuthError, expired, certificate_error}

-- 24 * 60 * 60
abbrev pub sender_cert_expiry_seconds : ℕ
sender_cert_expiry_seconds = 86400

pub record SenderCertificate : Type 0 where
  pub user_id : Bytes
  pub username : Bytes
  pub public_key : Bytes
  pub expires_at : ℕ
  pub signature : Bytes

-- The low bytes of a number, the lowest first. `i64::to_le_bytes` is 8 of them.
unfoldable pub le_bytes : ℕ → ℕ → Bytes
le_bytes zero n = []
le_bytes (suc k) n = n % 256 ∷ le_bytes k (n / 256)

unfoldable pub certificate_payload : Bytes → Bytes → Bytes → ℕ → Bytes
certificate_payload user_id username public_key expires_at =
    user_id ++ (username ++ (public_key ++ le_bytes 8 expires_at))

module _ ⦃p : Primitives⦄ where
  -- (signing key, verifying key)
  unfoldable pub get_signing_keypair_from_seed : Bytes → Bytes × Bytes
  get_signing_keypair_from_seed seed = (seed, p.ed_public_of seed)

  unfoldable pub verify_certificate : SenderCertificate → Bytes → ℕ → Result AuthError Bool
  verify_certificate cert verification_key now =
      if ltb cert.expires_at now
      then err expired
      else if length cert.signature == 64
      then ok (
          p.ed_verify verification_key
            (certificate_payload cert.user_id cert.username cert.public_key cert.expires_at)
            cert.signature)
      else err certificate_error

  module _ ⦃l : Libraries⦄ where
    unfoldable pub sign_certificate : ℕ → Bytes → Bytes → Bytes → ℕ → SenderCertificate
    sign_certificate user_id username user_public_key signing_key now =
        let expires_at = now + sender_cert_expiry_seconds in
        record {
          user_id = l.uuid_text user_id;
          username = username;
          public_key = user_public_key;
          expires_at = expires_at;
          signature =
              p.ed_sign signing_key
                (certificate_payload (l.uuid_text user_id) username user_public_key expires_at);
        }
