-- ===== src/Auth/Window.antt =====
-- crates/hysj-auth/src: how long certificates are valid, and for whom.
use hysj.Base.{ℕ, ◌+◌, ◌≤◌, ◌<◌, ◌≡◌, refl, ap, true, Bytes, [], ◌∷◌, ◌++◌, ok, err, arith}
use hysj.Crypto.Primitives.{Primitives}
use hysj.Auth.Libraries.{Libraries, expired}
use hysj.Auth.Certificate.{
  sender_cert_expiry_seconds, certificate_payload, get_signing_keypair_from_seed, sign_certificate,
  verify_certificate, le_bytes,
}

append_assoc : (xs ys zs : Bytes) → (xs ++ ys) ++ zs ≡ xs ++ (ys ++ zs)
append_assoc [] ys zs = refl
append_assoc (x ∷ xs) ys zs = ap (◌∷◌ x) (append_assoc xs ys zs)

module _ ⦃p : Primitives⦄ ⦃l : Libraries⦄ where
  -- A certificate that the server signed passes the check under the server's key for 24 hours, and is
  -- refused as expired afterwards. The signature does not mark where the name ends: with some bytes
  -- moved from the end of the name to the start of the public key, the certificate passes as long.
  pub verify_certificate-sign :
      (user_id : ℕ) (name moved key seed : Bytes) (now later : ℕ)
      → let keys = get_signing_keypair_from_seed seed in
        let cert = sign_certificate user_id (name ++ moved) key keys.0 now in
        (later ≤ now + sender_cert_expiry_seconds
          → (verify_certificate cert keys.1 later ≡ ok true)
            × (verify_certificate
                  (record cert { username = name; public_key = moved ++ key })
                  keys.1
                  later
                ≡ ok true))
        × (now + sender_cert_expiry_seconds < later
            → verify_certificate cert keys.1 later ≡ err expired)
  unfolding get_signing_keypair_from_seed sign_certificate verify_certificate certificate_payload
  verify_certificate-sign user_id name moved key seed now later =
      let body =
        certificate_payload (l.uuid_text user_id) (name ++ moved) key
          (now + sender_cert_expiry_seconds) in
      let q = append_assoc name moved (key ++ le_bytes 8 (now + sender_cert_expiry_seconds)) in
      let q2 = append_assoc moved key (le_bytes 8 (now + sender_cert_expiry_seconds)) in
      (
        (λ h. (
          ground (arith, p.ed_verify-sign seed body, p.length-ed_sign seed body),
          ground (arith, p.ed_verify-sign seed body, p.length-ed_sign seed body, q, q2),
        )),
        λ h. ground arith,
      )
