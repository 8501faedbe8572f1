-- ===== src/Auth/Examples.antt =====
-- Runs of the model of crates/hysj-auth.
use hysj.Base.{◌+◌, ◌≤◌, ◌<◌, ◌≡◌, true, ◌++◌, lit, ok, err}
use hysj.Crypto.Toy.{toy}
use hysj.Auth.Libraries.{expired}
use hysj.Auth.Toy.{toy_libraries}
use hysj.Auth.Certificate.{
  SenderCertificate, get_signing_keypair_from_seed, sign_certificate, verify_certificate,
}
use hysj.Auth.Window.{verify_certificate-sign}

abbrev cert : SenderCertificate
cert = sign_certificate 7 (lit "al" ++ lit "ice") (lit "key") (lit "seed") 100

verify_certificate-sign_example :
    (300 ≤ 100 + 86400
      → (verify_certificate cert (toy.ed_public_of (lit "seed")) 300 ≡ ok true)
        × (verify_certificate
              (record cert { username = lit "al"; public_key = lit "ice" ++ lit "key" })
              (toy.ed_public_of (lit "seed"))
              300
            ≡ ok true))
    × (100 + 86400 < 300
        → verify_certificate cert (toy.ed_public_of (lit "seed")) 300 ≡ err expired)
unfolding get_signing_keypair_from_seed toy
verify_certificate-sign_example =
    verify_certificate-sign 7 (lit "al") (lit "ice") (lit "key") (lit "seed") 100 300
