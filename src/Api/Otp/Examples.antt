-- ===== src/Api/Otp/Examples.antt =====
-- Runs of the model of the routes for one-time codes.
use hysj.Base.{◌≡◌, refl, true, false, none, some, Bytes, List, [], ◌∷◌, lit, ok, bytes_eq}
use hysj.Messaging.Toy.{Store, toy_redis}
use hysj.Messaging.Otp.{validate_verification_token}
use hysj.Api.RateLimit.{Entries, new, check_rate_limit, retain_after}
use hysj.Api.Otp.{State, is_phone_number, digits, send_otp, verify_otp}
use hysj.Api.Otp.Guesses.{guess_all, verify_otp-send_otp}

abbrev nothing : Store
nothing k = none

abbrev start : State Store
start = record { entries = new; redis = nothing; twilio = none; sent = [] }

abbrev by_phone : Entries
by_phone = (check_rate_limit (lit "otp:+4712345678") 3 3600 5000 new).0

abbrev by_ip : Entries
by_ip = (check_rate_limit (lit "otp_ip:ip") 10 3600 5000 by_phone).0

abbrev guesses : List Bytes
guesses = lit "000000" ∷ lit "000001" ∷ []

verify_otp-send_otp_example :
    (st1 : State Store) × (st2 : State Store) × (send_otp
        (lit "ip")
        (lit "+4712345678")
        (lit "123456")
        5000
        start
      ≡ (st1, ok (record { expires_in = 300; dev_code = some (lit "123456") })))
    × (guess_all (lit "+4712345678") (lit "t") guesses st1 ≡ st1)
    × (verify_otp (lit "+4712345678") (lit "123456") (lit "t") st1
        ≡ (st2, ok (record { verified = true; verification_token = some (lit "t") })))
    × ((validate_verification_token (lit "t") st2.redis).1 ≡ ok (some (lit "+4712345678")))
    × (verify_otp (lit "+4712345678") (lit "123456") (lit "t") st2
        ≡ (st2, ok (record { verified = false; verification_token = none })))
unfolding bytes_eq is_phone_number digits check_rate_limit retain_after new
verify_otp-send_otp_example =
    verify_otp-send_otp (lit "ip") (lit "+4712345678") (lit "123456") (lit "t") guesses 5000
      by_phone by_ip start tt refl refl refl refl refl (refl, refl, (refl, refl, tt))
