-- ===== src/Api/Auth/Examples.antt =====
-- Runs of the model of crates/hysj-api/src/routes/auth.rs with two users.
use hysj.Base.{
  ℕ, zero, suc, ◌+◌, ◌≤◌, ◌<◌, ◌≡◌, refl, true, false, none, some, Bytes, bytes_eq, List, [], ◌∷◌,
  ◌++◌, lit, length, ok, err, arith,
}
use hysj.Auth.Libraries.{leeway}
use hysj.Auth.Jwt.{
  access_token_expiry_seconds, refresh_token_expiry_seconds, claims_for, create_access_token,
  validate_token,
}
use hysj.Auth.Toy.{toy_libraries}
use hysj.Database.{Db, empty_db}
use hysj.Database.Users.{is_user, find_user, characters, change, account}
use hysj.Database.Devices.{phone, find_device}
use hysj.Database.Logins.{failures_after}
use hysj.Api.Error.{HysjError, token_expired, rate_limited, validation_error}
use hysj.Api.Auth.{
  RegisterRequest, LoginRequest, LoginResponse, refresh, login, register_user, check_request,
}
use hysj.Api.RateLimit.{Entries, new, retain_after, check_rate_limit}
use hysj.Api.Auth.Refresh.{refresh-create_access_token}
use hysj.Api.Auth.Login.{run, WrongGuesses, login_after_guesses}
use hysj.Api.Auth.Session.{login-ok}
use hysj.Api.Auth.Register.{register_half}

abbrev db : Db
db = record empty_db { users = account 1 ∷ account 2 ∷ []; devices = phone 8 2 ∷ [] }

refresh-create_access_token_example :
    (token : Bytes) × (create_access_token 1 8 (lit "al") (lit "s") 100 ≡ ok token)
    × (200 ≤ 100 + access_token_expiry_seconds + leeway
        → (response : LoginResponse) × (refresh token (lit "s") 200 db ≡ (db, ok response))
          × (response.user_id ≡ 1)
          × (response.device_id ≡ 8)
          × (response.requires_2fa ≡ false)
          × (300 ≤ 200 + refresh_token_expiry_seconds + leeway
              → validate_token response.refresh_token (lit "s") 300
                ≡ ok (claims_for 1 8 (lit "al") refresh_token_expiry_seconds 200)))
    × (100 + access_token_expiry_seconds + leeway < 200
        → refresh token (lit "s") 200 db ≡ (db, err token_expired))
refresh-create_access_token_example =
    refresh-create_access_token 1 8 (lit "al") (lit "s") 100 200 300 db

-- User 1 logs in on the device of user 2.
abbrev request : LoginRequest
request = record { phone_number = lit "+" ++ 1 ∷ []; password = lit "h"; device_id = some 8 }

abbrev counted : Entries
counted = (check_rate_limit (lit "login:ip") 100 60 500 new).0

login-ok_example :
    (db' : Db) × (response : LoginResponse) × (login (lit "ip") request (lit "s") 100 500 new db
      ≡ (counted, (db', ok response)))
    × (response.user_id ≡ 1)
    × (response.device_id ≡ 8)
    × (response.requires_2fa ≡ false)
    × (200 ≤ 100 + access_token_expiry_seconds + leeway
        → validate_token response.access_token (lit "s") 200
          ≡ ok (claims_for 1 8 (account 1).username access_token_expiry_seconds 100))
    × (db' ≡ record db {
      login_attempts =
          record { ip_address = lit "ip"; user_id = some 1; success = true; attempted_at = 100 }
          ∷ [];
      users = change 1 (λ x. record x { last_seen_at = 100 }) db.users;
    })
unfolding failures_after find_user bytes_eq characters find_device check_rate_limit retain_after new
login-ok_example =
    login-ok (lit "ip") request (lit "s") 100 500 200 new counted db (account 1) (phone 8 2) refl
      (omega arith) refl refl refl refl refl

-- Any number of times the wrong password, at second 1001.
abbrev wrong : LoginRequest
wrong = record request { password = lit "x" }

abbrev guesses : ℕ → List (LoginRequest × ℕ)
guesses zero = []
guesses (suc n) = (wrong, 1001) ∷ guesses n

guesses-Wrong : (n : ℕ) → WrongGuesses 1000 db.users (guesses n)
unfolding find_user bytes_eq
guesses-Wrong zero = tt
guesses-Wrong (suc n) = ((omega arith, omega arith), (account 1, refl, refl), guesses-Wrong n)

length-guesses : (n : ℕ) → length (guesses n) ≡ n
length-guesses zero = refl
length-guesses (suc n) = ground (arith, length-guesses n)

login_after_guesses_example :
    (entries' : Entries) × (login
        (lit "ip")
        request
        (lit "s")
        1002
        500
        new
        (run (lit "ip") (lit "s") (guesses 100) db)
      ≡ (entries', (run (lit "ip") (lit "s") (guesses 100) db, err rate_limited)))
unfolding characters failures_after
login_after_guesses_example =
    login_after_guesses (lit "ip") (lit "s") 1000 1002 500 (guesses 100) request new db refl refl
      (guesses-Wrong 100) (omega (arith, length-guesses 100)) (omega arith) (omega arith)

-- No base64 for the signed pre-key.
abbrev half : RegisterRequest
half = record {
  username = none;
  phone_number = lit "+9";
  password = lit "12345678";
  identity_public_key = 1 ∷ lit "k";
  signed_pre_key = [];
  signed_pre_key_signature = 1 ∷ lit "s";
  kyber_public_key = 1 ∷ lit "y";
  one_time_pre_keys = [];
  device_name = lit "phone";
}

abbrev whole : RegisterRequest
whole = record half { signed_pre_key = 1 ∷ lit "p"; username = some (lit "alice") }

register_half_example :
    (db' : Db) × (e : HysjError) × (register_user half (lit "s") (lit "salt") 3 9 100 db
      ≡ (db', err validation_error))
    × (is_user 3 db'.users ≡ true)
    × (db'.devices ≡ db.devices)
    × (register_user whole (lit "s") (lit "salt") 4 10 200 db' ≡ (db', err e))
unfolding check_request characters is_user find_user bytes_eq
register_half_example =
    register_half half whole (lit "s") (lit "salt") (lit "salt") (lit "12345678") (lit "k") 3 9 100
      4 10 200 db refl refl refl refl refl refl refl refl refl refl
