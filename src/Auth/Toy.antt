-- ===== src/Auth/Toy.antt =====
-- Concrete libraries with the documented laws, to run the model of crates/hysj-auth on. They are not
-- secure: a hash is the password, and a token is its claims.
use hysj.Base.{
  ℕ, zero, suc, ◌+◌, ◌≤◌, ◌<◌, ◌≡◌, refl, Bool, true, Option, none, some, Bytes, bytes_eq,
  bytes_eq_refl, [], ◌∷◌, ◌++◌, length, take, drop, take-append, drop-append, ltb, if◌then◌else◌,
  Result, ok, err, arith,
}
use hysj.Auth.Libraries.{Libraries, Claims, JwtError, expired_signature, malformed, leeway}

abbrev verify : Bytes → Bytes → Option Bool
verify password hash = some (bytes_eq password hash)

pub verify-hash :
    (password salt hash : Bytes)
    → ◌≡◌ {A = Option Bytes} (some password) (some hash)
    → verify password hash ≡ some true
verify-hash password salt hash h = ground (arith, bytes_eq_refl hash)

abbrev pub token_of : Claims → Bytes → Bytes
token_of c secret =
    c.exp ∷ c.iat ∷ length c.sub ∷ length c.device_id ∷ c.sub ++ (c.device_id ++ c.username)

abbrev claims_of : Bytes → Option Claims
claims_of (exp ∷ iat ∷ n ∷ m ∷ rest) = some (record {
  sub = take n rest;
  device_id = take m (drop n rest);
  username = drop m (drop n rest);
  exp = exp;
  iat = iat;
})
claims_of _ = none

abbrev read : Option Claims → ℕ → Result JwtError Claims
read none now = err malformed
read (some c) now = if ltb (c.exp + leeway) now then err expired_signature else ok c

claims_of-token_of : (c : Claims) (secret : Bytes) → claims_of (token_of c secret) ≡ some c
claims_of-token_of c secret = ground (
  arith,
  take-append (length c.sub) c.sub (c.device_id ++ c.username) refl,
  drop-append (length c.sub) c.sub (c.device_id ++ c.username) refl,
  take-append (length c.device_id) c.device_id c.username refl,
  drop-append (length c.device_id) c.device_id c.username refl,
)

pub read-token_of :
    (c : Claims) (secret : Bytes) (now : ℕ)
    → now ≤ c.exp + leeway
    → read (claims_of (token_of c secret)) now ≡ ok c
read-token_of c secret now h = ground (arith, claims_of-token_of c secret)

pub read-token_of_late :
    (c : Claims) (secret : Bytes) (now : ℕ)
    → c.exp + leeway < now
    → read (claims_of (token_of c secret)) now ≡ err expired_signature
read-token_of_late c secret now h = ground (arith, claims_of-token_of c secret)

abbrev b64_decode : Bytes → Option Bytes
b64_decode [] = none
b64_decode (zero ∷ bs) = none
b64_decode (suc n ∷ bs) = some bs

abbrev parse_uuid : Bytes → Option ℕ
parse_uuid [] = none
parse_uuid (id ∷ rest) = some id

instance abbrev pub toy_libraries : Libraries
toy_libraries = record {
  argon2_hash = λ password salt. some password;
  argon2_verify = verify;
  argon2_verify-hash = λ password salt hash h. verify-hash password salt hash h;
  encode = token_of;
  decode = λ token secret now. read (claims_of token) now;
  decode-encode = λ c secret now h. read-token_of c secret now h;
  decode-encode_late = λ c secret now h. read-token_of_late c secret now h;
  totp_url = λ secret name. some secret;
  totp_check = λ secret code now. some (bytes_eq secret code);
  b64 = λ bytes. 1 ∷ bytes;
  b64_decode = b64_decode;
  b64_decode-b64 = λ bytes. refl;
  uuid_text = λ id. id ∷ [];
  parse_uuid = parse_uuid;
  parse_uuid-text = λ id. refl;
}
