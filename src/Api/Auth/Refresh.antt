-- ===== src/Api/Auth/Refresh.antt =====
-- crates/hysj-api/src/routes/auth.rs and crates/hysj-auth/src/jwt.rs: what a token can be exchanged for.
use hysj.Base.{ℕ, ◌+◌, ◌≤◌, ◌<◌, ◌≡◌, refl, false, Bytes, ok, err, arith}
use hysj.Auth.Libraries.{Libraries, leeway}
use hysj.Auth.Jwt.{
  access_token_expiry_seconds, refresh_token_expiry_seconds, claims_for, create_access_token,
  create_refresh_token, validate_token,
}
use hysj.Database.{Db}
use hysj.Api.Error.{token_expired}
use hysj.Api.Auth.{LoginResponse, tokens, refresh}

module _ ⦃l : Libraries⦄ where
  -- An access token works as a refresh token. It is accepted until its 15 minutes are over, and the 60
  -- seconds of skew: the answer is for its user and device, and the new refresh token is valid for 30
  -- days, and the skew, from then on, for the same user, device and name. After that it is refused as
  -- expired. Nothing is stored.
  pub refresh-create_access_token :
      (user_id device_id : ℕ) (name secret : Bytes) (issued later last : ℕ) (db : Db)
      → (token : Bytes) × (create_access_token user_id device_id name secret issued ≡ ok token)
        × (later ≤ issued + access_token_expiry_seconds + leeway
            → (response : LoginResponse) × (refresh token secret later db ≡ (db, ok response))
              × (response.user_id ≡ user_id)
              × (response.device_id ≡ device_id)
              × (response.requires_2fa ≡ false)
              × (last ≤ later + refresh_token_expiry_seconds + leeway
                  → validate_token response.refresh_token secret last
                    ≡ ok (claims_for user_id device_id name refresh_token_expiry_seconds later)))
        × (issued + access_token_expiry_seconds + leeway < later
            → refresh token secret later db ≡ (db, err token_expired))
  unfolding create_access_token create_refresh_token validate_token refresh tokens
  refresh-create_access_token user_id device_id name secret issued later last db =
      let claims = claims_for user_id device_id name access_token_expiry_seconds issued in
      let access = claims_for user_id device_id name access_token_expiry_seconds later in
      let next = claims_for user_id device_id name refresh_token_expiry_seconds later in
      (
        l.encode claims secret,
        refl,
        (λ h. (
          record {
            access_token = l.encode access secret;
            refresh_token = l.encode next secret;
            user_id = user_id;
            device_id = device_id;
            requires_2fa = false;
          },
          ground (
            arith,
            l.decode-encode claims secret later h,
            l.parse_uuid-text user_id,
            l.parse_uuid-text device_id,
          ),
          refl,
          refl,
          refl,
          λ k. ground (arith, l.decode-encode next secret last k),
        )),
        λ h. ground (arith, l.decode-encode_late claims secret later h),
      )
