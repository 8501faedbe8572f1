-- ===== src/Api/Auth/Register.antt =====
-- crates/hysj-api/src/routes/auth.rs: registration is not one transaction.
use hysj.Base.{
  ℕ, ◌≡◌, ◌⊎◌, refl, sym, subst, length, lit, leb, true, false, ◌||◌, none, some, Bytes,
  bytes_eq_refl, ◌∷◌, ltb, ◌==◌, ==_refl, ok, err, Bool-cases, Option-cases, inl, inr, arith,
}
use hysj.Auth.Libraries.{Libraries, hash_password}
use hysj.Database.{User, Db}
use hysj.Database.Users.{is_user, find_user, has_name, has_phone, taken, create_user, characters}
use hysj.Api.Error.{HysjError, validation_error, auth_failed, database_error}
use hysj.Api.Auth.{
  RegisterRequest, or_empty, is_bad_username, check_request, register_device, register_user,
}

check_request-cases :
    (req : RegisterRequest) (db : Db)
    → (check_request req db ≡ (db, ok tt)) ⊎ (check_request req db ≡ (db, err validation_error))
unfolding check_request
check_request-cases req db = elim (Bool-cases (is_bad_username (or_empty req.username))) [
  | inl a ↦ inr (ground arith)
  | inr a ↦ elim (Bool-cases (length req.device_name == 0 || ltb 64 (length req.device_name))) [
    | inl b ↦ inr (ground arith)
    | inr b ↦ elim (Bool-cases (ltb (length req.password) 8)) [
      | inl c ↦ inr (ground arith)
      | inr c ↦ inl (ground arith)
    ]
  ]
]

module _ ⦃l : Libraries⦄ where
  -- A number that is taken cannot register.
  register_taken :
      (req : RegisterRequest) (secret salt : Bytes) (user_id device_id now : ℕ) (db : Db)
      → taken (find_user (has_phone req.phone_number) db.users) ≡ true
      → (e : HysjError) × (register_user req secret salt user_id device_id now db ≡ (db, err e))
  unfolding register_user hash_password create_user
  register_taken req secret salt user_id device_id now db h = elim (check_request-cases req db) [
    | inr e ↦ (validation_error, ground arith)
    | inl e ↦ elim (Option-cases (l.argon2_hash req.password salt)) [
      | inl q ↦ (auth_failed, ground arith)
      | inr (hash, q) ↦ elim (Option-cases (l.b64_decode req.identity_public_key)) [
        | inl i ↦ (validation_error, ground arith)
        | inr (key, i) ↦
            elim (Bool-cases (
              ltb 32 (characters (or_empty req.username))
              || ltb 20 (characters req.phone_number))) [
                | inl long ↦ (database_error, ground arith)
                | inr long ↦ (validation_error, ground arith)
              ]
      ]
    ]
  ]

  -- Registration leaves a half behind: behind the in-memory limiter, a request that is well-formed up to
  -- its signed pre-key, which is no base64, with a number, a name and an id that are free, is refused,
  -- but its user stays stored, without a device; from then on every registration with that number,
  -- whatever else it holds, is refused and changes nothing.
  pub register_half :
      (req again : RegisterRequest) (secret salt salt' hash key : Bytes)
      (user_id device_id now user_id' device_id' now' : ℕ) (db : Db)
      → check_request req db ≡ (db, ok tt)
      → l.argon2_hash req.password salt ≡ some hash
      → l.b64_decode req.identity_public_key ≡ some key
      → l.b64_decode req.signed_pre_key ≡ none
      → leb (characters (or_empty req.username)) 32 ≡ true
      → leb (characters req.phone_number) 20 ≡ true
      → is_user user_id db.users ≡ false
      → taken (find_user (has_name (or_empty req.username)) db.users) ≡ false
      → taken (find_user (has_phone req.phone_number) db.users) ≡ false
      → again.phone_number ≡ req.phone_number
      → (db' : Db) × (e : HysjError) × (register_user req secret salt user_id device_id now db
          ≡ (db', err validation_error))
        × (is_user user_id db'.users ≡ true)
        × (db'.devices ≡ db.devices)
        × (register_user again secret salt' user_id' device_id' now' db' ≡ (db', err e))
  unfolding register_user register_device hash_password create_user
  register_half req again secret salt salt' hash key user_id device_id now user_id' device_id' now'
        db c h i s n m free name phone same =
      let user : User = record {
        id = user_id;
        username = or_empty req.username;
        phone_number = req.phone_number;
        display_name = none;
        password_hash = hash;
        salt = salt;
        identity_public_key = key;
        identity_dh_public_key = key;
        totp_secret = none;
        has_2fa_enabled = false;
        created_at = now;
        last_seen_at = now;
        avatar_url = none;
        status = lit "online";
      } in
      let db' : Db = record db { users = user ∷ db.users } in
      let there : taken (find_user (has_phone again.phone_number) db'.users) ≡ true =
        unfold find_user in
        subst (λ z. taken (find_user (has_phone z) db'.users) ≡ true) (sym same)
          (ground (arith, bytes_eq_refl req.phone_number)) in
      let (e, q) = register_taken again secret salt' user_id' device_id' now' db' there in
      (db', e, ground arith, unfold is_user in ground (arith, ==_refl user_id), refl, q)
