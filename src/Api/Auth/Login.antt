-- ===== src/Api/Auth/Login.antt =====
-- crates/hysj-api/src/routes/auth.rs: logging in, and guessing passwords.
use hysj.Base.{
  ℕ, ◌+◌, ◌-◌, ◌≤◌, ◌<◌, ◌≡◌, sym, ap, subst, Bool, true, false, some, Bytes, bytes_eq_refl, List,
  [], ◌∷◌, ◌++◌, length, lit, leb, ==_refl, err, Bool-cases, inl, inr, arith,
}
use hysj.Auth.Libraries.{Libraries, verify_password}
use hysj.Database.{User, LoginAttempt, Db}
use hysj.Database.Users.{is_user, find_user, has_phone, find_by_phone_number, characters}
use hysj.Database.Logins.{record_attempt, failures_after, count_recent_failures, is_locked_out}
use hysj.Api.Error.{invalid_credentials, rate_limited}
use hysj.Api.Auth.{LoginRequest, login_max, login, login_unlimited, check_password}
use hysj.Api.RateLimit.{Entries, or_default, put, retain_after, check_rate_limit}

-- A user that is found is there.
pub is_user-find_user :
    (p : User → Bool) (us : List User) (u : User) → find_user p us ≡ some u → is_user u.id us ≡ true
unfolding find_user is_user
is_user-find_user p [] u h = absurd (ground arith)
is_user-find_user p (v ∷ vs) u h = elim (Bool-cases (p v)) [
  | inl e ↦
      let same : v ≡ u = ground arith in
      subst (λ (z : User). is_user z.id (v ∷ vs) ≡ true) same (ground (arith, ==_refl v.id))
  | inr e ↦ ground (arith, is_user-find_user p vs u (ground arith))
]

-- An earlier cutoff counts no fewer.
failures_after_le :
    (ip : Bytes) (early late : ℕ) (xs : List LoginAttempt)
    → early ≤ late
    → failures_after ip late xs ≤ failures_after ip early xs
unfolding failures_after
failures_after_le ip early late [] h = omega arith
failures_after_le ip early late (a ∷ rest) h =
    ground (arith, failures_after_le ip early late rest h)

abbrev failed : Bytes → User → ℕ → LoginAttempt
failed ip u now = record {
  ip_address = ip;
  user_id = some u.id;
  success = false;
  attempted_at = now;
}

module _ ⦃l : Libraries⦄ where
  login-locked :
      (ip : Bytes) (req : LoginRequest) (secret : Bytes) (now : ℕ) (db : Db)
      → login_max ≤ failures_after ip (now - 60) db.login_attempts
      → login_unlimited ip req secret now db ≡ (db, err rate_limited)
  unfolding login_unlimited is_locked_out count_recent_failures
  login-locked ip req secret now db h = ground arith

  login-wrong :
      (ip : Bytes) (req : LoginRequest) (secret : Bytes) (now : ℕ) (db : Db) (u : User)
      → failures_after ip (now - 60) db.login_attempts < login_max
      → find_user (has_phone req.phone_number) db.users ≡ some u
      → l.argon2_verify req.password u.password_hash ≡ some false
      → leb (characters ip) 45 ≡ true
      → login_unlimited ip req secret now db ≡ (
        record db { login_attempts = failed ip u now ∷ db.login_attempts },
        err invalid_credentials,
      )
  unfolding login_unlimited is_locked_out count_recent_failures find_by_phone_number check_password
      verify_password record_attempt
  login-wrong ip req secret now db u h f v c =
      ground (arith, is_user-find_user (has_phone req.phone_number) db.users u f)

  -- Logins from one address, each with its time, one after the other.
  abbrev pub run : Bytes → Bytes → List (LoginRequest × ℕ) → Db → Db
  run ip secret [] db = db
  run ip secret ((req, now) ∷ rest) db = run ip secret rest (login_unlimited ip req secret now db).0

  -- In the minute after `start`, for the number of a user and with another password.
  abbrev pub WrongGuesses : ℕ → List User → List (LoginRequest × ℕ) → Type 0
  WrongGuesses start users [] = Unit {0}
  WrongGuesses start users ((req, now) ∷ rest) =
      ((start < now) × (now ≤ start + 60))
      × ((u : User) × (find_user (has_phone req.phone_number) users ≡ some u)
          × (l.argon2_verify req.password u.password_hash ≡ some false))
      × WrongGuesses start users rest

  -- All failures are recent.
  abbrev Recent : Bytes → ℕ → Db → Type 0
  Recent ip start db =
      failures_after ip 0 db.login_attempts ≡ failures_after ip start db.login_attempts

  failures-failed :
      (ip : Bytes) (u : User) (cutoff now : ℕ) (xs : List LoginAttempt)
      → cutoff < now
      → failures_after ip cutoff (failed ip u now ∷ xs) ≡ 1 + failures_after ip cutoff xs
  unfolding failures_after
  failures-failed ip u cutoff now xs h = ground (arith, bytes_eq_refl ip)

  run-count :
      (ip secret : Bytes) (start : ℕ) (gs : List (LoginRequest × ℕ)) (db : Db)
      → leb (characters ip) 45 ≡ true
      → WrongGuesses start db.users gs
      → Recent ip start db
      → login_max ≤ failures_after ip start db.login_attempts + length gs
      → Recent ip start (run ip secret gs db)
        × (login_max ≤ failures_after ip start (run ip secret gs db).login_attempts)
  run-count ip secret start [] db c g r h = (r, omega arith)
  run-count ip secret start ((req, now) ∷ rest) db c ((a, b), (u, f, v), g) r h =
      let xs = db.login_attempts in
      elim (Bool-cases (leb login_max (failures_after ip (now - 60) xs))) [
        | inl q ↦
            let many : login_max ≤ failures_after ip (now - 60) xs = ground arith in
            let e = login-locked ip req secret now db many in
            let more = failures_after_le ip 0 (now - 60) xs (omega arith) in
            let done = run-count ip secret start rest db c g r (omega arith) in
            subst
              (λ (z : Db).
                Recent ip start (run ip secret rest z)
                × (login_max ≤ failures_after ip start (run ip secret rest z).login_attempts))
              (ap (λ z. z.0) (sym e)) done
        | inr q ↦
            let few : failures_after ip (now - 60) xs < login_max = ground arith in
            let e = login-wrong ip req secret now db u few f v c in
            let next : Db = record db { login_attempts = failed ip u now ∷ xs } in
            let one = failures-failed ip u start now xs a in
            let zero_one = failures-failed ip u 0 now xs (omega arith) in
            let done = run-count ip secret start rest next c g (omega arith) (omega arith) in
            subst
              (λ (z : Db).
                Recent ip start (run ip secret rest z)
                × (login_max ≤ failures_after ip start (run ip secret rest z).login_attempts))
              (ap (λ z. z.0) (sym e)) done
      ]

  -- Whatever the in-memory limiter says, an address that is locked out is refused.
  login-refused :
      (ip : Bytes) (req : LoginRequest) (secret : Bytes) (now instant : ℕ) (entries : Entries)
      (db : Db)
      → login_unlimited ip req secret now db ≡ (db, err rate_limited)
      → 60 ≤ instant
      → (entries' : Entries) × (login ip req secret now instant entries db
          ≡ (entries', (db, err rate_limited)))
  unfolding login check_rate_limit
  login-refused ip req secret now instant entries db e t =
      let key = lit "login:" ++ ip in
      let entry = retain_after (instant - 60) (or_default (entries key)) in
      elim (Bool-cases (leb login_max (length entry))) [
        | inl q ↦ (put key entry entries, ground arith)
        | inr q ↦ (put key (entry ++ instant ∷ []) entries, ground arith)
      ]

  -- Guessing is stopped, for an address of at most 45 characters, as the table of attempts takes them:
  -- after 100 or more logins from there that got past the in-memory limiter, with a wrong password for a
  -- known number, all within a minute after `start`, and no failure from there before, every login from
  -- there in that minute is refused before its password is looked at, the right one included, whatever the
  -- in-memory limiter has counted, and no table changes. The clock of the limiter is at least at its window.
  pub login_after_guesses :
      (ip secret : Bytes) (start now instant : ℕ) (gs : List (LoginRequest × ℕ))
      (req : LoginRequest) (entries : Entries) (db : Db)
      → leb (characters ip) 45 ≡ true
      → failures_after ip 0 db.login_attempts ≡ 0
      → WrongGuesses start db.users gs
      → login_max ≤ length gs
      → now ≤ start + 60
      → 60 ≤ instant
      → (entries' : Entries) × (login ip req secret now instant entries (run ip secret gs db)
          ≡ (entries', (run ip secret gs db, err rate_limited)))
  login_after_guesses ip secret start now instant gs req entries db c z g n t i =
      let none_late = failures_after_le ip 0 start db.login_attempts (omega arith) in
      let (r, m) = run-count ip secret start gs db c g (omega arith) (omega arith) in
      let db' = run ip secret gs db in
      let locked =
        login-locked ip req secret now db'
          (omega (arith, failures_after_le ip (now - 60) start db'.login_attempts (omega arith))) in
      login-refused ip req secret now instant entries db' locked i
