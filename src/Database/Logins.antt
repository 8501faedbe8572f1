-- ===== src/Database/Logins.antt =====
-- crates/hysj-db/src/login_attempts.rs. The clock comes last; times are in seconds.
use hysj.Base.{
  ℕ, ◌+◌, ◌-◌, Bool, true, not, ◌&&◌, Option, none, some, Bytes, bytes_eq, List, [], ◌∷◌, ltb, leb,
  if◌then◌else◌, ok, err,
}
use hysj.Database.{DbError, query_failed, LoginAttempt, Db, Run, lift, ◌>>=◌}
use hysj.Database.Users.{is_user, characters}

abbrev known : Option ℕ → Db → Bool
known none db = true
known (some id) db = is_user id db.users

-- The column ip_address is VARCHAR(45).
unfoldable pub record_attempt : Bytes → Option ℕ → Bool → ℕ → Run DbError (Unit {0})
record_attempt ip_address user_id success now db =
    let attempt : LoginAttempt = record {
      ip_address = ip_address;
      user_id = user_id;
      success = success;
      attempted_at = now;
    } in
    if known user_id db && leb (characters ip_address) 45
    then (record db { login_attempts = attempt ∷ db.login_attempts }, ok tt)
    else (db, err query_failed)

-- WHERE ip_address = $1 AND success = false AND attempted_at > $2
unfoldable pub failures_after : Bytes → ℕ → List LoginAttempt → ℕ
failures_after ip_address cutoff [] = 0
failures_after ip_address cutoff (a ∷ rest) =
    let n = failures_after ip_address cutoff rest in
    if bytes_eq a.ip_address ip_address && (not a.success && ltb cutoff a.attempted_at)
    then 1 + n
    else n

unfoldable pub count_recent_failures : Bytes → ℕ → ℕ → Run DbError ℕ
count_recent_failures ip_address window_seconds now db =
    (db, ok (failures_after ip_address (now - window_seconds) db.login_attempts))

unfoldable pub is_locked_out : Bytes → ℕ → ℕ → ℕ → Run DbError Bool
is_locked_out ip_address max_failures window_seconds now = do
  count ← count_recent_failures ip_address window_seconds now
  lift (ok (leb max_failures count))
