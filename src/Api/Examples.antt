-- ===== src/Api/Examples.antt =====
-- Runs of the model of crates/hysj-api on small inputs.
use hysj.Base.{
  ℕ, ◌≤◌, ◌≡◌, refl, false, ◌&&◌, ◌==◌, if◌then◌else◌, none, Bytes, bytes_eq, List, [], ◌∷◌, lit,
  ok, err, arith,
}
use hysj.Database.{GroupMember, Db, empty_db}
use hysj.Database.Users.{account}
use hysj.Database.Groups.{role_of}
use hysj.Api.Error.{forbidden, validation_error}
use hysj.Api.Groups.{add_member, remove_member, delete_group, update_group}
use hysj.Api.Groups.Access.{role_in, not_admin_refused, remove_member-ok}
use hysj.Api.RateLimit.{new, retain_after, check_rate_limit, cleanup}
use hysj.Api.RateLimit.Window.{
  Event, request, sweep, count, run, IsTimeline, check_rate_limit-run, run_limited,
}

-- Two requests in ten ticks.
abbrev limit : Bytes → ℕ
limit key = 2

abbrev ten : Bytes → ℕ
ten key = 10

abbrev events : List (ℕ × Event)
events =
    (20, request (lit "a"))
    ∷ (22, request (lit "b"))
    ∷ (23, sweep 15)
    ∷ (24, request (lit "a"))
    ∷ (25, request (lit "a"))
    ∷ []

events-IsTimeline : IsTimeline limit ten 0 events 26
events-IsTimeline = (
  omega arith,
  omega arith,
  (
    omega arith,
    omega arith,
    (
      omega arith,
      (λ k. omega arith),
      (omega arith, omega arith, (omega arith, omega arith, omega arith)),
    ),
  ),
)

check_rate_limit-run_example :
    (check_rate_limit (lit "a") 2 10 26 (run limit ten new [] events).0).1 ≡ ok false
unfolding new check_rate_limit cleanup retain_after bytes_eq
check_rate_limit-run_example =
    check_rate_limit-run limit ten events 26 26 (lit "a") events-IsTimeline (omega arith)
      (omega arith)

run_limited_example : count (lit "a") 16 (run limit ten new [] events).1 ≤ 2
run_limited_example = run_limited limit ten events 26 26 (lit "a") events-IsTimeline (omega arith)

abbrev row : ℕ → Bytes → GroupMember
row user role = record {
  group_id = 7;
  user_id = user;
  alias_name = none;
  alias_color = none;
  role = role;
  joined_at = 0;
}

-- Group 7 with the admin 1 and the member 2.
abbrev db : Db
db = record empty_db {
  users = account 1 ∷ account 2 ∷ account 3 ∷ [];
  groups =
      record {
        id = 7;
        name = lit "g";
        creator_id = 1;
        is_anonymous = false;
        max_members = 50;
        created_at = 0;
      }
      ∷ [];
  group_members = row 1 (lit "admin") ∷ row 2 (lit "member") ∷ [];
}

not_admin_refused_example :
    (add_member 2 7 3 9 db ≡ (db, err forbidden))
    × (remove_member 2 7 3 db ≡ (db, err forbidden))
    × (delete_group 2 7 db ≡ (db, err forbidden))
    × (update_group 2 7 [] db ≡ (db, err validation_error))
unfolding role_of bytes_eq
not_admin_refused_example = not_admin_refused db 2 7 3 9 [] refl

remove_member-ok_example :
    (db' : Db) × (remove_member 1 7 2 db ≡ (db', ok tt))
    × (db'.groups ≡ db.groups)
    × ((h v : ℕ) → role_in db' h v ≡ (if 7 == h && 2 == v then none else role_in db h v))
unfolding role_of bytes_eq
remove_member-ok_example = remove_member-ok db 1 7 2 refl refl refl
