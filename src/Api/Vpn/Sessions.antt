-- ===== src/Api/Vpn/Sessions.antt =====
-- crates/hysj-api/src/routes/vpn.rs: what connecting and disconnecting do to the sessions.
use hysj.Base.{
  ℕ, ◌-◌, ◌≤◌, ◌≡◌, refl, false, none, some, ◌==◌, ok, err, Bool-cases, Option-cases, inl, inr,
  arith,
}
use hysj.Database.{VpnServer, VpnSession, Db}
use hysj.Database.Groups.{is_some}
use hysj.Database.Vpn.{
  find_server, find_session, set_connections, end_rows, latest_active, count_by, on_server,
  end_session, get_active_session,
}
use hysj.Database.Vpn.Counts.{
  DistinctSessions, end_rows-Distinct, count_by-end_rows, find_session-end, find_session-end_rows,
  of_user, latest_active-none, latest_active-some,
}
use hysj.Database.Vpn.Servers.{
  DistinctServers, find_server-set, find_server-set_inv, set_connections-Distinct,
}
use hysj.Api.Error.{validation_error}
use hysj.Api.Vpn.{end_existing, disconnect}

-- No id is used twice, no user has two running sessions, and a server's count of connections is that
-- of its running sessions, and at most its limit.
pub record IsValid (db : Db) : Type 0 where
  pub sessions : DistinctSessions db.vpn_sessions
  pub servers : DistinctServers db.vpn_servers
  pub single : (u : ℕ) → count_by (of_user u) db.vpn_sessions ≤ 1
  pub counted :
      (id : ℕ) (v : VpnServer)
      → find_server id db.vpn_servers ≡ some v
      → v.current_connections ≡ count_by (on_server id) db.vpn_sessions
  pub bounded :
      (id : ℕ) (v : VpnServer)
      → find_server id db.vpn_servers ≡ some v
      → v.current_connections ≤ v.max_connections

-- The database after a running session has ended.
abbrev ended : VpnSession → ℕ → Db → Db
ended x now db = record db {
  vpn_sessions = end_rows x.id now db.vpn_sessions;
  vpn_servers = set_connections x.server_id (λ n. n - 1) db.vpn_servers;
}

end_session-ended :
    (x : VpnSession) (now : ℕ) (db : Db)
    → find_session x.id db.vpn_sessions ≡ some x
    → is_some x.ended_at ≡ false
    → end_session x.id now db ≡ (ended x now db, ok tt)
unfolding end_session
end_session-ended x now db f o =
    let (a, b) = find_session-end_rows x.id now db.vpn_sessions x f o in ground arith

ended-IsValid :
    (x : VpnSession) (now : ℕ) (db : Db)
    → IsValid db
    → find_session x.id db.vpn_sessions ≡ some x
    → is_some x.ended_at ≡ false
    → IsValid (ended x now db)
ended-IsValid x now db h f o = record {
  sessions = end_rows-Distinct x.id now db.vpn_sessions h.sessions;
  servers = set_connections-Distinct x.server_id (λ n. n - 1) db.vpn_servers h.servers;
  single = λ u.
      omega (
        arith,
        h.single u,
        count_by-end_rows (of_user u) x.id now db.vpn_sessions x h.sessions f o,
      );
  counted = λ id v e.
      let (w, a, b, c) = find_server-set_inv x.server_id id (λ n. n - 1) db.vpn_servers v e in
      ground (
        arith,
        h.counted id w a,
        count_by-end_rows (on_server id) x.id now db.vpn_sessions x h.sessions f o,
      );
  bounded = λ id v e.
      let (w, a, b, c) = find_server-set_inv x.server_id id (λ n. n - 1) db.vpn_servers v e in
      ground (arith, h.bounded id w a);
}

-- What ending the user's running session, if there is one, gives.
abbrev pub EndsFor : ℕ → Db → Db → Type 0
EndsFor u db db' =
    IsValid db'
    × (count_by (of_user u) db'.vpn_sessions ≡ 0)
    × ((v : ℕ)
        → (v == u) ≡ false
        → count_by (of_user v) db'.vpn_sessions ≡ count_by (of_user v) db.vpn_sessions)
    × ((id : ℕ) (v : VpnServer)
        → find_server id db.vpn_servers ≡ some v
        → (v' : VpnServer) × (find_server id db'.vpn_servers ≡ some v')
          × (v'.max_connections ≡ v.max_connections)
          × (v'.current_connections ≤ v.current_connections))
    × ((j : ℕ)
        → is_some (find_session j db'.vpn_sessions) ≡ is_some (find_session j db.vpn_sessions))
    × (db'.users ≡ db.users)
    × (db'.user_vpn_keys ≡ db.user_vpn_keys)

EndsFor-none :
    (u : ℕ) (db : Db) → IsValid db → latest_active u db.vpn_sessions ≡ none → EndsFor u db db
EndsFor-none u db h e = (
  h,
  latest_active-none u db.vpn_sessions e,
  (λ v n. refl),
  (λ id v f. (v, f, refl, omega arith)),
  (λ j. refl),
  refl,
  refl,
)

EndsFor-ended :
    (u now : ℕ) (x : VpnSession) (db : Db)
    → IsValid db
    → latest_active u db.vpn_sessions ≡ some x
    → EndsFor u db (ended x now db)
EndsFor-ended u now x db h e =
    let (o, v, f) = latest_active-some u db.vpn_sessions x h.sessions e in
    let count =
      λ (w : ℕ). count_by-end_rows (of_user w) x.id now db.vpn_sessions x h.sessions f o in
    (
      ended-IsValid x now db h f o,
      ground (arith, count u, h.single u),
      (λ w n. ground (arith, count w)),
      (λ id w g. elim (Bool-cases (x.server_id == id)) [
        | inl q ↦ (
          record w { current_connections = w.current_connections - 1 },
          ground (arith, find_server-set x.server_id id (λ n. n - 1) db.vpn_servers),
          refl,
          omega arith,
        )
        | inr q ↦ (
          w,
          ground (arith, find_server-set x.server_id id (λ n. n - 1) db.vpn_servers),
          refl,
          omega arith,
        )
      ]),
      (λ j. find_session-end x.id j now db.vpn_sessions),
      refl,
      refl,
    )

pub end_existing-EndsFor :
    (u now : ℕ) (db : Db)
    → IsValid db
    → (db' : Db) × (end_existing u now db ≡ (db', ok tt)) × EndsFor u db db'
unfolding end_existing get_active_session
end_existing-EndsFor u now db h = elim (Option-cases (latest_active u db.vpn_sessions)) [
  | inl e ↦ (db, ground arith, EndsFor-none u db h e)
  | inr (x, e) ↦
      let (o, v, f) = latest_active-some u db.vpn_sessions x h.sessions e in
      (ended x now db, ground (arith, end_session-ended x now db f o), EndsFor-ended u now x db h e)
]

-- In a valid database, a user with a running session who disconnects succeeds: the database stays
-- valid, the user has no running session any more, every other user has as many as before, and no
-- server has more connections; a user without one is refused, and nothing changes.
pub disconnect-EndsFor :
    (u now : ℕ) (db : Db)
    → IsValid db
    → (count_by (of_user u) db.vpn_sessions ≡ 0 → disconnect u now db ≡ (db, err validation_error))
      × (1 ≤ count_by (of_user u) db.vpn_sessions
          → (db' : Db) × (disconnect u now db ≡ (db', ok tt)) × EndsFor u db db')
unfolding disconnect get_active_session
disconnect-EndsFor u now db h = elim (Option-cases (latest_active u db.vpn_sessions)) [
  | inl e ↦
      let zero_now = latest_active-none u db.vpn_sessions e in
      ((λ z. ground arith), λ z. absurd (omega arith))
  | inr (x, e) ↦
      let (o, v, f) = latest_active-some u db.vpn_sessions x h.sessions e in
      let count = count_by-end_rows (of_user u) x.id now db.vpn_sessions x h.sessions f o in
      (
        (λ z. absurd (ground arith)),
        λ z. (
          ended x now db,
          ground (arith, end_session-ended x now db f o),
          EndsFor-ended u now x db h e,
        ),
      )
]
