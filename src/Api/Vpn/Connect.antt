-- ===== src/Api/Vpn/Connect.antt =====
-- crates/hysj-api/src/routes/vpn.rs: connecting keeps the database valid, and what it gives.
use hysj.Base.{
  ℕ, ◌<◌, ◌≡◌, refl, sym, ap, subst, ◌∙◌, true, false, not, ◌&&◌, ◌||◌, Option, none, some, Bytes,
  length, ◌==◌, ==_refl, ok, err, panic, Result, Result-cases, Bool-cases, inl, inr, arith,
}
use hysj.Crypto.Primitives.{Primitives}
use hysj.Database.{VpnServer, VpnSession, Db}
use hysj.Database.Users.{is_user}
use hysj.Database.Groups.{is_some}
use hysj.Database.Vpn.{find_server, find_session, count_by, on_server, find_keys}
use hysj.Database.Vpn.Counts.{of_user}
use hysj.Database.Vpn.Servers.{find_server-id}
use hysj.Vpn.{Formats, generate_keypair}
use hysj.Api.Error.{HysjError, internal_error, validation_error}
use hysj.Api.Vpn.{
  assigned_ip, end_existing, vpn_encryption_key, open_session, connect, VpnConnectResponse,
}
use hysj.Api.Vpn.Sessions.{IsValid, end_existing-EndsFor}
use hysj.Api.Vpn.OwnKeys.{vpn_encryption_key-ok, own_keys_twice}
use hysj.Api.Vpn.Steps.{
  created, created-IsValid, IsValid-keys, choose_server-cases, choose_server-ok, own_keys-run,
  open_session-ok, open_session-err, session_on,
}

leaves :
    (m : Db × Result HysjError VpnConnectResponse) (db : Db)
    (r : Result HysjError VpnConnectResponse)
    → m ≡ (db, r)
    → IsValid db
    → IsValid m.0
leaves m db r e h = subst (λ (z : Db × Result HysjError VpnConnectResponse). IsValid z.0) (sym e) h

same_row :
    (v w : VpnServer) (o : Option VpnServer)
    → o ≡ some v
    → o ≡ some w
    → v.current_connections < v.max_connections
    → w.current_connections < w.max_connections
same_row v w o a b h =
    let same : v ≡ w = ground arith in
    subst (λ (z : VpnServer). z.current_connections < z.max_connections) same h

module _ ⦃f : Formats⦄ ⦃p : Primitives⦄ where
  open_session-IsValid :
      (u id now : ℕ) (v : VpnServer) (keys : Bytes × Bytes) (db : Db)
      → IsValid db
      → count_by (of_user u) db.vpn_sessions ≡ 0
      → ((w : VpnServer)
          → find_server v.id db.vpn_servers ≡ some w
          → w.current_connections < w.max_connections)
      → IsValid (open_session u v.id v keys id now db).0
  open_session-IsValid u id now v keys db h z room =
      elim (Bool-cases (
        is_some (find_session id db.vpn_sessions)
        || not (is_user u db.users && is_some (find_server v.id db.vpn_servers)))) [
          | inl e ↦ subst IsValid (sym (open_session-err u id now v keys db e)) h
          | inr e ↦
              let fresh : is_some (find_session id db.vpn_sessions) ≡ false = ground arith in
              let (resp, q, a, b) =
                open_session-ok u id now v keys db fresh (ground arith) (ground arith) in
              subst (λ (r : Db × Result HysjError VpnConnectResponse). IsValid r.0) (sym q)
                (created-IsValid (session_on u v keys.1 id now db) db h refl fresh z room)
        ]

  -- Connecting keeps a valid database valid on every branch, refusals, failures of the key handling and
  -- a new id that is taken included: no user gets a second running session, every server's count of
  -- connections stays that of its running sessions, and no server gets more than its limit.
  pub connect-IsValid :
      (u server_id : ℕ) (seed secret nonce : Bytes) (id now : ℕ) (db : Db)
      → IsValid db
      → IsValid (connect u server_id seed secret nonce id now db).0
  unfolding connect
  connect-IsValid u server_id seed secret nonce id now db h =
      elim (choose_server-cases server_id db h.servers) [
        | inr e ↦
            leaves (connect u server_id seed secret nonce id now db) db (err validation_error)
              (ground arith) h
        | inl (v, c, (e, a, b)) ↦
            let (db1, q, (h1, zero, others, servers, ids, us, ks)) =
              end_existing-EndsFor u now db h in
            let (v1, e1, most, fewer) = servers server_id v e in
            let here = find_server-id server_id db.vpn_servers v e in
            elim (Result-cases (vpn_encryption_key seed)) [
              | inr (inl (x, k)) ↦
                  leaves (connect u server_id seed secret nonce id now db) db1 (err internal_error)
                    (ground arith) h1
              | inr (inr k) ↦
                  leaves (connect u server_id seed secret nonce id now db) db1 panic (ground arith)
                    h1
              | inl (key, k) ↦
                  let (keys, m, o) = own_keys-run u key secret nonce now db1 in
                  let db2 : Db = record db1 { user_vpn_keys = keys } in
                  let h2 = IsValid-keys keys db1 h1 in
                  elim (Result-cases m) [
                    | inr (inl (x, n)) ↦
                        leaves (connect u server_id seed secret nonce id now db) db2 (err x)
                          (ground arith) h2
                    | inr (inr n) ↦
                        leaves (connect u server_id seed secret nonce id now db) db2 panic
                          (ground arith) h2
                    | inl (pair, n) ↦
                        let last : connect u server_id seed secret nonce id now db
                            ≡ open_session u server_id v pair id now db2 =
                          ground arith in
                        let room : (w : VpnServer)
                            → find_server v.id db2.vpn_servers ≡ some w
                            → w.current_connections < w.max_connections =
                          λ w g.
                            same_row v1 w (find_server server_id db1.vpn_servers) e1
                              (subst (λ z. find_server z db1.vpn_servers ≡ some w) here g)
                              (omega arith) in
                        subst (λ (z : Db × Result HysjError VpnConnectResponse). IsValid z.0)
                          (sym last)
                          (subst (λ z. IsValid (open_session u z v pair id now db2).0) here
                            (open_session-IsValid u id now v pair db2 h2 zero room))
                  ]
            ]
      ]

  -- In a valid database: a registered user without a key pair who connects to a server that is active
  -- and not full, with a secret of 32 random bytes, a nonce of 24 and a new session id, succeeds; then
  -- the user has exactly one running session, which is the new one, on that server, with the address
  -- of the response, and that address is the one for the number of sessions that ran on the server
  -- when the user's own had ended; every other user has as many running sessions as before.
  pub connect-ok :
      (u : ℕ) (v : VpnServer) (seed secret nonce : Bytes) (id now : ℕ) (db : Db)
      → IsValid db
      → find_server v.id db.vpn_servers ≡ some v
      → v.is_active ≡ true
      → v.current_connections < v.max_connections
      → is_user u db.users ≡ true
      → find_keys u db.user_vpn_keys ≡ none
      → length secret ≡ 32
      → length nonce ≡ 24
      → is_some (find_session id db.vpn_sessions) ≡ false
      → (db1 : Db) × (db' : Db) × (resp : VpnConnectResponse) × (x : VpnSession) × (end_existing u
            now db
          ≡ (db1, ok tt))
        × (connect u v.id seed secret nonce id now db ≡ (db', ok resp))
        × (resp.session_id ≡ id)
        × (resp.assigned_ip ≡ assigned_ip (count_by (on_server v.id) db1.vpn_sessions))
        × (find_session id db'.vpn_sessions ≡ some x)
        × (x.user_id ≡ u)
        × (x.server_id ≡ v.id)
        × (x.assigned_ip ≡ resp.assigned_ip)
        × (x.ended_at ≡ none)
        × (count_by (of_user u) db'.vpn_sessions ≡ 1)
        × ((w : ℕ)
            → (w == u) ≡ false
            → count_by (of_user w) db'.vpn_sessions ≡ count_by (of_user w) db.vpn_sessions)
  unfolding connect find_session count_by
  connect-ok u v seed secret nonce id now db h e a b m k l n fresh =
      let (db1, q, (h1, zero, others, servers, ids, us, ks)) = end_existing-EndsFor u now db h in
      let (v1, e1, most, fewer) = servers v.id v e in
      let (key, q1) = vpn_encryption_key-ok seed in
      let user : is_user u db1.users ≡ true = ap (is_user u) us ∙ m in
      let (db3, q2, q3) =
        own_keys_twice u key secret nonce secret nonce now now db1 user (ap (find_keys u) ks ∙ k) l
          n in
      let (keys, r, o) = own_keys-run u key secret nonce now db1 in
      let fine : r ≡ ok (generate_keypair secret) =
        ap (λ (z : Db × Result HysjError (Bytes × Bytes)). z.1) (sym o ∙ q2) in
      let db2 : Db = record db1 { user_vpn_keys = keys } in
      let (resp, q4, i, j) =
        open_session-ok u id now v (generate_keypair secret) db2 (ids id ∙ fresh) user
          (ap is_some e1) in
      let x = session_on u v (generate_keypair secret).1 id now db2 in
      (
        db1,
        created x db2,
        resp,
        x,
        q,
        ground (arith, choose_server-ok v.id db v h.servers e a b),
        i,
        j,
        ground (arith, ==_refl id),
        refl,
        refl,
        sym j,
        refl,
        ground (arith, ==_refl u),
        λ w d. ground (arith, others w d),
      )
