-- ===== src/Api/Vpn/Steps.antt =====
-- crates/hysj-api/src/routes/vpn.rs: the steps of connecting.
use hysj.Base.{
  ℕ, ◌+◌, ◌<◌, ◌≡◌, refl, subst, true, false, not, ◌&&◌, ◌||◌, none, some, Bytes, List, ◌∷◌, leb,
  ◌==◌, ok, err, Bool-cases, Option-cases, inl, inr, ◌⊎◌, Result, panic, Result-cases, lit, arith,
}
use hysj.Database.{VpnServer, VpnSession, UserVpnKey, Db}
use hysj.Database.Users.{is_user}
use hysj.Database.Groups.{is_some}
use hysj.Database.Vpn.{
  find_server, find_session, set_connections, count_by, on_server, create_session, list_servers,
  get_vpn_keys, store_vpn_keys, find_keys, put_keys, count_sessions,
}
use hysj.Database.Vpn.Counts.{of_user}
use hysj.Database.Vpn.Servers.{
  DistinctServers, find_server-set_inv, set_connections-Distinct, find_server-active_servers,
}
use hysj.Crypto.Primitives.{Primitives}
use hysj.Crypto.Cipher
use hysj.Vpn.{Formats, generate_keypair, to_json}
use hysj.Base.Utf8.{is_utf8}
use hysj.Api.Error.{HysjError, validation_error, internal_error, database_error}
use hysj.Api.Vpn.{choose_server, own_keys, open_session, assigned_ip, VpnConnectResponse}
use hysj.Api.Vpn.Sessions.{IsValid}

abbrev pub created : VpnSession → Db → Db
created x db = record db {
  vpn_sessions = x ∷ db.vpn_sessions;
  vpn_servers = set_connections x.server_id (λ n. n + 1) db.vpn_servers;
}

pub created-IsValid :
    (x : VpnSession) (db : Db)
    → IsValid db
    → x.ended_at ≡ none
    → is_some (find_session x.id db.vpn_sessions) ≡ false
    → count_by (of_user x.user_id) db.vpn_sessions ≡ 0
    → ((v : VpnServer)
        → find_server x.server_id db.vpn_servers ≡ some v
        → v.current_connections < v.max_connections)
    → IsValid (created x db)
unfolding count_by
created-IsValid x db h o n z room = record {
  sessions = (n, h.sessions);
  servers = set_connections-Distinct x.server_id (λ n. n + 1) db.vpn_servers h.servers;
  single = λ u. elim (Bool-cases (x.user_id == u)) [
    | inl q ↦
        let same : x.user_id ≡ u = ground arith in
        let none_yet : count_by (of_user u) db.vpn_sessions ≡ 0 =
          subst (λ k. count_by (of_user k) db.vpn_sessions ≡ 0) same z in
        ground arith
    | inr q ↦ ground (arith, h.single u)
  ];
  counted = λ id v e.
      let (w, a, b, c) = find_server-set_inv x.server_id id (λ n. n + 1) db.vpn_servers v e in
      ground (arith, h.counted id w a);
  bounded = λ id v e.
      let (w, a, b, c) = find_server-set_inv x.server_id id (λ n. n + 1) db.vpn_servers v e in
      elim (Bool-cases (x.server_id == id)) [
        | inl q ↦
            let same : id ≡ x.server_id = ground arith in
            let below = room w (subst (λ k. find_server k db.vpn_servers ≡ some w) same a) in
            ground arith
        | inr q ↦ ground (arith, h.bounded id w a)
      ];
}

-- The stored keys have no part in it.
pub IsValid-keys :
    (keys : List UserVpnKey) (db : Db) → IsValid db → IsValid (record db { user_vpn_keys = keys })
IsValid-keys keys db h = record {
  sessions = h.sessions;
  servers = h.servers;
  single = h.single;
  counted = h.counted;
  bounded = h.bounded;
}

-- The row of a new session.
abbrev pub opened : ℕ → ℕ → Bytes → Bytes → ℕ → ℕ → VpnSession
opened user server_id public_key address id now = record {
  id = id;
  user_id = user;
  server_id = server_id;
  client_public_key = public_key;
  assigned_ip = address;
  started_at = now;
  ended_at = none;
  bytes_up = 0;
  bytes_down = 0;
}

module _ ⦃f : Formats⦄ where
  -- A server that is chosen is the row of its id, active and not full.
  abbrev pub Chosen : ℕ → Db → VpnServer → Type 0
  Chosen id db v =
      (find_server id db.vpn_servers ≡ some v)
      × (v.is_active ≡ true)
      × (v.current_connections < v.max_connections)

  pub choose_server-cases :
      (id : ℕ) (db : Db)
      → DistinctServers db.vpn_servers
      → ((v : VpnServer) × (choose_server id db ≡ (db, ok v)) × Chosen id db v)
        ⊎ (choose_server id db ≡ (db, err validation_error))
  unfolding choose_server list_servers
  choose_server-cases id db d =
      let lookup = find_server-active_servers f.before id db.vpn_servers d in
      elim (Option-cases (find_server id db.vpn_servers)) [
        | inl e ↦ inr (ground (arith, lookup))
        | inr (v, e) ↦ elim (Bool-cases v.is_active) [
          | inl a ↦ elim (Bool-cases (leb v.max_connections v.current_connections)) [
            | inl b ↦ inr (ground (arith, lookup))
            | inr b ↦ inl (v, ground (arith, lookup), (e, a, ground arith))
          ]
          | inr a ↦ inr (ground (arith, lookup))
        ]
      ]

  pub choose_server-ok :
      (id : ℕ) (db : Db) (v : VpnServer)
      → DistinctServers db.vpn_servers
      → find_server id db.vpn_servers ≡ some v
      → v.is_active ≡ true
      → v.current_connections < v.max_connections
      → choose_server id db ≡ (db, ok v)
  unfolding choose_server list_servers
  choose_server-ok id db v d e a b =
      ground (arith, find_server-active_servers f.before id db.vpn_servers d)

  module _ ⦃p : Primitives⦄ where
    pub own_keys-run :
        (u : ℕ) (key secret nonce : Bytes) (now : ℕ) (db : Db)
        → (keys : List UserVpnKey) × (m : Result HysjError (Bytes × Bytes)) × (own_keys u key secret
              nonce now db
            ≡ (record db { user_vpn_keys = keys }, m))
    unfolding own_keys get_vpn_keys store_vpn_keys
    own_keys-run u key secret nonce now db =
        let own = db.user_vpn_keys in
        elim (Option-cases (find_keys u own)) [
          | inr (k, e) ↦
              elim (Result-cases (Cipher.decrypt k.private_key_encrypted key (f.uuid_bytes u))) [
                | inl (a, d) ↦ elim (Bool-cases (is_utf8 a)) [
                  | inl b ↦ (own, ok (a, k.public_key), ground arith)
                  | inr b ↦ (own, err internal_error, ground arith)
                ]
                | inr (inl (x, d)) ↦ (own, err internal_error, ground arith)
                | inr (inr d) ↦ (own, panic, ground arith)
              ]
          | inl e ↦
              elim (Result-cases
                (Cipher.encrypt (generate_keypair secret).0 key (f.uuid_bytes u) nonce)) [
                  | inl (a, d) ↦ elim (Bool-cases (is_user u db.users)) [
                    | inl b ↦ (
                      put_keys
                          (record {
                            user_id = u;
                            public_key = (generate_keypair secret).1;
                            private_key_encrypted = a;
                            created_at = now;
                          })
                          own,
                      ok (generate_keypair secret),
                      ground arith,
                    )
                    | inr b ↦ (own, err database_error, ground arith)
                  ]
                  | inr (inl (x, d)) ↦ (own, err internal_error, ground arith)
                  | inr (inr d) ↦ (own, panic, ground arith)
                ]
        ]

    abbrev pub address_on : ℕ → Db → Bytes
    address_on server_id db = assigned_ip (count_by (on_server server_id) db.vpn_sessions)

    abbrev pub session_on : ℕ → VpnServer → Bytes → ℕ → ℕ → Db → VpnSession
    session_on u v public_key id now db = opened u v.id public_key (address_on v.id db) id now

    pub open_session-ok :
        (u id now : ℕ) (v : VpnServer) (keys : Bytes × Bytes) (db : Db)
        → is_some (find_session id db.vpn_sessions) ≡ false
        → is_user u db.users ≡ true
        → is_some (find_server v.id db.vpn_servers) ≡ true
        → (resp : VpnConnectResponse) × (open_session u v.id v keys id now db
            ≡ (created (session_on u v keys.1 id now db) db, ok resp))
          × (resp.session_id ≡ id)
          × (resp.assigned_ip ≡ address_on v.id db)
    unfolding open_session count_sessions create_session
    open_session-ok u id now v keys db n m o = (
      record {
        config = to_json (record {
          interface_private_key = keys.0;
          interface_address = address_on v.id db;
          dns = lit "1.1.1.1";
          peer_public_key = v.public_key;
          peer_endpoint = v.endpoint;
          allowed_ips = lit "0.0.0.0/0";
        });
        session_id = id;
        assigned_ip = address_on v.id db;
      },
      ground arith,
      refl,
      refl,
    )

    pub open_session-err :
        (u id now : ℕ) (v : VpnServer) (keys : Bytes × Bytes) (db : Db)
        → (is_some (find_session id db.vpn_sessions)
            || not (is_user u db.users && is_some (find_server v.id db.vpn_servers)))
          ≡ true
        → (open_session u v.id v keys id now db).0 ≡ db
    unfolding open_session count_sessions create_session
    open_session-err u id now v keys db h =
        elim (Bool-cases (is_some (find_session id db.vpn_sessions))) [
          | inl e ↦ ground arith
          | inr e ↦ ground arith
        ]
