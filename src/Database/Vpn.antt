-- ===== src/Database/Vpn.antt =====
-- crates/hysj-db/src/vpn.rs. New ids and the clock come last. Counts of connections are INT columns;
-- they stay below their limits, so they are numbers here.
pub mod Counts
pub mod Servers
use hysj.Base.{
  ℕ, ◌+◌, ◌-◌, Bool, true, false, not, ◌&&◌, Option, none, some, Bytes, List, [], ◌∷◌, ◌++◌, ltb,
  ◌==◌, if◌then◌else◌, ok, err,
}
use hysj.Database.{
  DbError, query_failed, not_found, conflict, VpnServer, VpnSession, UserVpnKey, Db, Run, lift,
}
use hysj.Database.Users.{is_user}
use hysj.Database.Groups.{is_some}

-- ORDER BY country, city, in the collation of the database, which is a parameter.
unfoldable pub insert_server :
    (VpnServer → VpnServer → Bool) → VpnServer → List VpnServer → List VpnServer
insert_server before v [] = v ∷ []
insert_server before v (x ∷ xs) =
    let rest = insert_server before v xs in if before x v then x ∷ rest else v ∷ x ∷ xs

unfoldable pub active_servers : (VpnServer → VpnServer → Bool) → List VpnServer → List VpnServer
active_servers before [] = []
active_servers before (v ∷ vs) =
    let rest = active_servers before vs in if v.is_active then insert_server before v rest else rest

unfoldable pub list_servers : (VpnServer → VpnServer → Bool) → Run DbError (List VpnServer)
list_servers before db = (db, ok (active_servers before db.vpn_servers))

unfoldable pub find_server : ℕ → List VpnServer → Option VpnServer
find_server id [] = none
find_server id (v ∷ vs) = if v.id == id then some v else find_server id vs

unfoldable pub find_session : ℕ → List VpnSession → Option VpnSession
find_session id [] = none
find_session id (x ∷ xs) = if x.id == id then some x else find_session id xs

-- UPDATE vpn_servers SET current_connections = … WHERE id = …
unfoldable pub set_connections : ℕ → (ℕ → ℕ) → List VpnServer → List VpnServer
set_connections id f [] = []
set_connections id f (v ∷ vs) =
    let rest = set_connections id f vs in
    if v.id == id
    then record v { current_connections = f v.current_connections } ∷ rest
    else v ∷ rest

unfoldable pub create_session : ℕ → ℕ → Bytes → Bytes → ℕ → ℕ → Run DbError VpnSession
create_session user_id server_id client_public_key assigned_ip id now db =
    let session : VpnSession = record {
      id = id;
      user_id = user_id;
      server_id = server_id;
      client_public_key = client_public_key;
      assigned_ip = assigned_ip;
      started_at = now;
      ended_at = none;
      bytes_up = 0;
      bytes_down = 0;
    } in
    if is_some (find_session id db.vpn_sessions)
    then (db, err conflict)
    else if is_user user_id db.users && is_some (find_server server_id db.vpn_servers)
    then (
      record db {
        vpn_sessions = session ∷ db.vpn_sessions;
        vpn_servers = set_connections server_id (λ n. n + 1) db.vpn_servers;
      },
      ok session,
    )
    else (db, err query_failed)

-- UPDATE vpn_sessions SET ended_at = $2 WHERE id = $1 AND ended_at IS NULL
unfoldable pub end_rows : ℕ → ℕ → List VpnSession → List VpnSession
end_rows id now [] = []
end_rows id now (x ∷ xs) =
    let rest = end_rows id now xs in
    if x.id == id && not (is_some x.ended_at)
    then record x { ended_at = some now } ∷ rest
    else x ∷ rest

-- A row that the statement updates.
unfoldable pub is_running : ℕ → List VpnSession → Bool
is_running id [] = false
is_running id (x ∷ xs) = if x.id == id && not (is_some x.ended_at) then true else is_running id xs

-- GREATEST(current_connections - 1, 0) is the subtraction of ℕ.
unfoldable pub end_session : ℕ → ℕ → Run DbError (Unit {0})
end_session session_id now db =
    let ended = end_rows session_id now db.vpn_sessions in
    if not (is_running session_id db.vpn_sessions)
    then (db, err not_found)
    else elim (find_session session_id ended) [
      | none ↦ (record db { vpn_sessions = ended }, ok tt)
      | some x ↦ (
        record db {
          vpn_sessions = ended;
          vpn_servers = set_connections x.server_id (λ n. n - 1) db.vpn_servers;
        },
        ok tt,
      )
    ]

-- WHERE user_id = $1 AND ended_at IS NULL ORDER BY started_at DESC LIMIT 1
unfoldable pub latest_active : ℕ → List VpnSession → Option VpnSession
latest_active user_id [] = none
latest_active user_id (x ∷ xs) =
    let rest = latest_active user_id xs in
    if x.user_id == user_id && not (is_some x.ended_at)
    then elim rest [
      | none ↦ some x
      | some y ↦ if ltb x.started_at y.started_at then some y else some x
    ]
    else rest

unfoldable pub get_active_session : ℕ → Run DbError (Option VpnSession)
get_active_session user_id db = (db, ok (latest_active user_id db.vpn_sessions))

-- The running sessions that the test on their user and server takes.
unfoldable pub count_by : (ℕ → ℕ → Bool) → List VpnSession → ℕ
count_by p [] = 0
count_by p (x ∷ xs) =
    let rest = count_by p xs in
    if not (is_some x.ended_at) && p x.user_id x.server_id then 1 + rest else rest

abbrev pub on_server : ℕ → ℕ → ℕ → Bool
on_server id user_id server_id = server_id == id

-- WHERE server_id = $1 AND ended_at IS NULL
unfoldable pub count_sessions : ℕ → Run DbError ℕ
count_sessions server_id db = (db, ok (count_by (on_server server_id) db.vpn_sessions))

unfoldable pub find_keys : ℕ → List UserVpnKey → Option UserVpnKey
find_keys user_id [] = none
find_keys user_id (k ∷ ks) = if k.user_id == user_id then some k else find_keys user_id ks

-- The update of the one row, or a new one.
unfoldable pub put_keys : UserVpnKey → List UserVpnKey → List UserVpnKey
put_keys k [] = k ∷ []
put_keys k (x ∷ xs) =
    let rest = put_keys k xs in if x.user_id == k.user_id then k ∷ xs else x ∷ rest

unfoldable pub store_vpn_keys : ℕ → Bytes → Bytes → ℕ → Run DbError (Unit {0})
store_vpn_keys user_id public_key private_key_encrypted now db =
    let keys : UserVpnKey = record {
      user_id = user_id;
      public_key = public_key;
      private_key_encrypted = private_key_encrypted;
      created_at = now;
    } in
    if is_user user_id db.users
    then (record db { user_vpn_keys = put_keys keys db.user_vpn_keys }, ok tt)
    else (db, err query_failed)

unfoldable pub get_vpn_keys : ℕ → Run DbError (Option UserVpnKey)
get_vpn_keys user_id db = (db, ok (find_keys user_id db.user_vpn_keys))
