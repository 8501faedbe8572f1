-- ===== src/Api/Vpn/Examples.antt =====
-- Runs of the model of crates/hysj-api/src/routes/vpn.rs on two servers.
use hysj.Base.{
  ℕ, zero, suc, ◌%◌, ◌≤◌, ◌≡◌, refl, true, false, none, some, Bytes, [], ◌∷◌, ltb, ◌==◌, lit, ok,
  subst, Bool-cases, inl, inr, arith,
}
use hysj.Base.Utf8.{is_ascii}
use hysj.Crypto.Toy.{toy, pad, length-pad}
use hysj.Database.{VpnServer, VpnSession, Db, empty_db}
use hysj.Database.Users.{is_user, account}
use hysj.Database.Vpn.{find_server, find_session, count_by, on_server, find_keys}
use hysj.Database.Vpn.Counts.{of_user}
use hysj.Vpn.{Formats}
use hysj.Api.Vpn.{connect, end_existing, assigned_ip, VpnConnectResponse, octets}
use hysj.Api.Vpn.Sessions.{IsValid}
use hysj.Api.Vpn.Connect.{connect-IsValid, connect-ok}

abbrev mask : Bytes → Bytes
mask [] = []
mask (b ∷ bs) = b % 128 ∷ mask bs

is_ascii-pad : (n : ℕ) (bs : Bytes) → is_ascii bs ≡ true → is_ascii (pad n bs) ≡ true
is_ascii-pad zero bs h = refl
is_ascii-pad (suc n) [] h = ground (arith, is_ascii-pad n [])
is_ascii-pad (suc n) (b ∷ bs) h = ground (arith, is_ascii-pad n bs)

is_ascii-mask : (bs : Bytes) → is_ascii (mask bs) ≡ true
is_ascii-mask [] = refl
is_ascii-mask (b ∷ bs) = ground (arith, is_ascii-mask bs)

-- 44 ASCII characters, whatever the bytes.
pub is_ascii-b64 : (bs : Bytes) → is_ascii (pad 44 (mask bs)) ≡ true
is_ascii-b64 bs = is_ascii-pad 44 (mask bs) (is_ascii-mask bs)

instance abbrev formats : Formats
formats = record {
  b64 = λ bs. pad 44 (mask bs);
  uuid_bytes = λ id. id ∷ [];
  before = λ v w. ltb v.id w.id;
  is_ascii-b64 = λ bs. is_ascii-b64 bs;
  length-b64 = λ bs h. length-pad 44 (mask bs);
}

abbrev server : ℕ → ℕ → VpnServer
server id current = record {
  id = id;
  name = lit "s";
  country = lit "NL";
  city = none;
  endpoint = lit "e";
  public_key = lit "k";
  is_active = true;
  max_connections = 2;
  current_connections = current;
}

abbrev session : VpnSession
session = record {
  id = 100;
  user_id = 1;
  server_id = 10;
  client_public_key = lit "c";
  assigned_ip = lit "10.0.0.2/32";
  started_at = 3;
  ended_at = none;
  bytes_up = 0;
  bytes_down = 0;
}

-- User 1 runs a session on server 10.
abbrev db : Db
db = record empty_db {
  users = account 1 ∷ account 2 ∷ [];
  vpn_servers = server 10 1 ∷ server 11 0 ∷ [];
  vpn_sessions = session ∷ [];
}

single_db : (u : ℕ) → count_by (of_user u) db.vpn_sessions ≤ 1
unfolding count_by
single_db u = ground arith

abbrev Agrees : ℕ → VpnServer → Type 0
Agrees id v =
    (v.current_connections ≡ count_by (on_server id) db.vpn_sessions)
    × (v.current_connections ≤ v.max_connections)

counted_db : (id : ℕ) (v : VpnServer) → find_server id db.vpn_servers ≡ some v → Agrees id v
unfolding count_by find_server
counted_db id v h = elim (Bool-cases (10 == id)) [
  | inl q ↦
      let same : server 10 1 ≡ v = ground arith in
      subst (λ (w : VpnServer). Agrees id w) same (ground arith, omega arith)
  | inr q ↦ elim (Bool-cases (11 == id)) [
    | inl p ↦
        let same : server 11 0 ≡ v = ground arith in
        subst (λ (w : VpnServer). Agrees id w) same (ground arith, omega arith)
    | inr p ↦ absurd (ground arith)
  ]
]

db-IsValid : IsValid db
unfolding find_session find_server
db-IsValid = record {
  sessions = (refl, tt);
  servers = (refl, (refl, tt));
  single = single_db;
  counted = λ id v e. (counted_db id v e).0;
  bounded = λ id v e. (counted_db id v e).1;
}

abbrev secret : Bytes
secret = pad 32 (lit "secret")

abbrev nonce : Bytes
nonce = pad 24 (lit "nonce")

connect-IsValid_example : IsValid (connect 1 11 (lit "seed") secret nonce 101 9 db).0
connect-IsValid_example = connect-IsValid 1 11 (lit "seed") secret nonce 101 9 db db-IsValid

connect-ok_example :
    (db1 : Db) × (db' : Db) × (resp : VpnConnectResponse) × (x : VpnSession) × (end_existing 1 9 db
      ≡ (db1, ok tt))
    × (connect 1 11 (lit "seed") secret nonce 101 9 db ≡ (db', ok resp))
    × (resp.session_id ≡ 101)
    × (resp.assigned_ip ≡ assigned_ip (count_by (on_server 11) db1.vpn_sessions))
    × (find_session 101 db'.vpn_sessions ≡ some x)
    × (x.user_id ≡ 1)
    × (x.server_id ≡ 11)
    × (x.assigned_ip ≡ resp.assigned_ip)
    × (x.ended_at ≡ none)
    × (count_by (of_user 1) db'.vpn_sessions ≡ 1)
    × ((w : ℕ)
        → (w == 1) ≡ false
        → count_by (of_user w) db'.vpn_sessions ≡ count_by (of_user w) db.vpn_sessions)
unfolding is_user find_keys find_server find_session
connect-ok_example =
    connect-ok 1 (server 11 0) (lit "seed") secret nonce 101 9 db db-IsValid refl refl (omega arith)
      refl refl (length-pad 32 (lit "secret")) (length-pad 24 (lit "nonce")) refl

-- Two sessions run on the server and the first ends: the address for the next is that of the second.
next_address : octets (count_by (on_server 10) (session ∷ [])) ≡ (0, 3)
unfolding count_by
next_address = refl

-- The counts 254, 255 and 256 give one address.
same_address : (octets 254 ≡ (1, 2)) × (octets 255 ≡ (1, 2)) × (octets 256 ≡ (1, 2))
same_address = (refl, refl, refl)
