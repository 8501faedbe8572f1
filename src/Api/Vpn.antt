-- ===== src/Api/Vpn.antt =====
-- crates/hysj-api/src/routes/vpn.rs. The authenticated user comes first; the random bytes of a key and
-- of a nonce, a new id and the clock come last.
pub mod Sessions
pub mod Steps
pub mod Connect
pub mod OwnKeys
pub mod Address
mod Examples
use hysj.Base.{
  ℕ, ◌+◌, ◌/◌, ◌%◌, ◌^◌, Bool, true, false, not, Option, none, some, Bytes, List, [], ◌∷◌, ◌++◌,
  map, lit, leb, ltb, ◌==◌, if◌then◌else◌, Result, ok, err, panic,
}
use hysj.Base
use hysj.Base.Utf8.{is_utf8}
use hysj.Crypto.Primitives.{Primitives}
use hysj.Crypto.Errors.{Fallible}
use hysj.Crypto.Keys.{hkdf_derive, copy_32}
use hysj.Crypto.Cipher
use hysj.Database.{VpnServer, VpnSession, UserVpnKey, Db, Run, lift, ◌>>=◌, ◌>>◌}
use hysj.Database.Vpn
use hysj.Database.Vpn.{find_server}
use hysj.Vpn.{Formats, WireGuardConfig, Json2, generate_keypair, to_json}
use hysj.Api.Error.{HysjError, validation_error, internal_error, db_do}

-- `.map_err(|e| AppError(HysjError::InternalError(…)))?` on an operation of hysj-crypto.
abbrev pub crypto_do : {A : Type 0} → Fallible A → Run HysjError A
crypto_do (ok a) = lift (ok a)
crypto_do (err e) = lift (err internal_error)
crypto_do panic = lift panic

-- A u8 in decimal.
abbrev digit : ℕ → ℕ
digit n = 48 + n % 10

unfoldable pub u8_text : ℕ → Bytes
u8_text n =
    if ltb n 10
    then digit n ∷ []
    else if ltb n 100
    then digit (n / 10) ∷ digit n ∷ []
    else digit (n / 100) ∷ digit (n / 10) ∷ digit n ∷ []

-- `(session_count as u32).wrapping_add(2)`, and the last two octets of the address.
abbrev pub octets : ℕ → ℕ × ℕ
octets session_count =
    let ip_num = (session_count % 2 ^ 32 + 2) % 2 ^ 32 in
    let low = ip_num % 256 in (ip_num / 256 % 256, if ltb low 2 then 2 else low)

unfoldable pub assigned_ip : ℕ → Bytes
assigned_ip session_count =
    lit "10.0."
    ++ (u8_text (octets session_count).0
        ++ (lit "." ++ (u8_text (octets session_count).1 ++ lit "/32")))

pub record VpnConnectResponse : Type 0 where
  pub config : Json2
  pub session_id : ℕ
  pub assigned_ip : Bytes

pub record VpnServerDto : Type 0 where
  pub id : ℕ
  pub name : Bytes
  pub country : Bytes
  pub city : Option Bytes

pub record VpnStatusResponse : Type 0 where
  pub connected : Bool
  pub session_id : Option ℕ
  pub server : Option VpnServerDto
  pub bytes_up : ℕ
  pub bytes_down : ℕ
  pub connected_since : Option ℕ

abbrev pub server_dto : VpnServer → VpnServerDto
server_dto v = record { id = v.id; name = v.name; country = v.country; city = v.city }

-- End any existing active session.
unfoldable pub end_existing : ℕ → ℕ → Run HysjError (Unit {0})
end_existing auth_user now = do
  existing ← db_do (Vpn.get_active_session auth_user)
  elim existing [ none ↦ lift (ok tt) | some session ↦ db_do (Vpn.end_session session.id now) ]

unfoldable pub disconnect : ℕ → ℕ → Run HysjError (Unit {0})
disconnect auth_user now = do
  active ← db_do (Vpn.get_active_session auth_user)
  elim active [
    | none ↦ lift (err validation_error)
    | some session ↦ db_do (Vpn.end_session session.id now)
  ]

module _ ⦃f : Formats⦄ where
  -- The server that can be connected to.
  unfoldable pub choose_server : ℕ → Run HysjError VpnServer
  choose_server server_id = do
    servers ← db_do (Vpn.list_servers f.before)
    server ← elim (find_server server_id servers) [
      | none ↦ lift (err validation_error)
      | some v ↦ lift (ok v)
    ]
    if leb server.max_connections server.current_connections
        then lift (err validation_error)
        else lift (ok server)

  unfoldable pub status : ℕ → Run HysjError VpnStatusResponse
  status auth_user = do
    active ← db_do (Vpn.get_active_session auth_user)
    elim active [
      | none ↦ lift (
          ok (record {
            connected = false;
            session_id = none;
            server = none;
            bytes_up = 0;
            bytes_down = 0;
            connected_since = none;
          }))
      | some x ↦ do
        servers ← db_do (Vpn.list_servers f.before)
        let dto : Option VpnServerDto = elim (find_server x.server_id servers) [
          | none ↦ none
          | some v ↦ some (server_dto v)
        ]
        lift (
            ok (record {
              connected = true;
              session_id = some x.id;
              server = dto;
              bytes_up = x.bytes_up;
              bytes_down = x.bytes_down;
              connected_since = some x.started_at;
            }))
    ]

  unfoldable pub list_servers : Run HysjError (List VpnServerDto)
  list_servers = do servers ← db_do (Vpn.list_servers f.before); lift (ok (map server_dto servers))

  module _ ⦃p : Primitives⦄ where
    unfoldable pub vpn_encryption_key : Bytes → Fallible Bytes
    vpn_encryption_key seed =
        Base.◌>>=◌ (hkdf_derive seed (lit "hysj-vpn-key-encryption") [] 32) copy_32

    -- The stored key pair, or a new one: (private_key, public_key).
    unfoldable pub own_keys : ℕ → Bytes → Bytes → Bytes → ℕ → Run HysjError (Bytes × Bytes)
    own_keys auth_user enc_key secret nonce now = do
      keys ← db_do (Vpn.get_vpn_keys auth_user)
      elim keys [
        | some existing ↦ do
          decrypted ←
              crypto_do
                (Cipher.decrypt existing.private_key_encrypted enc_key (f.uuid_bytes auth_user))
          if is_utf8 decrypted
              then lift (ok (decrypted, existing.public_key))
              else lift (err internal_error)
        | none ↦ do
          let (priv_key, pub_key) = generate_keypair secret
          encrypted ← crypto_do (Cipher.encrypt priv_key enc_key (f.uuid_bytes auth_user) nonce)
          db_do (Vpn.store_vpn_keys auth_user pub_key encrypted now)
          lift (ok (priv_key, pub_key))
      ]

    -- The address, the session and the configuration.
    unfoldable pub open_session :
        ℕ → ℕ → VpnServer → Bytes × Bytes → ℕ → ℕ → Run HysjError VpnConnectResponse
    open_session auth_user server_id server (private_key, public_key) id now = do
      session_count ← db_do (Vpn.count_sessions server_id)
      let address = assigned_ip session_count
      session ← db_do (Vpn.create_session auth_user server.id public_key address id now)
      let wg_config : WireGuardConfig = record {
        interface_private_key = private_key;
        interface_address = address;
        dns = lit "1.1.1.1";
        peer_public_key = server.public_key;
        peer_endpoint = server.endpoint;
        allowed_ips = lit "0.0.0.0/0";
      }
      lift (
          ok
            (record { config = to_json wg_config; session_id = session.id; assigned_ip = address }))

    -- `seed` is the server's certificate signing seed.
    unfoldable pub connect :
        ℕ → ℕ → Bytes → Bytes → Bytes → ℕ → ℕ → Run HysjError VpnConnectResponse
    connect auth_user server_id seed secret nonce id now = do
      server ← choose_server server_id
      end_existing auth_user now
      enc_key ← crypto_do (vpn_encryption_key seed)
      keys ← own_keys auth_user enc_key secret nonce now
      open_session auth_user server_id server keys id now
