-- ===== src/Database.antt =====
-- crates/hysj-db: the tables and the statements on them. A table is a list of rows, in the order of
-- insertion; a statement does what its SQL says, with the keys of migrations/001_initial.sql and 002_ux_features.sql. The
-- connection is up: a statement fails only where a constraint or `fetch_one` does.
pub mod Users
pub mod Logins
pub mod Accounts
pub mod Contacts
pub mod Requests
pub mod Devices
pub mod Groups
pub mod Keys
pub mod Bundles
pub mod Select
pub mod Pins
pub mod Vpn
mod Examples
use hysj.Base.{ℕ, Bool, Option, Bytes, List, [], Result, ok, err, panic}

-- The message text is left out.
pub data DbError : Type 0 where
  query_failed not_found conflict : DbError

-- A Uuid is its 128-bit number; a time is counted from some start.
pub record Group : Type 0 where
  pub id : ℕ
  pub name : Bytes
  pub creator_id : ℕ
  pub is_anonymous : Bool
  pub max_members : ℕ
  pub created_at : ℕ

pub record GroupMember : Type 0 where
  pub group_id : ℕ
  pub user_id : ℕ
  pub alias_name : Option Bytes
  pub alias_color : Option Bytes
  pub role : Bytes
  pub joined_at : ℕ

pub record PreKey : Type 0 where
  pub id : ℕ
  pub device_id : ℕ
  pub public_key : Bytes
  pub is_used : Bool
  pub created_at : ℕ

pub record User : Type 0 where
  pub id : ℕ
  pub username : Bytes
  pub phone_number : Bytes
  pub display_name : Option Bytes
  pub password_hash : Bytes
  pub salt : Bytes
  pub identity_public_key : Bytes
  pub identity_dh_public_key : Bytes
  pub totp_secret : Option Bytes
  pub has_2fa_enabled : Bool
  pub created_at : ℕ
  pub last_seen_at : ℕ
  pub avatar_url : Option Bytes
  pub status : Bytes

-- Without its SERIAL key.
pub record LoginAttempt : Type 0 where
  pub ip_address : Bytes
  pub user_id : Option ℕ
  pub success : Bool
  pub attempted_at : ℕ

pub record Contact : Type 0 where
  pub user_id : ℕ
  pub contact_user_id : ℕ
  pub nickname : Option Bytes
  pub is_blocked : Bool
  pub created_at : ℕ

pub record ContactRequest : Type 0 where
  pub id : ℕ
  pub from_user_id : ℕ
  pub to_user_id : ℕ
  pub created_at : ℕ

pub record Device : Type 0 where
  pub id : ℕ
  pub user_id : ℕ
  pub device_name : Bytes
  pub push_token : Option Bytes
  pub signed_pre_key : Bytes
  pub signed_pre_key_sig : Bytes
  pub kyber_public_key : Bytes
  pub is_online : Bool
  pub last_active_at : ℕ
  pub registered_at : ℕ

pub record PinnedMessage : Type 0 where
  pub group_id : ℕ
  pub message_id : Bytes
  pub pinned_by : ℕ
  pub pinned_at : ℕ

pub record VpnServer : Type 0 where
  pub id : ℕ
  pub name : Bytes
  pub country : Bytes
  pub city : Option Bytes
  pub endpoint : Bytes
  pub public_key : Bytes
  pub is_active : Bool
  pub max_connections : ℕ
  pub current_connections : ℕ

pub record UserVpnKey : Type 0 where
  pub user_id : ℕ
  pub public_key : Bytes
  pub private_key_encrypted : Bytes
  pub created_at : ℕ

pub record VpnSession : Type 0 where
  pub id : ℕ
  pub user_id : ℕ
  pub server_id : ℕ
  pub client_public_key : Bytes
  pub assigned_ip : Bytes
  pub started_at : ℕ
  pub ended_at : Option ℕ
  pub bytes_up : ℕ
  pub bytes_down : ℕ

-- The tables that the operations touch. `next_pre_key_id` is the sequence behind
-- the SERIAL key of `pre_keys`.
pub record Db : Type 0 where
  pub users : List User
  pub groups : List Group
  pub group_members : List GroupMember
  pub devices : List Device
  pub pre_keys : List PreKey
  pub next_pre_key_id : ℕ
  pub pinned_messages : List PinnedMessage
  pub vpn_servers : List VpnServer
  pub vpn_sessions : List VpnSession
  pub user_vpn_keys : List UserVpnKey
  pub login_attempts : List LoginAttempt
  pub contacts : List Contact
  pub contact_requests : List ContactRequest

abbrev pub empty_db : Db
empty_db = record {
  users = [];
  groups = [];
  group_members = [];
  devices = [];
  pre_keys = [];
  next_pre_key_id = 1;
  pinned_messages = [];
  vpn_servers = [];
  vpn_sessions = [];
  user_vpn_keys = [];
  login_attempts = [];
  contacts = [];
  contact_requests = [];
}

-- An `async fn` over the pool.
abbrev pub Run : Type 0 → Type 0 → Type 0
Run E A = Db → Db × Result E A

abbrev pub lift : {E A : Type 0} → Result E A → Run E A
lift m db = (db, m)

infixl 5 ◌>>=◌ ◌>>◌
abbrev pub ◌>>=◌ : {E A B : Type 0} → Run E A → (A → Run E B) → Run E B
◌>>=◌ m f db = elim (m db).1 [
  | ok a ↦ f a (m db).0
  | err e ↦ ((m db).0, err e)
  | panic ↦ ((m db).0, panic)
]

abbrev pub ◌>>◌ : {E B : Type 0} → Run E (Unit {0}) → Run E B → Run E B
m >> k = m >>= λ _. k
