-- ===== src/Api/Ws/Sockets.antt =====
-- What the WebSocket handler takes from third-party crates, as parameters: the map of connections
-- (dashmap) with the channels behind its senders (tokio), the texts of serde_json and uuid, and the
-- push service.
use hysj.Base.{
  ℕ, ◌≡◌, Bool, true, false, not, ◌&&◌, Option, none, some, Bytes, List, [], ◌∷◌, ◌++◌, ◌==◌,
  if◌then◌else◌,
}
use hysj.Database.{DbError}
use hysj.Messaging.Redis.{MessagingError}
use hysj.Api.Ws.Messages.{WsMessage}

-- The entry is the sender of channel `y`.
abbrev pub holds : ℕ → Option ℕ → Bool
holds y none = false
holds y (some x) = x == y

-- A sender is the number of its channel. It is never cloned, so the map has the only one once it is
-- inserted, and drops it when the entry goes or is replaced.
pub record Sockets : Type 1 where
  pub Table : Type 0
  -- DashMap: get, insert, remove.
  pub sender : ℕ → Table → Option ℕ
  pub insert : ℕ → ℕ → Table → Table
  pub remove : ℕ → Table → Table
  -- mpsc: unbounded_channel(), send(text), and the end of the receiver.
  pub unbounded_channel : Table → Table × ℕ
  pub send : ℕ → Bytes → Table → Table × Bool
  pub close : ℕ → Table → Table
  -- Whether both ends are there, and the texts that the channel has taken. Without its sender a channel
  -- gives its receiver None once its texts are read, which ends the sink task of handler.rs.
  pub is_open : ℕ → Table → Bool
  pub sent : ℕ → Table → List Bytes
  pub sender-insert :
      (d x e : ℕ) (t : Table) → sender e (insert d x t) ≡ (if d == e then some x else sender e t)
  pub is_open-insert :
      (d x y : ℕ) (t : Table)
      → is_open y (insert d x t)
        ≡ (if holds y (sender d t) && not (x == y) then false else is_open y t)
  pub sent-insert : (d x y : ℕ) (t : Table) → sent y (insert d x t) ≡ sent y t
  pub sender-remove :
      (d e : ℕ) (t : Table) → sender e (remove d t) ≡ (if d == e then none else sender e t)
  pub is_open-remove :
      (d y : ℕ) (t : Table)
      → is_open y (remove d t) ≡ (if holds y (sender d t) then false else is_open y t)
  pub sent-remove : (d y : ℕ) (t : Table) → sent y (remove d t) ≡ sent y t
  pub unbounded_channel-new :
      (t : Table)
      → (t' : Table) × (x : ℕ) × (unbounded_channel t ≡ (t', x))
        × (is_open x t ≡ false)
        × (is_open x t' ≡ true)
        × (sent x t' ≡ [])
        × ((e : ℕ) → sender e t' ≡ sender e t)
        × ((y : ℕ) → (x == y) ≡ false → (is_open y t' ≡ is_open y t) × (sent y t' ≡ sent y t))
  pub send-open :
      (x : ℕ) (text : Bytes) (t : Table)
      → is_open x t ≡ true
      → (t' : Table) × (send x text t ≡ (t', true))
        × ((e : ℕ) → sender e t' ≡ sender e t)
        × ((y : ℕ) → is_open y t' ≡ is_open y t)
        × ((y : ℕ) → sent y t' ≡ (if x == y then sent y t ++ text ∷ [] else sent y t))
  pub send-closed :
      (x : ℕ) (text : Bytes) (t : Table) → is_open x t ≡ false → send x text t ≡ (t, false)
  pub sender-close : (x e : ℕ) (t : Table) → sender e (close x t) ≡ sender e t
  pub is_open-close :
      (x y : ℕ) (t : Table) → is_open y (close x t) ≡ (if x == y then false else is_open y t)
  pub sent-close : (x y : ℕ) (t : Table) → sent y (close x t) ≡ sent y t

-- The errors of `handle_ws_message`, which are texts in the source.
pub data HandlerError : Type 0 where
  db_failed : DbError → HandlerError
  messaging_failed : MessagingError → HandlerError
  not_a_member push_failed : HandlerError

-- The request to the push service.
pub record Push : Type 0 where
  pub token : Bytes
  pub title : Bytes
  pub body : Bytes

pub record Wire : Type 0 where
  -- serde_json::to_string and from_str
  pub ws_text : WsMessage → Bytes
  pub ws_parse : Bytes → Option WsMessage
  -- String::from_utf8_lossy
  pub from_utf8_lossy : Bytes → Bytes
  -- Display of a Uuid and of an error
  pub uuid_text : ℕ → Bytes
  pub error_text : HandlerError → Bytes
  pub format_error : Bytes → Bytes
  -- Whether the request, under the server key, is sent without an error.
  pub push_sent : Bytes → Push → Bool
