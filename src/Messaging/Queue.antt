-- ===== src/Messaging/Queue.antt =====
-- crates/hysj-messaging/src/queue.rs: the queue of encrypted messages for a device. A Uuid stands for
-- its text.
pub mod Laws
pub mod Drain
pub mod Delivery
pub mod Count
use hysj.Base.{
  ℕ, zero, suc, Bool, true, false, Option, none, some, Bytes, List, [], ◌∷◌, ◌++◌, ◌+◌, length, lit,
  ltb, ◌==◌, if◌then◌else◌, ok, panic,
}
use hysj.Messaging.Redis.{Redis, MessagingError, Run, lift, ◌>>=◌, ◌>>◌}

-- format!("msg:{}:{}", device_id, message_id)
unfoldable pub message_key : Bytes → Bytes → Bytes
message_key device_id message_id = lit "msg:" ++ (device_id ++ (lit ":" ++ message_id))

pub record QueuedMessage : Type 0 where
  pub message_id : Bytes
  pub encrypted_blob : Bytes

-- `strip_prefix`
unfoldable pub strip_prefix : Bytes → Bytes → Option Bytes
strip_prefix [] key = some key
strip_prefix (p ∷ prefix) [] = none
strip_prefix (p ∷ prefix) (k ∷ key) = if p == k then strip_prefix prefix key else none

-- `.strip_prefix(&prefix).unwrap_or(key)`
abbrev pub id_of : Bytes → Bytes → Bytes
id_of prefix key = elim (strip_prefix prefix key) [ some id ↦ id | none ↦ key ]

module _ ⦃r : Redis⦄ where
  unfoldable pub enqueue : Bytes → Bytes → Bytes → ℕ → Run (Unit {0})
  enqueue recipient_device_id message_id encrypted_blob ttl_seconds = do
    let key = message_key recipient_device_id message_id
    exists ← r.exists key
    if exists then lift (ok tt) else r.set_ex key encrypted_blob ttl_seconds

  unfoldable pub delete_message : Bytes → Bytes → Run Bool
  delete_message device_id message_id = do
    deleted ← r.del (message_key device_id message_id)
    lift (ok (ltb 0 deleted))

  -- The messages of one page of keys, each deleted when it has been read.
  unfoldable pub dequeue_keys : Bytes → List Bytes → Run (List QueuedMessage)
  dequeue_keys prefix [] = lift (ok [])
  dequeue_keys prefix (key ∷ keys) = do
    blob ← r.get key
    elim blob [
      | none ↦ dequeue_keys prefix keys
      | some bytes ↦ do
        deleted ← r.del key
        rest ← dequeue_keys prefix keys
        let message : QueuedMessage = record {
          message_id = id_of prefix key;
          encrypted_blob = bytes;
        }
        lift (ok (message ∷ rest))
    ]

  -- One round for each page. Without a round left, which the source has no bound on, it panics.
  unfoldable pub dequeue_rounds : ℕ → Bytes → ℕ → Run (List QueuedMessage)
  dequeue_rounds zero device_id cursor = lift panic
  dequeue_rounds (suc rounds) device_id cursor = do
    (next_cursor, keys) ← r.scan cursor (message_key device_id (lit "*")) 100
    page ← dequeue_keys (message_key device_id []) keys
    elim (next_cursor == 0) [
      | true ↦ lift (ok page)
      | false ↦ do rest ← dequeue_rounds rounds device_id next_cursor; lift (ok (page ++ rest))
    ]

  unfoldable pub dequeue_all : ℕ → Bytes → Run (List QueuedMessage)
  dequeue_all rounds device_id = dequeue_rounds rounds device_id 0

  unfoldable pub count_rounds : ℕ → Bytes → ℕ → ℕ → Run ℕ
  count_rounds zero device_id cursor count = lift panic
  count_rounds (suc rounds) device_id cursor count = do
    (next_cursor, keys) ← r.scan cursor (message_key device_id (lit "*")) 100
    elim (next_cursor == 0) [
      | true ↦ lift (ok (count + length keys))
      | false ↦ count_rounds rounds device_id next_cursor (count + length keys)
    ]

  unfoldable pub count_pending : ℕ → Bytes → Run ℕ
  count_pending rounds device_id = count_rounds rounds device_id 0 0
