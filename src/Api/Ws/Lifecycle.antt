-- ===== src/Api/Ws/Lifecycle.antt =====
-- crates/hysj-api/src/ws/handler.rs: a socket from its registration to its cleanup, with the pending
-- messages that it gets at the start. The clock comes last.
use hysj.Base.{ℕ, true, false, none, some, Bytes, List, [], ◌∷◌, ok, err, panic}
use hysj.Crypto.Primitives.{Json}
use hysj.Database.Devices
use hysj.Messaging.Redis.{Redis}
use hysj.Messaging.Queue
use hysj.Messaging.Queue.{QueuedMessage}
use hysj.Messaging.Wipe
use hysj.Messaging.Wipe.{PendingWipe}
use hysj.Api.Ws.Messages.{EncryptedEnvelope, WsMessage, send_message, wipe_command, error_message}
use hysj.Api.Ws.Sockets.{Sockets, Wire}
use hysj.Api.Ws.Connections.{Run, lift, ◌>>=◌, ◌>>◌, db_do, redis_do, or_else, try_send}
use hysj.Api.Ws.Handler.{handle_ws_message}

module _ ⦃r : Redis⦄ ⦃s : Sockets⦄ ⦃w : Wire⦄ ⦃je : Json EncryptedEnvelope⦄ where
  -- A blob that does not decode goes out as a text, and a failure to send is ignored.
  unfoldable pub send_lossy : ℕ → Bytes → Run (Unit {0})
  send_lossy device_id blob st = elim (s.sender device_id st.connections) [
    | none ↦ (st, ok tt)
    | some sender ↦ (
      record st { connections = (s.send sender (w.from_utf8_lossy blob) st.connections).0 },
      ok tt,
    )
  ]

  unfoldable pub deliver_one : ℕ → Bytes → Run (Unit {0})
  deliver_one device_id blob = elim (je.from_slice blob) [
    | none ↦ send_lossy device_id blob
    | some envelope ↦ do sent ← try_send device_id (send_message envelope); lift (ok tt)
  ]

  unfoldable pub deliver_all : ℕ → List QueuedMessage → Run (Unit {0})
  deliver_all device_id [] = lift (ok tt)
  deliver_all device_id (queued ∷ rest) = do
    deliver_one device_id queued.encrypted_blob
    deliver_all device_id rest

  -- The rounds bound the walk over SCAN. An error is logged.
  unfoldable pub deliver_pending_messages : ℕ → ℕ → Run (Unit {0})
  deliver_pending_messages rounds device_id = or_else tt (do
    messages ← redis_do (Queue.dequeue_all rounds (w.uuid_text device_id))
    deliver_all device_id messages)

  unfoldable pub deliver_wipes : ℕ → List PendingWipe → Run (Unit {0})
  deliver_wipes device_id [] = lift (ok tt)
  deliver_wipes device_id (wipe ∷ rest) = do
    sent ← try_send device_id (wipe_command wipe.command)
    deliver_wipes device_id rest

  unfoldable pub send_to_self : ℕ → WsMessage → Run (Unit {0})
  send_to_self device_id message = do sent ← try_send device_id message; lift (ok tt)

  -- The new channel and its registration.
  unfoldable pub register : ℕ → Run ℕ
  register device_id st =
      let (table, sender) = s.unbounded_channel st.connections in
      (record st { connections = s.insert device_id sender table }, ok sender)

  -- The cleanup. The sink task, which owns the receiver of the socket's own channel, is aborted.
  unfoldable pub clean_up : ℕ → ℕ → ℕ → Run (Unit {0})
  clean_up device_id channel now = do
    (λ st. (record st { connections = s.close channel (s.remove device_id st.connections) }, ok tt))
    or_else tt (db_do (Devices.set_online device_id false now))

  module _ ⦃jw : Json PendingWipe⦄ where
    unfoldable pub deliver_pending_wipes : ℕ → ℕ → Run (Unit {0})
    deliver_pending_wipes rounds device_id = or_else tt (do
      wipes ← redis_do (Wipe.get_pending_wipes rounds (w.uuid_text device_id))
      deliver_wipes device_id wipes)

    -- `handle_socket` up to its loop, with the channel of the socket.
    unfoldable pub connect : ℕ → ℕ → ℕ → Run ℕ
    connect rounds device_id now = do
      channel ← register device_id
      or_else tt (db_do (Devices.set_online device_id true now))
      deliver_pending_messages rounds device_id
      deliver_pending_wipes rounds device_id
      lift (ok channel)

    -- One text of the loop: what goes wrong is told to the device itself.
    unfoldable pub on_text : ℕ → ℕ → Bytes → Bytes → ℕ → Run (Unit {0})
    on_text user_id device_id text new_id now = elim (w.ws_parse text) [
      | none ↦ send_to_self device_id (error_message (w.format_error text))
      | some message ↦ λ st.
          let after = handle_ws_message user_id device_id message new_id now st in
          elim after.1 [
            | ok u ↦ (after.0, ok tt)
            | err e ↦ send_to_self device_id (error_message (w.error_text e)) after.0
            | panic ↦ (after.0, panic)
          ]
    ]
