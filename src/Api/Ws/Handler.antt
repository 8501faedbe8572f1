-- ===== src/Api/Ws/Handler.antt =====
-- crates/hysj-api/src/ws/handler.rs: `handle_ws_message`, one function for each kind of message. The
-- authenticated user comes first; the new id of a wipe and the clock come last.
use hysj.Base.{
  ℕ, false, not, none, some, Bytes, List, [], ◌∷◌, ◌++◌, map, lit, ◌==◌, if◌then◌else◌, ok, err,
}
use hysj.Crypto.Primitives.{Json}
use hysj.Database.{Device, GroupMember}
use hysj.Database.Devices
use hysj.Database.Groups
use hysj.Database.Pins
use hysj.Messaging.Redis.{Redis}
use hysj.Messaging.Queue
use hysj.Messaging.Wipe
use hysj.Messaging.Wipe.{WipeRequest, WipeAckDto, PendingWipe}
use hysj.Api.Ws.Messages.{
  EncryptedEnvelope, DeliveryAck, PinMessage, WsMessage, send_message, delivered, typing,
  read_receipt, reaction, save_in_chat, call_signal, pin_message, send_group_message, wipe_command,
  wipe_ack, error_message,
}
use hysj.Api.Ws.Sockets.{Sockets, Wire, not_a_member}
use hysj.Api.Ws.Connections.{
  Run, lift, ◌>>=◌, ◌>>◌, db_do, redis_do, or_else, try_send, send_to_devices, send_to_user_devices,
  send_push_notification,
}

-- 72 * 60 * 60
abbrev pub message_ttl_seconds : ℕ
message_ttl_seconds = 259200

abbrev pub ttl_of : EncryptedEnvelope → ℕ
ttl_of envelope = elim envelope.ttl_seconds [ some t ↦ t | none ↦ message_ttl_seconds ]

-- The members other than the sender.
unfoldable pub other_members : ℕ → List GroupMember → List ℕ
other_members user_id [] = []
other_members user_id (m ∷ ms) =
    let rest = other_members user_id ms in if m.user_id == user_id then rest else m.user_id ∷ rest

unfoldable pub ids_of : List Device → List ℕ
ids_of [] = []
ids_of (d ∷ ds) = d.id ∷ ids_of ds

module _ ⦃r : Redis⦄ ⦃s : Sockets⦄ ⦃w : Wire⦄ ⦃je : Json EncryptedEnvelope⦄ where
  unfoldable pub notify : ℕ → Run (Unit {0})
  notify device_id st = elim st.fcm_server_key [
    | none ↦ (st, ok tt)
    | some key ↦
        or_else tt (send_push_notification key device_id (lit "Hysj") (lit "New message")) st
  ]

  unfoldable pub enqueue_for : ℕ → EncryptedEnvelope → Run (Unit {0})
  enqueue_for device_id envelope = redis_do (
      Queue.enqueue (w.uuid_text device_id) envelope.message_id (je.to_vec envelope)
        (ttl_of envelope))

  unfoldable pub handle_send : EncryptedEnvelope → Run (Unit {0})
  handle_send envelope = do
    sent ← try_send envelope.recipient_device_id (send_message envelope)
    if sent then lift (ok tt) else do
      enqueue_for envelope.recipient_device_id envelope
      notify envelope.recipient_device_id

  -- The loop over the devices of the members.
  unfoldable pub send_to_members : ℕ → EncryptedEnvelope → List Device → Run (Unit {0})
  send_to_members group_id envelope [] = lift (ok tt)
  send_to_members group_id envelope (device ∷ devices) = do
    sent ← try_send device.id (send_group_message group_id envelope)
    if sent then lift (ok tt) else or_else tt (enqueue_for device.id envelope)
    send_to_members group_id envelope devices

  unfoldable pub handle_send_group : ℕ → ℕ → EncryptedEnvelope → Run (Unit {0})
  handle_send_group user_id group_id envelope = do
    members ← db_do (Groups.get_members group_id)
    devices ← or_else [] (db_do (Devices.list_by_users (other_members user_id members)))
    send_to_members group_id envelope devices

  unfoldable pub handle_delivered : DeliveryAck → Run (Unit {0})
  handle_delivered ack = do
    deleted ← redis_do (Queue.delete_message (w.uuid_text ack.device_id) ack.message_id)
    lift (ok tt)

  -- `list_by_user(…).await.unwrap_or_default()`, as ids.
  unfoldable pub device_ids : ℕ → Run (List ℕ)
  device_ids user_id = do
    devices ← or_else [] (db_do (Devices.list_by_user user_id))
    lift (ok (ids_of devices))

  unfoldable pub wipe_targets : ℕ → WipeRequest → Run (List ℕ)
  wipe_targets user_id wipe_req = elim wipe_req.wipe_type [
    | Wipe.all ↦ device_ids user_id
    | Wipe.device ↦ elim wipe_req.target_device_id [
      | none ↦ lift (ok [])
      | some id ↦ lift (ok (id ∷ []))
    ]
    | Wipe.conversation ↦ do
      partners ← elim wipe_req.conversation_partner_id [
        | none ↦ lift (ok [])
        | some partner_id ↦ device_ids partner_id
      ]
      own ← device_ids user_id
      lift (ok (partners ++ own))
  ]

  -- The loop that forwards the command to the other devices.
  unfoldable pub forward_wipe : ℕ → WipeRequest → List ℕ → Run (Unit {0})
  forward_wipe sender_device_id wipe_req [] = lift (ok tt)
  forward_wipe sender_device_id wipe_req (did ∷ rest) = do
    sent ← if did == sender_device_id then lift (ok false) else try_send did (wipe_command wipe_req)
    forward_wipe sender_device_id wipe_req rest

  unfoldable pub handle_wipe_ack : WipeAckDto → Run (Unit {0})
  handle_wipe_ack ack = do
    confirmed ← redis_do (Wipe.confirm_wipe (w.uuid_text ack.device_id) ack.wipe_id)
    lift (ok tt)

  unfoldable pub pin_or_unpin : ℕ → PinMessage → ℕ → Run (Unit {0})
  pin_or_unpin user_id request now =
      if not request.pin then db_do (Pins.unpin request.group_id request.message_id) else do
        pinned ← db_do (Pins.pin request.group_id request.message_id user_id now)
        lift (ok tt)

  unfoldable pub handle_pin : ℕ → PinMessage → ℕ → Run (Unit {0})
  handle_pin user_id request now = do
    is_member ← or_else false (db_do (Groups.is_member request.group_id user_id))
    if is_member then lift (ok tt) else lift (err not_a_member)
    pin_or_unpin user_id request now
    members ← or_else [] (db_do (Groups.get_members request.group_id))
    devices ← or_else [] (db_do (Devices.list_by_users (other_members user_id members)))
    send_to_devices devices (pin_message request)

  module _ ⦃jw : Json PendingWipe⦄ where
    unfoldable pub handle_wipe : ℕ → ℕ → WipeRequest → Bytes → ℕ → Run (Unit {0})
    handle_wipe user_id sender_device_id wipe_req wipe_id now = do
      targets ← wipe_targets user_id wipe_req
      id ← redis_do (Wipe.issue_wipe (map w.uuid_text targets) wipe_req wipe_id now)
      forward_wipe sender_device_id wipe_req targets

    unfoldable pub handle_ws_message : ℕ → ℕ → WsMessage → Bytes → ℕ → Run (Unit {0})
    handle_ws_message user_id device_id (send_message envelope) new_id now = handle_send envelope
    handle_ws_message user_id device_id (send_group_message group_id envelope) new_id now =
        handle_send_group user_id group_id envelope
    handle_ws_message user_id device_id (delivered ack) new_id now = handle_delivered ack
    handle_ws_message user_id device_id (typing m) new_id now =
        send_to_user_devices m.recipient_id (typing m)
    handle_ws_message user_id device_id (read_receipt m) new_id now =
        send_to_user_devices m.sender_id (read_receipt m)
    handle_ws_message user_id device_id (wipe_command wipe_req) new_id now =
        handle_wipe user_id device_id wipe_req new_id now
    handle_ws_message user_id device_id (wipe_ack ack) new_id now = handle_wipe_ack ack
    handle_ws_message user_id device_id (save_in_chat m) new_id now =
        send_to_user_devices m.recipient_id (save_in_chat m)
    handle_ws_message user_id device_id (reaction m) new_id now =
        send_to_user_devices m.recipient_id (reaction m)
    handle_ws_message user_id device_id (call_signal m) new_id now =
        send_to_user_devices m.peer_id (call_signal m)
    handle_ws_message user_id device_id (pin_message request) new_id now =
        handle_pin user_id request now
    handle_ws_message user_id device_id (error_message m) new_id now = lift (ok tt)
