-- ===== src/Api/Ws/Messages.antt =====
-- crates/hysj-shared/src/dto/messages.rs: what goes over a WebSocket.
use hysj.Base.{ℕ, Bool, Option, Bytes}
use hysj.Messaging.Wipe.{WipeRequest, WipeAckDto}

pub record EncryptedEnvelope : Type 0 where
  pub recipient_device_id : ℕ
  pub message_id : Bytes
  pub sealed_blob : Bytes
  pub ttl_seconds : Option ℕ
  pub self_destruct_seconds : Option ℕ
  pub reply_to_message_id : Option Bytes
  pub is_forwarded : Bool

pub record DeliveryAck : Type 0 where
  pub device_id : ℕ
  pub message_id : Bytes

pub record TypingIndicator : Type 0 where
  pub recipient_id : ℕ

pub record ReadReceipt : Type 0 where
  pub sender_id : ℕ
  pub message_id : Bytes

pub record Reaction : Type 0 where
  pub recipient_id : ℕ
  pub message_id : Bytes
  pub emoji : Bytes
  pub add : Bool

pub data CallSignalType : Type 0 where
  offer answer ice_candidate hangup busy : CallSignalType

pub record CallSignal : Type 0 where
  pub peer_id : ℕ
  pub call_id : Bytes
  pub signal_type : CallSignalType
  pub payload : Bytes

pub record SaveInChat : Type 0 where
  pub recipient_id : ℕ
  pub message_id : Bytes
  pub saved : Bool

pub record PinMessage : Type 0 where
  pub group_id : ℕ
  pub message_id : Bytes
  pub pin : Bool

pub data WsMessage : Type 0 where
  send_message : EncryptedEnvelope → WsMessage
  delivered : DeliveryAck → WsMessage
  typing : TypingIndicator → WsMessage
  read_receipt : ReadReceipt → WsMessage
  reaction : Reaction → WsMessage
  save_in_chat : SaveInChat → WsMessage
  call_signal : CallSignal → WsMessage
  pin_message : PinMessage → WsMessage
  send_group_message : ℕ → EncryptedEnvelope → WsMessage
  wipe_command : WipeRequest → WsMessage
  wipe_ack : WipeAckDto → WsMessage
  error_message : Bytes → WsMessage
