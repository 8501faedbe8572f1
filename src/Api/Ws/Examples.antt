-- ===== src/Api/Ws/Examples.antt =====
-- Runs of the model of crates/hysj-api/src/ws with two devices.
use hysj.Base.{
  ℕ, ◌≡◌, refl, true, false, none, some, Bytes, bytes_eq, List, [], ◌∷◌, lit, ◌==◌, if◌then◌else◌,
  ok, arith,
}
use hysj.Database.{Device, GroupMember, empty_db}
use hysj.Database.Groups.{role_of, is_some}
use hysj.Database.Devices.{phone, find_device, mark_online}
use hysj.Messaging.Toy.{Store, toy_redis, wipe_json, wipe_bytes}
use hysj.Messaging.Queue.{message_key, enqueue}
use hysj.Messaging.Queue.Drain.{has}
use hysj.Messaging.Wipe
use hysj.Messaging.Wipe.{WipeRequest, wipe_key, wipe_ttl_seconds}
use hysj.Messaging.Wipe.Laws.{pending_of}
use hysj.Api.Ws.Messages.{EncryptedEnvelope, PinMessage}
use hysj.Api.Ws.Connections.{AppState, send_to_device, send_push_notification}
use hysj.Api.Ws.Handler.{handle_send, enqueue_for, notify, handle_send_group, handle_wipe}
use hysj.Api.Ws.Lifecycle.{register, clean_up, deliver_pending_messages, on_text}
use hysj.Api.Ws.Delivery.{key_of}
use hysj.Api.Ws.Pending.{offline_then_online}
use hysj.Api.Ws.Fanout.{got, handle_send_group-got}
use hysj.Api.Ws.Faults.{clean_up-register, on_text_refused, handle_wipe_device}
use hysj.Api.Ws.Toy.{Channels, toy_sockets, toy_wire, envelope_json, envelope_bytes}

abbrev State : Type 0
State = AppState Store Channels

-- Device 8 is online on channel 0.
abbrev channels : Channels
channels = record {
  senders = λ d. if d == 8 then some 0 else none;
  next = 1;
  opened = λ x. true;
  texts = λ x. lit "old" ∷ [];
}

abbrev member : ℕ → GroupMember
member user = record {
  group_id = 5;
  user_id = user;
  alias_name = none;
  alias_color = none;
  role = lit "member";
  joined_at = 0;
}

-- Device 7 is of user 1 and device 8 of user 2, the members of group 5, where m1 is pinned.
abbrev st : State
st = record {
  db = record empty_db {
    devices = phone 7 1 ∷ phone 8 2 ∷ [];
    group_members = member 1 ∷ member 2 ∷ [];
    pinned_messages =
        record { group_id = 5; message_id = lit "m1"; pinned_by = 1; pinned_at = 0 } ∷ [];
  };
  redis = λ k. none;
  fcm_server_key = some (lit "key");
  connections = channels;
  posted = [];
}

abbrev envelope : ℕ → EncryptedEnvelope
envelope device = record {
  recipient_device_id = device;
  message_id = lit "m1";
  sealed_blob = lit "blob";
  ttl_seconds = none;
  self_destruct_seconds = none;
  reply_to_message_id = none;
  is_forwarded = false;
}

-- SCAN reports the key twice.
abbrev twice : List Bytes
twice = lit "msg:dev:m1" ∷ lit "msg:dev:m1" ∷ []

offline_then_online_example :
    (st1 : State) × (st2 : State) × (st3 : State) × (x : ℕ) × (handle_send (envelope 7) st
      ≡ (st1, ok tt))
    × (register 7 st1 ≡ (st2, ok x))
    × (deliver_pending_messages 1 7 st2 ≡ (st3, ok tt))
    × (has (1 ∷ lit "blob") (st3.connections.texts x) ≡ true)
    × (st3.redis (key_of (envelope 7)) ≡ none)
unfolding handle_send send_to_device enqueue_for enqueue notify send_push_notification message_key
    bytes_eq
offline_then_online_example =
    offline_then_online (envelope 7) 1 (twice ∷ []) st tt (omega arith) (omega arith) refl refl refl
      (omega arith) refl

-- A message waits for device 8.
abbrev waiting : Store
waiting k = if bytes_eq (lit "msg:dev:m1") k then some (envelope_bytes (envelope 7), 60) else none

abbrev st_waiting : State
st_waiting = record st {
  redis = waiting;
  connections = record channels { senders = λ d. if d == 7 then some 0 else none };
}

handle_send_group-got_example :
    (st' : State) × (handle_send_group 3 5 (envelope 0) st ≡ (st', ok tt))
    × (st'.db ≡ st.db)
    × ((device : Device)
        → find_device device.id st.db.devices ≡ some device
        → is_some (role_of 5 device.user_id st.db.group_members) ≡ true
        → (device.user_id == 3) ≡ false
        → got 5 (envelope 0) device.id st'.connections st'.redis ≡ true)
handle_send_group-got_example =
    handle_send_group-got 3 5 (envelope 0) st tt (omega arith) (omega arith)

clean_up-register_example :
    (st1 : State) × (st2 : State) × (st3 : State) × (old : ℕ) × (new : ℕ) × (register 8 st
      ≡ (st1, ok old))
    × (toy_sockets.is_open old st1.connections ≡ true)
    × (register 8 st1 ≡ (st2, ok new))
    × (st2.connections.senders 8 ≡ some new)
    × (toy_sockets.is_open new st2.connections ≡ true)
    × (toy_sockets.is_open old st2.connections ≡ false)
    × (clean_up 8 old 9 st2 ≡ (st3, ok tt))
    × (st3.connections.senders 8 ≡ none)
    × (toy_sockets.is_open new st3.connections ≡ false)
    × (st3.db ≡ record st.db { devices = mark_online 8 false 9 st.db.devices })
    × (on_text 2 8 (lit "what") (lit "w1") 10 st3 ≡ (st3, ok tt))
unfolding bytes_eq
clean_up-register_example = clean_up-register 2 8 9 10 (lit "what") (lit "w1") st refl

abbrev request : PinMessage
request = record { group_id = 5; message_id = lit "m1"; pin = true }

on_text_refused_example :
    (t : Channels) × (on_text 3 8 (lit "pin") (lit "w1") 9 st
      ≡ (record st { connections = t }, ok tt))
    × ((y : ℕ) → t.texts y ≡ (if 0 == y then lit "old" ∷ (3 ∷ lit "no") ∷ [] else lit "old" ∷ []))
unfolding role_of bytes_eq
on_text_refused_example =
    on_text_refused 3 8 0 9 (lit "pin") (lit "w1") request st refl refl refl refl

abbrev wipe_phone : WipeRequest
wipe_phone = record {
  wipe_type = Wipe.device;
  target_device_id = some 7;
  conversation_partner_id = none;
}

handle_wipe_device_example :
    (st' : State) × (handle_wipe 2 8 wipe_phone (lit "w1") 9 st ≡ (st', ok tt))
    × (st'.db ≡ st.db)
    × ((j : Bytes)
        → st'.redis j ≡ (
            if bytes_eq (wipe_key (lit "dev") (lit "w1")) j
            then some (wipe_bytes (pending_of (lit "w1") wipe_phone 9), wipe_ttl_seconds)
            else none))
handle_wipe_device_example = handle_wipe_device 2 8 7 9 none (lit "w1") st tt
