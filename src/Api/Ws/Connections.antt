-- ===== src/Api/Ws/Connections.antt =====
-- crates/hysj-api/src/ws/connection_tracker.rs, state.rs and `send_push_notification` of
-- routes/push.rs.
use hysj.Base.{
  ℕ, Bool, true, false, Option, none, some, Bytes, List, [], ◌∷◌, ◌++◌, lit, if◌then◌else◌, Result,
  ok, err, panic,
}
use hysj.Database.{DbError, Device, Db}
use hysj.Database.Devices
use hysj.Messaging.Redis.{Redis, MessagingError}
use hysj.Api.Ws.Messages.{WsMessage}
use hysj.Api.Ws.Sockets.{
  Sockets, HandlerError, db_failed, messaging_failed, push_failed, Push, Wire,
}

-- `posted` is what has gone to the push service.
pub record AppState (C T : Type 0) : Type 0 where
  pub db : Db
  pub redis : C
  pub fcm_server_key : Option Bytes
  pub connections : T
  pub posted : List Push

module _ ⦃r : Redis⦄ ⦃s : Sockets⦄ where
  abbrev pub State : Type 0
  State = AppState r.Conn s.Table

  abbrev pub Run : Type 0 → Type 0
  Run A = State → State × Result HandlerError A

  abbrev pub lift : {A : Type 0} → Result HandlerError A → Run A
  lift m st = (st, m)

  infixl 5 ◌>>=◌ ◌>>◌
  abbrev pub ◌>>=◌ : {A B : Type 0} → Run A → (A → Run B) → Run B
  ◌>>=◌ m f st = elim (m st).1 [
    | ok a ↦ f a (m st).0
    | err e ↦ ((m st).0, err e)
    | panic ↦ ((m st).0, panic)
  ]

  abbrev pub ◌>>◌ : {B : Type 0} → Run (Unit {0}) → Run B → Run B
  m >> k = m >>= λ _. k

  -- `.map_err(|e| e.to_string())?` on a statement and on a Redis operation.
  abbrev pub db_do : {A : Type 0} → (Db → Db × Result DbError A) → Run A
  db_do m st = elim (m st.db).1 [
    | ok a ↦ (record st { db = (m st.db).0 }, ok a)
    | err e ↦ (record st { db = (m st.db).0 }, err (db_failed e))
    | panic ↦ (record st { db = (m st.db).0 }, panic)
  ]

  abbrev pub redis_do : {A : Type 0} → (r.Conn → r.Conn × Result MessagingError A) → Run A
  redis_do m st = elim (m st.redis).1 [
    | ok a ↦ (record st { redis = (m st.redis).0 }, ok a)
    | err e ↦ (record st { redis = (m st.redis).0 }, err (messaging_failed e))
    | panic ↦ (record st { redis = (m st.redis).0 }, panic)
  ]

  -- `let _ = …`, `.unwrap_or_default()` and `.unwrap_or(a)`: an error gives the default.
  abbrev pub or_else : {A : Type 0} → A → Run A → Run A
  or_else default m st = elim (m st).1 [
    | ok a ↦ ((m st).0, ok a)
    | err e ↦ ((m st).0, ok default)
    | panic ↦ ((m st).0, panic)
  ]

  module _ ⦃w : Wire⦄ where
    -- `Ok(())` is true. A connection whose channel is closed is removed.
    unfoldable pub send_to_device : ℕ → WsMessage → s.Table → s.Table × Bool
    send_to_device device_id message t = elim (s.sender device_id t) [
      | none ↦ (t, false)
      | some sender ↦
          let after = s.send sender (w.ws_text message) t in
          if after.1 then (after.0, true) else (s.remove device_id after.0, false)
    ]

    -- The same, on the whole state.
    abbrev pub try_send : ℕ → WsMessage → Run Bool
    try_send device_id message st =
        let after = send_to_device device_id message st.connections in
        (record st { connections = after.0 }, ok after.1)

    unfoldable pub send_to_devices : List Device → WsMessage → Run (Unit {0})
    send_to_devices [] message = lift (ok tt)
    send_to_devices (device ∷ devices) message = do
      sent ← try_send device.id message
      send_to_devices devices message

    unfoldable pub send_to_user_devices : ℕ → WsMessage → Run (Unit {0})
    send_to_user_devices user_id message = do
      devices ← or_else [] (db_do (Devices.list_by_user user_id))
      send_to_devices devices message

    abbrev pub push_key : ℕ → Bytes
    push_key device_id = lit "push:" ++ (w.uuid_text device_id ++ lit ":fcm")

    -- The answer of the push service is only logged.
    unfoldable pub send_push_notification : Bytes → ℕ → Bytes → Bytes → Run (Unit {0})
    send_push_notification fcm_server_key device_id title body = do
      found ← redis_do (r.get (push_key device_id))
      elim found [
        | none ↦ lift (ok tt)
        | some token ↦ λ st.
            let push : Push = record { token = token; title = title; body = body } in
            if w.push_sent fcm_server_key push
            then (record st { posted = st.posted ++ push ∷ [] }, ok tt)
            else (st, err push_failed)
      ]
