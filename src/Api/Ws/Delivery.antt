-- ===== src/Api/Ws/Delivery.antt =====
-- crates/hysj-api/src/ws: what becomes of a message that one device sends to another.
use hysj.Base.{
  ℕ, ◌≤◌, ◌≡◌, refl, subst, Bool, true, false, none, some, Bytes, bytes_eq, bytes_eq_refl, List, [],
  ◌∷◌, ◌++◌, lit, ◌==◌, ==_refl, if◌then◌else◌, ok, Bool-cases, Option-cases, inl, inr, arith,
}
use hysj.Crypto.Primitives.{Json}
use hysj.Messaging.Redis.{Redis, max_ttl}
use hysj.Messaging.Queue.{message_key, enqueue}
use hysj.Api.Ws.Messages.{EncryptedEnvelope, WsMessage, send_message}
use hysj.Api.Ws.Sockets.{Sockets, Wire, Push}
use hysj.Api.Ws.Connections.{State, send_to_device, send_push_notification, push_key}
use hysj.Api.Ws.Handler.{ttl_of, handle_send, enqueue_for, notify}

module _ ⦃r : Redis⦄ ⦃s : Sockets⦄ ⦃w : Wire⦄ where
  -- The device has a connection whose channel is open.
  abbrev pub reaches : ℕ → s.Table → Bool
  reaches d t = elim (s.sender d t) [ none ↦ false | some x ↦ s.is_open x t ]

  -- A channel stays open when its sender is inserted.
  pub is_open_new :
      (d x : ℕ) (t : s.Table) → s.is_open x t ≡ true → s.is_open x (s.insert d x t) ≡ true
  is_open_new d x t o = ground (arith, s.is_open-insert d x x t, ==_refl x)

  -- A device with an open connection gets the text there, after what it has, and nothing else changes.
  pub send_to_device-open :
      (d x : ℕ) (m : WsMessage) (t : s.Table)
      → s.sender d t ≡ some x
      → s.is_open x t ≡ true
      → (t' : s.Table) × (send_to_device d m t ≡ (t', true))
        × ((e : ℕ) → s.sender e t' ≡ s.sender e t)
        × ((y : ℕ) → s.is_open y t' ≡ s.is_open y t)
        × ((y : ℕ) → s.sent y t' ≡ (if x == y then s.sent y t ++ w.ws_text m ∷ [] else s.sent y t))
  unfolding send_to_device
  send_to_device-open d x m t e o =
      let (t', p, q, i, l) = s.send-open x (w.ws_text m) t o in (t', ground arith, q, i, l)

  -- A device without one gets nothing, and its stale connection goes.
  pub send_to_device-closed :
      (d : ℕ) (m : WsMessage) (t : s.Table)
      → reaches d t ≡ false
      → (t' : s.Table) × (send_to_device d m t ≡ (t', false))
        × ((e : ℕ) → s.sender e t' ≡ (if d == e then none else s.sender e t))
        × ((y : ℕ) → s.is_open y t' ≡ s.is_open y t)
        × ((y : ℕ) → s.sent y t' ≡ s.sent y t)
  unfolding send_to_device
  send_to_device-closed d m t h = elim (Option-cases (s.sender d t)) [
    | inl e ↦ (t, ground arith, (λ x. ground arith), (λ y. refl), λ y. refl)
    | inr (x, e) ↦
        let o : s.is_open x t ≡ false = ground arith in
        (
          s.remove d t,
          ground (arith, s.send-closed x (w.ws_text m) t o),
          (λ y. s.sender-remove d y t),
          (λ y. elim (Bool-cases (x == y)) [
            | inl b ↦
                let same : x ≡ y = ground arith in
                let shut : s.is_open y t ≡ false = subst (λ z. s.is_open z t ≡ false) same o in
                ground (arith, s.is_open-remove d y t)
            | inr b ↦ ground (arith, s.is_open-remove d y t)
          ]),
          λ y. s.sent-remove d y t,
        )
  ]

  module _ ⦃je : Json EncryptedEnvelope⦄ where
    abbrev pub key_of : EncryptedEnvelope → Bytes
    key_of e = message_key (w.uuid_text e.recipient_device_id) e.message_id

    -- A message to a device with an open connection is sent there, once, after the texts that the
    -- connection already has; the queue, the database and every other connection stay as they are.
    pub handle_send-online :
        (envelope : EncryptedEnvelope) (x : ℕ) (st : State)
        → s.sender envelope.recipient_device_id st.connections ≡ some x
        → s.is_open x st.connections ≡ true
        → (t : s.Table) × (handle_send envelope st ≡ (record st { connections = t }, ok tt))
          × ((e : ℕ) → s.sender e t ≡ s.sender e st.connections)
          × ((y : ℕ)
              → s.sent y t ≡ (
                  if x == y
                  then s.sent y st.connections ++ w.ws_text (send_message envelope) ∷ []
                  else s.sent y st.connections))
    unfolding handle_send
    handle_send-online envelope x st e o =
        let (t, p, q, i, l) =
          send_to_device-open envelope.recipient_device_id x (send_message envelope) st.connections
            e o in
        (t, ground arith, q, l)

    notify-posted :
        (d : ℕ) (st : State)
        → r.IsUp st.redis
        → (p : List Push) × (notify d st ≡ (record st { posted = p }, ok tt))
    unfolding notify send_push_notification
    notify-posted d st u = elim (Option-cases st.fcm_server_key) [
      | inl e ↦ (st.posted, ground arith)
      | inr (key, e) ↦ elim (Option-cases (r.stored (push_key d) st.redis)) [
        | inl o ↦ (st.posted, ground (arith, r.get-stored (push_key d) st.redis u))
        | inr ((token, ttl), o) ↦
            let push : Push = record {
              token = token;
              title = lit "Hysj";
              body = lit "New message";
            } in
            elim (Bool-cases (w.push_sent key push)) [
              | inl b ↦
                  (st.posted ++ push ∷ [], ground (arith, r.get-stored (push_key d) st.redis u))
              | inr b ↦ (st.posted, ground (arith, r.get-stored (push_key d) st.redis u))
            ]
      ]
    ]

    -- A message to a device without an open connection, with Redis up, an expiry in Redis's range and
    -- its id not queued yet for that device: it is queued as it is, with its expiry (72 hours if it
    -- names none), no other key of the queue changes, no connection gets anything, and the stale
    -- connection of the device, if it has one, is gone.
    pub handle_send-offline :
        (envelope : EncryptedEnvelope) (st : State)
        → r.IsUp st.redis
        → 1 ≤ ttl_of envelope
        → ttl_of envelope ≤ max_ttl
        → r.stored (key_of envelope) st.redis ≡ none
        → reaches envelope.recipient_device_id st.connections ≡ false
        → (st' : State) × (handle_send envelope st ≡ (st', ok tt))
          × (st'.db ≡ st.db)
          × r.IsUp st'.redis
          × (r.stored (key_of envelope) st'.redis ≡ some (je.to_vec envelope, ttl_of envelope))
          × ((j : Bytes)
              → bytes_eq (key_of envelope) j ≡ false
              → r.stored j st'.redis ≡ r.stored j st.redis)
          × ((y : ℕ) → s.sent y st'.connections ≡ s.sent y st.connections)
          × ((e : ℕ)
              → s.sender e st'.connections
                ≡ (if envelope.recipient_device_id == e then none else s.sender e st.connections))
    unfolding handle_send enqueue_for enqueue
    handle_send-offline envelope st u l m n h =
        let d = envelope.recipient_device_id in
        let k = key_of envelope in
        let (t, p, q, i, v) = send_to_device-closed d (send_message envelope) st.connections h in
        let (c, e, u', f) =
          r.set_ex-stored k (je.to_vec envelope) (ttl_of envelope) st.redis u l m in
        let st1 : State = record st { connections = t; redis = c } in
        let (ps, b) = notify-posted d st1 u' in
        (
          record st1 { posted = ps },
          ground (arith, r.exists-stored k st.redis u),
          refl,
          u',
          ground (arith, f k, bytes_eq_refl k),
          (λ j g. ground (arith, f j)),
          v,
          q,
        )
