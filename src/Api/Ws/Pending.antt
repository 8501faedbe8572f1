-- ===== src/Api/Ws/Pending.antt =====
-- crates/hysj-api/src/ws/handler.rs: the messages that waited for a device reach it when it connects.
use hysj.Base.{
  ℕ, ◌≤◌, ◌≡◌, refl, sym, ap, subst, ◌∙◌, true, false, none, some, Bytes, bytes_eq_refl, List, [],
  ◌∷◌, ◌++◌, length, ◌==◌, ==_refl, if◌then◌else◌, ok, Option-cases, inl, inr, arith,
}
use hysj.Crypto.Primitives.{Json}
use hysj.Messaging.Redis.{Redis, max_ttl}
use hysj.Messaging.Queue.{QueuedMessage, message_key}
use hysj.Messaging.Queue.Drain.{has, has-append, flatten, collect, IsIteration, dequeue_all-run}
use hysj.Messaging.Queue.Delivery.{Returns, Returns-collect}
use hysj.Api.Ws.Messages.{EncryptedEnvelope, send_message}
use hysj.Api.Ws.Sockets.{Sockets, Wire}
use hysj.Api.Ws.Connections.{State}
use hysj.Api.Ws.Handler.{ttl_of, handle_send}
use hysj.Api.Ws.Lifecycle.{deliver_one, deliver_all, send_lossy, deliver_pending_messages, register}
use hysj.Api.Ws.Delivery.{reaches, send_to_device-open, is_open_new, key_of, handle_send-offline}

append_assoc : (xs ys zs : List Bytes) → (xs ++ ys) ++ zs ≡ xs ++ (ys ++ zs)
append_assoc [] ys zs = refl
append_assoc (x ∷ xs) ys zs = ap (◌∷◌ x) (append_assoc xs ys zs)

append_nil : (xs : List Bytes) → xs ++ [] ≡ xs
append_nil [] = refl
append_nil (x ∷ xs) = ap (◌∷◌ x) (append_nil xs)

module _ ⦃r : Redis⦄ ⦃s : Sockets⦄ ⦃w : Wire⦄ ⦃je : Json EncryptedEnvelope⦄ where
  -- What a queued blob becomes on the wire.
  abbrev pub text_of : Bytes → Bytes
  text_of blob = elim (je.from_slice blob) [
    | none ↦ w.from_utf8_lossy blob
    | some envelope ↦ w.ws_text (send_message envelope)
  ]

  abbrev pub texts_of : List QueuedMessage → List Bytes
  texts_of [] = []
  texts_of (m ∷ ms) = text_of m.encrypted_blob ∷ texts_of ms

  -- The device's connection, which stays, has taken `texts`.
  abbrev Took : ℕ → ℕ → List Bytes → s.Table → s.Table → Type 0
  Took d x texts t t' =
      (s.sender d t' ≡ some x)
      × (s.is_open x t' ≡ true)
      × (s.sent x t' ≡ s.sent x t ++ texts)
      × ((y : ℕ) → (x == y) ≡ false → s.sent y t' ≡ s.sent y t)

  deliver_one-Took :
      (d x : ℕ) (blob : Bytes) (st : State)
      → s.sender d st.connections ≡ some x
      → s.is_open x st.connections ≡ true
      → (t : s.Table) × (deliver_one d blob st ≡ (record st { connections = t }, ok tt))
        × Took d x (text_of blob ∷ []) st.connections t
  unfolding deliver_one send_lossy
  deliver_one-Took d x blob st e o = elim (Option-cases (je.from_slice blob)) [
    | inl n ↦
        let (t, p, q, i, l) = s.send-open x (w.from_utf8_lossy blob) st.connections o in
        (
          t,
          ground arith,
          (
            ground (arith, q d),
            ground (arith, i x),
            ground (arith, l x, ==_refl x),
            λ y n. ground (arith, l y),
          ),
        )
    | inr (m, n) ↦
        let (t, p, q, i, l) = send_to_device-open d x (send_message m) st.connections e o in
        (
          t,
          ground arith,
          (
            ground (arith, q d),
            ground (arith, i x),
            ground (arith, l x, ==_refl x),
            λ y n. ground (arith, l y),
          ),
        )
  ]

  deliver_all-Took :
      (d x : ℕ) (ms : List QueuedMessage) (st : State)
      → s.sender d st.connections ≡ some x
      → s.is_open x st.connections ≡ true
      → (t : s.Table) × (deliver_all d ms st ≡ (record st { connections = t }, ok tt))
        × Took d x (texts_of ms) st.connections t
  unfolding deliver_all
  deliver_all-Took d x [] st e o =
      (st.connections, refl, (e, o, sym (append_nil (s.sent x st.connections)), λ y n. refl))
  deliver_all-Took d x (m ∷ ms) st e o =
      let (t1, p1, (e1, o1, s1, l1)) = deliver_one-Took d x m.encrypted_blob st e o in
      let (t, p, (e', o', s', l')) =
        deliver_all-Took d x ms (record st { connections = t1 }) e1 o1 in
      (
        t,
        ground arith,
        (
          e',
          o',
          s'
              ∙ ap (λ z. z ++ texts_of ms) s1
              ∙ append_assoc (s.sent x st.connections) (text_of m.encrypted_blob ∷ [])
                  (texts_of ms),
          λ y n. ground (arith, l1 y n, l' y n),
        ),
      )

  -- With Redis up and as many rounds as SCAN hands out pages, a device with an open connection gets
  -- every message that is stored under the keys of the pages there, in their order and each once,
  -- after the texts that the connection already has; those keys, and no others, leave the queue, and
  -- no other connection gets anything.
  deliver_pending_messages-sent :
      (d x rounds : ℕ) (pages : List (List Bytes)) (st : State)
      → s.sender d st.connections ≡ some x
      → s.is_open x st.connections ≡ true
      → r.IsUp st.redis
      → IsIteration (w.uuid_text d) 0 st.redis pages
      → length pages ≤ rounds
      → (st' : State) × (deliver_pending_messages rounds d st ≡ (st', ok tt))
        × (s.sent x st'.connections
            ≡ s.sent x st.connections
              ++ texts_of (collect (message_key (w.uuid_text d) []) st.redis [] (flatten pages)))
        × ((y : ℕ) → (x == y) ≡ false → s.sent y st'.connections ≡ s.sent y st.connections)
        × ((j : Bytes)
            → r.stored j st'.redis ≡ (if has j (flatten pages) then none else r.stored j st.redis))
  unfolding deliver_pending_messages
  deliver_pending_messages-sent d x rounds pages st e o u i f =
      let (c, a, v, l) = dequeue_all-run (w.uuid_text d) rounds pages st.redis u i f in
      let ms = collect (message_key (w.uuid_text d) []) st.redis [] (flatten pages) in
      let (t, p, (e', o', s', l')) = deliver_all-Took d x ms (record st { redis = c }) e o in
      (record st { redis = c; connections = t }, ground arith, s', l', l)

  has-texts_of :
      (m : QueuedMessage) (ms : List QueuedMessage)
      → Returns m ms
      → has (text_of m.encrypted_blob) (texts_of ms) ≡ true
  has-texts_of m [] h = absurd h
  has-texts_of m (n ∷ ms) (inl e) =
      subst
        (λ (q : QueuedMessage).
          has (text_of q.encrypted_blob) (text_of n.encrypted_blob ∷ texts_of ms) ≡ true)
        e (ground (arith, bytes_eq_refl (text_of n.encrypted_blob)))
  has-texts_of m (n ∷ ms) (inr h) = ground (arith, has-texts_of m ms h)

  -- A message to a device without an open connection is not lost: with Redis up, an expiry in Redis's
  -- range and its id not queued yet for the device, it is accepted; when the device registers a new
  -- connection next and gets its pending messages, with as many rounds as SCAN hands out pages and its
  -- key in the pages, as SCAN promises for a stored key, that connection has taken the text of the
  -- message, and the message is no longer queued.
  pub offline_then_online :
      (envelope : EncryptedEnvelope) (rounds : ℕ) (pages : List (List Bytes)) (st : State)
      → r.IsUp st.redis
      → 1 ≤ ttl_of envelope
      → ttl_of envelope ≤ max_ttl
      → r.stored (key_of envelope) st.redis ≡ none
      → reaches envelope.recipient_device_id st.connections ≡ false
      → IsIteration
          (w.uuid_text envelope.recipient_device_id)
          0
          (handle_send envelope st).0.redis
          pages
      → length pages ≤ rounds
      → has (key_of envelope) (flatten pages) ≡ true
      → (st1 : State) × (st2 : State) × (st3 : State) × (x : ℕ) × (handle_send envelope st
          ≡ (st1, ok tt))
        × (register envelope.recipient_device_id st1 ≡ (st2, ok x))
        × (deliver_pending_messages rounds envelope.recipient_device_id st2 ≡ (st3, ok tt))
        × (has (w.ws_text (send_message envelope)) (s.sent x st3.connections) ≡ true)
        × (r.stored (key_of envelope) st3.redis ≡ none)
  unfolding register
  offline_then_online envelope rounds pages st u l m n h i f k =
      let d = envelope.recipient_device_id in
      let (st1, a, b, u1, q, others, same, senders) = handle_send-offline envelope st u l m n h in
      let (t, x, c, new, o, empty, v, y) = s.unbounded_channel-new st1.connections in
      let st2 : State = record st1 { connections = s.insert d x t } in
      let here : s.sender d (s.insert d x t) ≡ some x =
        ground (arith, s.sender-insert d x d t, ==_refl d) in
      let i1 : IsIteration (w.uuid_text d) 0 st1.redis pages =
        subst (λ (z : r.Conn). IsIteration (w.uuid_text d) 0 z pages) (ap (λ z. z.0.redis) a) i in
      let (st3, p, took, rest, left) =
        deliver_pending_messages-sent d x rounds pages st2 here (is_open_new d x t o) u1 i1 f in
      let prefix = message_key (w.uuid_text d) [] in
      let ms = collect prefix st1.redis [] (flatten pages) in
      let among =
        Returns-collect prefix (key_of envelope) (je.to_vec envelope) (ttl_of envelope) st1.redis []
          (flatten pages) q refl k in
      let texts : has (text_of (je.to_vec envelope)) (texts_of ms) ≡ true =
        has-texts_of _ ms among in
      let text : text_of (je.to_vec envelope) ≡ w.ws_text (send_message envelope) =
        ground (arith, je.from_slice-to_vec envelope) in
      let found : has (w.ws_text (send_message envelope)) (texts_of ms) ≡ true =
        subst (λ z. has z (texts_of ms) ≡ true) text texts in
      let before = s.sent x st2.connections in
      let joined = has-append (w.ws_text (send_message envelope)) before (texts_of ms) in
      (
        st1,
        st2,
        st3,
        x,
        a,
        ground arith,
        p,
        ap (has (w.ws_text (send_message envelope))) took ∙ ground (arith, joined, found),
        ground (arith, left (key_of envelope)),
      )
