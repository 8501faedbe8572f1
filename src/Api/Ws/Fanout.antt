-- ===== src/Api/Ws/Fanout.antt =====
-- crates/hysj-api/src/ws/handler.rs: a group message reaches every device of the other members.
use hysj.Base.{
  ℕ, ◌≤◌, ◌≡◌, refl, subst, ◌∙◌, Bool, true, false, none, some, Bytes, bytes_eq_refl, List, [], ◌∷◌,
  ◌++◌, ◌==◌, ==_refl, if◌then◌else◌, ok, Bool-cases, Option-cases, inl, inr, arith,
}
use hysj.Crypto.Primitives.{Json}
use hysj.Database.{Device}
use hysj.Database.Groups.{elem, members_of, get_members, role_of}
use hysj.Database.Devices.{devices_of, list_by_users, find_device}
use hysj.Api.Ws.Members.{elem-devices_of, elem-other_members}
use hysj.Messaging.Redis.{Redis, max_ttl, is_some}
use hysj.Messaging.Queue.{message_key, enqueue}
use hysj.Messaging.Queue.Drain.{has, has-append}
use hysj.Api.Ws.Messages.{EncryptedEnvelope, send_group_message}
use hysj.Api.Ws.Sockets.{Sockets, Wire}
use hysj.Api.Ws.Connections.{State, send_to_device}
use hysj.Api.Ws.Handler.{
  ttl_of, enqueue_for, ids_of, other_members, send_to_members, handle_send_group,
}
use hysj.Api.Ws.Delivery.{reaches, send_to_device-open, send_to_device-closed}

-- What holds for the first and for the rest holds for each.
each :
    (P : ℕ → Bool) (d e : ℕ) (rest : Bool)
    → P d ≡ true
    → (rest ≡ true → P e ≡ true)
    → (if d == e then true else rest) ≡ true
    → P e ≡ true
each P d e rest a b h = elim (Bool-cases (d == e)) [
  | inl q ↦ let same : d ≡ e = ground arith in subst (λ z. P z ≡ true) same a
  | inr q ↦ b (ground arith)
]

module _ ⦃r : Redis⦄ ⦃s : Sockets⦄ ⦃w : Wire⦄ ⦃je : Json EncryptedEnvelope⦄ where
  -- What the connection of a device has taken.
  abbrev pub sent_to : ℕ → s.Table → List Bytes
  sent_to d t = elim (s.sender d t) [ none ↦ [] | some x ↦ s.sent x t ]

  -- An online device has taken the text, any other has something queued under the message's id.
  abbrev pub got : ℕ → EncryptedEnvelope → ℕ → s.Table → r.Conn → Bool
  got group_id envelope d t c =
      if reaches d t
      then has (w.ws_text (send_group_message group_id envelope)) (sent_to d t)
      else is_some (r.stored (message_key (w.uuid_text d) envelope.message_id) c)

  step-open :
      (g : ℕ) (m : EncryptedEnvelope) (d x : ℕ) (t : s.Table) (c : r.Conn)
      → s.sender d t ≡ some x
      → s.is_open x t ≡ true
      → (t' : s.Table) × (send_to_device d (send_group_message g m) t ≡ (t', true))
        × (got g m d t' c ≡ true)
        × ((e : ℕ) → got g m e t c ≡ true → got g m e t' c ≡ true)
  step-open g m d x t c e o =
      let text = w.ws_text (send_group_message g m) in
      let (t', p, q, i, l) = send_to_device-open d x (send_group_message g m) t e o in
      let here : s.sent x t' ≡ s.sent x t ++ text ∷ [] = ground (arith, l x, ==_refl x) in
      (
        t',
        p,
        ground (arith, q d, i x, has-append text (s.sent x t) (text ∷ []), bytes_eq_refl text),
        λ f h. elim (Option-cases (s.sender f t)) [
          | inl n ↦ ground (arith, q f)
          | inr (y, n) ↦ ground (arith, q f, i y, l y, has-append text (s.sent y t) (text ∷ []))
        ],
      )

  got-removed :
      (g : ℕ) (m : EncryptedEnvelope) (d e : ℕ) (t t' : s.Table) (c c' : r.Conn)
      → reaches d t ≡ false
      → s.sender e t' ≡ (if d == e then none else s.sender e t)
      → ((y : ℕ) → s.is_open y t' ≡ s.is_open y t)
      → ((y : ℕ) → s.sent y t' ≡ s.sent y t)
      → (is_some (r.stored (message_key (w.uuid_text e) m.message_id) c) ≡ true
          → is_some (r.stored (message_key (w.uuid_text e) m.message_id) c') ≡ true)
      → got g m e t c ≡ true
      → got g m e t' c' ≡ true
  got-removed g m d e t t' c c' h q i v k a = elim (Bool-cases (d == e)) [
    | inl b ↦
        let same : d ≡ e = ground arith in
        let gone : reaches e t ≡ false = subst (λ z. reaches z t ≡ false) same h in
        let queued = k (ground arith) in ground arith
    | inr b ↦ elim (Option-cases (s.sender e t)) [
      | inl n ↦ let queued = k (ground arith) in ground arith
      | inr (y, n) ↦ elim (Bool-cases (s.is_open y t)) [
        | inl o ↦ ground (arith, i y, v y)
        | inr o ↦ let queued = k (ground arith) in ground (arith, i y)
      ]
    ]
  ]

  step-closed :
      (g : ℕ) (m : EncryptedEnvelope) (d : ℕ) (st : State)
      → r.IsUp st.redis
      → 1 ≤ ttl_of m
      → ttl_of m ≤ max_ttl
      → reaches d st.connections ≡ false
      → (t : s.Table) × (c : r.Conn) × (send_to_device d (send_group_message g m) st.connections
          ≡ (t, false))
        × (enqueue_for d m (record st { connections = t })
            ≡ (record st { connections = t; redis = c }, ok tt))
        × r.IsUp c
        × (got g m d t c ≡ true)
        × ((e : ℕ) → got g m e st.connections st.redis ≡ true → got g m e t c ≡ true)
  unfolding enqueue_for enqueue
  step-closed g m d st u l n h =
      let key = message_key (w.uuid_text d) m.message_id in
      let (t, p, q, i, v) = send_to_device-closed d (send_group_message g m) st.connections h in
      let gone : reaches d t ≡ false = ground (arith, q d, ==_refl d) in
      elim (Option-cases (r.stored key st.redis)) [
        | inl o ↦
            let (c, x, u', f) = r.set_ex-stored key (je.to_vec m) (ttl_of m) st.redis u l n in
            (
              t,
              c,
              p,
              ground (arith, r.exists-stored key st.redis u),
              u',
              ground (arith, f key, bytes_eq_refl key),
              λ e k.
                  got-removed g m d e st.connections t st.redis c h (q e) i v
                    (λ z. ground (arith, f (message_key (w.uuid_text e) m.message_id))) k,
            )
        | inr (b, o) ↦ (
          t,
          st.redis,
          p,
          ground (arith, r.exists-stored key st.redis u),
          u,
          ground arith,
          λ e k. got-removed g m d e st.connections t st.redis st.redis h (q e) i v (λ z. z) k,
        )
      ]

  send_to_members-got :
      (g : ℕ) (m : EncryptedEnvelope) (ds : List Device) (st : State)
      → r.IsUp st.redis
      → 1 ≤ ttl_of m
      → ttl_of m ≤ max_ttl
      → (t : s.Table) × (c : r.Conn) × (send_to_members g m ds st
          ≡ (record st { connections = t; redis = c }, ok tt))
        × ((e : ℕ) → elem e (ids_of ds) ≡ true → got g m e t c ≡ true)
        × ((e : ℕ) → got g m e st.connections st.redis ≡ true → got g m e t c ≡ true)
  unfolding send_to_members elem ids_of
  send_to_members-got g m [] st u l n =
      (st.connections, st.redis, refl, (λ e h. absurd (ground arith)), λ e h. h)
  send_to_members-got g m (d ∷ ds) st u l n = elim (Bool-cases (reaches d.id st.connections)) [
    | inl h ↦ elim (Option-cases (s.sender d.id st.connections)) [
      | inl o ↦ absurd (ground arith)
      | inr (x, o) ↦
          let (t1, p, a, k) = step-open g m d.id x st.connections st.redis o (ground arith) in
          let (t, c, q, b, k') =
            send_to_members-got g m ds (record st { connections = t1 }) u l n in
          (
            t,
            c,
            ground arith,
            (λ e f. each (λ z. got g m z t c) d.id e (elem e (ids_of ds)) (k' d.id a) (b e) f),
            λ e f. k' e (k e f),
          )
    ]
    | inr h ↦
        let (t1, c1, p, z, u1, a, k) = step-closed g m d.id st u l n h in
        let (t, c, q, b, k') =
          send_to_members-got g m ds (record st { connections = t1; redis = c1 }) u1 l n in
        (
          t,
          c,
          ground arith,
          (λ e f. each (λ z. got g m z t c) d.id e (elem e (ids_of ds)) (k' d.id a) (b e) f),
          λ e f. k' e (k e f),
        )
  ]

  -- A group message, whoever sends it: with Redis up and an expiry in Redis's range it is accepted;
  -- then each device of each member other than the sender, if it has an open connection, has taken the
  -- text there, and otherwise has something queued under the message's id.
  pub handle_send_group-got :
      (user group_id : ℕ) (envelope : EncryptedEnvelope) (st : State)
      → r.IsUp st.redis
      → 1 ≤ ttl_of envelope
      → ttl_of envelope ≤ max_ttl
      → (st' : State) × (handle_send_group user group_id envelope st ≡ (st', ok tt))
        × (st'.db ≡ st.db)
        × ((device : Device)
            → find_device device.id st.db.devices ≡ some device
            → is_some (role_of group_id device.user_id st.db.group_members) ≡ true
            → (device.user_id == user) ≡ false
            → got group_id envelope device.id st'.connections st'.redis ≡ true)
  unfolding handle_send_group get_members list_by_users
  handle_send_group-got user group_id envelope st u l n =
      let us = other_members user (members_of group_id st.db.group_members) in
      let ds = devices_of us st.db.devices in
      let (t, c, p, a, k) = send_to_members-got group_id envelope ds st u l n in
      (
        record st { connections = t; redis = c },
        ground arith,
        refl,
        λ device f h b. a device.id (
            elem-devices_of us st.db.devices device f
              (elem-other_members user group_id device.user_id st.db.group_members ∙ ground arith)),
      )
