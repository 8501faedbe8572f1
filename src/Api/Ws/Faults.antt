-- ===== src/Api/Ws/Faults.antt =====
-- crates/hysj-api/src/ws/handler.rs: what is refused, and what is not.
use hysj.Base.{
  ℕ, arith, ◌≡◌, refl, subst, true, false, Option, none, some, Bytes, bytes_eq, List, [], ◌∷◌, ◌++◌,
  ◌==◌, ==_refl, if◌then◌else◌, ok, err, Bool-cases, inl, inr,
}
use hysj.Crypto.Primitives.{Json}
use hysj.Database.{not_found}
use hysj.Database.Groups
use hysj.Database.Groups.{role_of, is_some}
use hysj.Database.Pins
use hysj.Database.Pins.{is_pinned}
use hysj.Database.Devices
use hysj.Database.Devices.{mark_online}
use hysj.Messaging.Redis.{Redis}
use hysj.Messaging.Wipe
use hysj.Messaging.Wipe.{WipeRequest, PendingWipe, wipe_key, wipe_ttl_seconds, issue_wipe, set_for}
use hysj.Messaging.Wipe.Laws.{pending_of}
use hysj.Api.Ws.Messages.{EncryptedEnvelope, PinMessage, pin_message, wipe_command, error_message}
use hysj.Api.Ws.Sockets.{Sockets, Wire, db_failed, not_a_member}
use hysj.Api.Ws.Connections.{State, send_to_device}
use hysj.Api.Ws.Handler.{
  handle_pin, pin_or_unpin, handle_wipe, wipe_targets, forward_wipe, handle_ws_message,
}
use hysj.Api.Ws.Lifecycle.{register, clean_up, on_text, send_to_self}
use hysj.Api.Ws.Delivery.{send_to_device-open, is_open_new}

module _ ⦃r : Redis⦄ ⦃s : Sockets⦄ ⦃w : Wire⦄ ⦃je : Json EncryptedEnvelope⦄ where
  module _ ⦃jw : Json PendingWipe⦄ where
    -- A device that connects again before the server has cleaned up its old socket becomes unreachable
    -- while its new socket is still read: the second registration closes the old channel; the cleanup of
    -- the old socket removes the entry of the new one, which closes the new channel too, and marks the
    -- device as offline; a text that comes from the new socket after that and does not parse is not
    -- answered, and changes nothing.
    pub clean_up-register :
        (user d now later : ℕ) (text new_id : Bytes) (st : State)
        → w.ws_parse text ≡ none
        → (st1 : State) × (st2 : State) × (st3 : State) × (old : ℕ) × (new : ℕ) × (register d st
            ≡ (st1, ok old))
          × (s.is_open old st1.connections ≡ true)
          × (register d st1 ≡ (st2, ok new))
          × (s.sender d st2.connections ≡ some new)
          × (s.is_open new st2.connections ≡ true)
          × (s.is_open old st2.connections ≡ false)
          × (clean_up d old now st2 ≡ (st3, ok tt))
          × (s.sender d st3.connections ≡ none)
          × (s.is_open new st3.connections ≡ false)
          × (st3.db ≡ record st.db { devices = mark_online d false now st.db.devices })
          × (on_text user d text new_id later st3 ≡ (st3, ok tt))
    unfolding register clean_up Devices.set_online on_text send_to_self send_to_device
    clean_up-register user d now later text new_id st bad =
        let (t, x, p, a, b, c, e, f) = s.unbounded_channel-new st.connections in
        let t1 = s.insert d x t in
        let up : s.is_open x t1 ≡ true = is_open_new d x t b in
        let here : s.sender d t1 ≡ some x = ground (arith, s.sender-insert d x d t, ==_refl d) in
        let st1 : State = record st { connections = t1 } in
        let (t', y, p', a', b', c', e', f') = s.unbounded_channel-new t1 in
        let t2 = s.insert d y t' in
        let st2 : State = record st1 { connections = t2 } in
        let apart : (y == x) ≡ false = elim (Bool-cases (y == x)) [
          | inl q ↦
              let same : y ≡ x = ground arith in
              let shut : s.is_open x t1 ≡ false = subst (λ z. s.is_open z t1 ≡ false) same a' in
              absurd (ground arith)
          | inr q ↦ q
        ] in
        let there : s.sender d t2 ≡ some y = ground (arith, s.sender-insert d y d t', ==_refl d) in
        let st3 = (clean_up d x now st2).0 in
        let gone : s.sender d (s.close x (s.remove d t2)) ≡ none =
          ground (arith, s.sender-close x d (s.remove d t2), s.sender-remove d d t2, ==_refl d) in
        (
          st1,
          st2,
          st3,
          x,
          y,
          ground arith,
          up,
          ground arith,
          there,
          is_open_new d y t' b',
          ground (arith, s.is_open-insert d y x t', e' d, here, apart, ==_refl x),
          ground arith,
          gone,
          ground (
            arith,
            s.is_open-close x y (s.remove d t2),
            s.is_open-remove d y t2,
            there,
            ==_refl y,
          ),
          refl,
          ground (arith, gone),
        )

  -- Who is not a member of a group can neither pin nor unpin a message there: it is refused, and
  -- nothing changes and nobody is told.
  pub handle_pin-refused :
      (user now : ℕ) (request : PinMessage) (st : State)
      → role_of request.group_id user st.db.group_members ≡ none
      → handle_pin user request now st ≡ (st, err not_a_member)
  unfolding handle_pin Groups.is_member
  handle_pin-refused user now request st h = ground arith

  -- A member who pins a message that is pinned already is told that the record was not found; nothing
  -- changes and nobody is told.
  pub handle_pin-again :
      (user now : ℕ) (request : PinMessage) (st : State)
      → is_some (role_of request.group_id user st.db.group_members) ≡ true
      → request.pin ≡ true
      → is_pinned request.group_id request.message_id st.db.pinned_messages ≡ true
      → handle_pin user request now st ≡ (st, err (db_failed not_found))
  unfolding handle_pin Groups.is_member pin_or_unpin Pins.pin
  handle_pin-again user now request st h p q = ground arith

  module _ ⦃jw : Json PendingWipe⦄ where
    -- What the handler refuses is told to the sender's own connection, and to nobody else: a request
    -- of a user who is not a member of the group to pin a message there leaves the database and the
    -- queue as they are, and adds one error text to what the sender's open connection has.
    pub on_text_refused :
        (user device x now : ℕ) (text new_id : Bytes) (request : PinMessage) (st : State)
        → w.ws_parse text ≡ some (pin_message request)
        → role_of request.group_id user st.db.group_members ≡ none
        → s.sender device st.connections ≡ some x
        → s.is_open x st.connections ≡ true
        → (t : s.Table) × (on_text user device text new_id now st
            ≡ (record st { connections = t }, ok tt))
          × ((y : ℕ)
              → s.sent y t ≡ (
                  if x == y
                  then s.sent y st.connections
                    ++ w.ws_text (error_message (w.error_text not_a_member)) ∷ []
                  else s.sent y st.connections))
    unfolding on_text send_to_self handle_ws_message
    on_text_refused user device x now text new_id request st p h e o =
        let (t, a, q, i, l) =
          send_to_device-open device x (error_message (w.error_text not_a_member)) st.connections e
            o in
        (t, ground (arith, handle_pin-refused user now request st h), l)

    forward_wipe-ok :
        (device : ℕ) (command : WipeRequest) (ids : List ℕ) (st : State)
        → (t : s.Table) × (forward_wipe device command ids st
            ≡ (record st { connections = t }, ok tt))
    unfolding forward_wipe
    forward_wipe-ok device command [] st = (st.connections, refl)
    forward_wipe-ok device command (d ∷ ds) st = elim (Bool-cases (d == device)) [
      | inl q ↦ let (t, e) = forward_wipe-ok device command ds st in (t, ground arith)
      | inr q ↦
          let t1 = (send_to_device d (wipe_command command) st.connections).0 in
          let (t, e) = forward_wipe-ok device command ds (record st { connections = t1 }) in
          (t, ground arith)
    ]

    -- A wipe of one device is not bound to the sender's devices: with Redis up, any user can name any
    -- device, and the command is stored for it with its 30 days; the database and every other key of
    -- Redis stay as they are.
    pub handle_wipe_device :
        (user device target now : ℕ) (partner : Option ℕ) (wipe_id : Bytes) (st : State)
        → r.IsUp st.redis
        → let command : WipeRequest = record {
          wipe_type = Wipe.device;
          target_device_id = some target;
          conversation_partner_id = partner;
        } in
          (st' : State) × (handle_wipe user device command wipe_id now st ≡ (st', ok tt))
          × (st'.db ≡ st.db)
          × ((j : Bytes)
              → r.stored j st'.redis ≡ (
                  if bytes_eq (wipe_key (w.uuid_text target) wipe_id) j
                  then some (jw.to_vec (pending_of wipe_id command now), wipe_ttl_seconds)
                  else r.stored j st.redis))
    unfolding handle_wipe wipe_targets issue_wipe set_for
    handle_wipe_device user device target now partner wipe_id st u =
        let command : WipeRequest = record {
          wipe_type = Wipe.device;
          target_device_id = some target;
          conversation_partner_id = partner;
        } in
        let (c, e, v, l) =
          r.set_ex-stored (wipe_key (w.uuid_text target) wipe_id)
            (jw.to_vec (pending_of wipe_id command now)) wipe_ttl_seconds st.redis u (omega arith)
            (omega arith) in
        let (t, f) = forward_wipe-ok device command (target ∷ []) (record st { redis = c }) in
        (record st { redis = c; connections = t }, ground arith, refl, l)
