-- ===== src/Api/Wipe/Targets.antt =====
-- Which devices a wipe is stored for.
use hysj.Base.{
  ℕ, ◌≡◌, ◌⊎◌, refl, true, false, Option, none, some, Bytes, List, [], ◌∷◌, ◌++◌, map, length, ◌==◌,
  if◌then◌else◌, ok, err, Bool-cases, inl, inr, arith,
}
use hysj.Crypto.Primitives.{Json}
use hysj.Database.{Db}
use hysj.Database.Devices
use hysj.Database.Devices.{devices_of}
use hysj.Messaging.Redis.{Redis}
use hysj.Messaging.Wipe
use hysj.Messaging.Wipe.{WipeType, WipeRequest, PendingWipe, wipe_ttl_seconds}
use hysj.Messaging.Wipe.Laws.{is_target, pending_of, set_for-stored}
use hysj.Api.Error.{validation_error}
use hysj.Api.Ws.Messages.{wipe_command}
use hysj.Api.Ws.Handler.{ids_of}
use hysj.Api.Ws.Sockets.{Sockets, Wire}
use hysj.Api.Ws.Connections.{State, send_to_device}
use hysj.Api.Wipe.{device_ids, target_devices, send_all, wipe_unlimited}

abbrev pub own_ids : ℕ → Db → List ℕ
own_ids user db = ids_of (devices_of (user ∷ []) db.devices)

-- All devices of the user; the device that is named; all devices of the partner and of the user.
abbrev pub targets_of : WipeType → Option ℕ → Option ℕ → ℕ → Db → List ℕ
targets_of Wipe.all device partner user db = own_ids user db
targets_of Wipe.device none partner user db = []
targets_of Wipe.device (some id) partner user db = id ∷ []
targets_of Wipe.conversation device none user db = []
targets_of Wipe.conversation device (some id) user db = own_ids id db ++ own_ids user db

abbrev pub targets : WipeRequest → ℕ → Db → List ℕ
targets req user db =
    targets_of req.wipe_type req.target_device_id req.conversation_partner_id user db

no_target :
    (text : ℕ → Bytes) (new_id k : Bytes) (ids : List ℕ)
    → (length ids == 0) ≡ true
    → is_target k new_id (map text ids) ≡ false
no_target text new_id k [] h = refl
no_target text new_id k (id ∷ ids) h = absurd (ground arith)

module _ ⦃r : Redis⦄ ⦃s : Sockets⦄ ⦃w : Wire⦄ ⦃j : Json PendingWipe⦄ where
  send_all-ok :
      (req : WipeRequest) (ids : List ℕ) (st : State)
      → (st' : State) × (send_all req ids st ≡ (st', ok tt))
        × (st'.redis ≡ st.redis)
        × (st'.db ≡ st.db)
  unfolding send_all
  send_all-ok req [] st = (st, refl, refl, refl)
  send_all-ok req (id ∷ ids) st =
      let (t, e, a, b) =
        send_all-ok req ids
          (record st { connections = (send_to_device id (wipe_command req) st.connections).0 }) in
      (t, e, a, b)

  wipe_some :
      (user now : ℕ) (req : WipeRequest) (new_id : Bytes) (ids : List ℕ) (st : State)
      → r.IsUp st.redis
      → target_devices user req st ≡ (st, ok ids)
      → (length ids == 0) ≡ false
      → (st' : State) × (wipe_unlimited user req new_id now st
          ≡ (st', ok (record { wipe_id = new_id; pending_devices = ids; confirmed_devices = [] })))
        × (st'.db ≡ st.db)
        × ((k : Bytes)
            → r.stored k st'.redis ≡ (
                if is_target k new_id (map w.uuid_text ids)
                then some (j.to_vec (pending_of new_id req now), wipe_ttl_seconds)
                else r.stored k st.redis))
  unfolding wipe_unlimited Wipe.issue_wipe
  wipe_some user now req new_id ids st u t n =
      let bytes = j.to_vec (pending_of new_id req now) in
      let (c, e, v, q) = set_for-stored (map w.uuid_text ids) new_id bytes st.redis u in
      let (st', f, a, b) = send_all-ok req ids (record st { redis = c }) in
      (st', ground arith, b, λ k. ground (arith, q k))

  target_devices-cases :
      (t : WipeType) (d p : Option ℕ) (user : ℕ) (st : State)
      → let req : WipeRequest = record {
        wipe_type = t;
        target_device_id = d;
        conversation_partner_id = p;
      } in
        (target_devices user req st ≡ (st, ok (targets req user st.db)))
        ⊎ ((target_devices user req st ≡ (st, err validation_error))
            × (targets req user st.db ≡ []))
  unfolding target_devices device_ids Devices.list_by_user
  target_devices-cases Wipe.all d p user st = inl refl
  target_devices-cases Wipe.device none p user st = inr (refl, refl)
  target_devices-cases Wipe.device (some id) p user st = inl refl
  target_devices-cases Wipe.conversation d none user st = inr (refl, refl)
  target_devices-cases Wipe.conversation d (some id) user st = inl refl

  -- Behind the in-memory limiter, on a connection that is up, a wipe is stored for every device that it is for, whoever owns that
  -- device, with 30 days to live, and they are reported as pending: all devices of the user, the one
  -- device that is named, or all devices of the partner and of the user. Without any, it is refused as
  -- invalid. No other key changes, and no table.
  pub wipe_unlimited-ok :
      (user now : ℕ) (req : WipeRequest) (new_id : Bytes) (st : State)
      → r.IsUp st.redis
      → let ids = targets req user st.db in
        (st' : State) × (wipe_unlimited user req new_id now st ≡ (
          st',
          if length ids == 0
              then err validation_error
              else ok (record { wipe_id = new_id; pending_devices = ids; confirmed_devices = [] }),
        ))
        × (st'.db ≡ st.db)
        × ((k : Bytes)
            → r.stored k st'.redis ≡ (
                if is_target k new_id (map w.uuid_text ids)
                then some (j.to_vec (pending_of new_id req now), wipe_ttl_seconds)
                else r.stored k st.redis))
  unfolding wipe_unlimited
  wipe_unlimited-ok user now req new_id st u =
      let ids = targets req user st.db in
      elim (target_devices-cases req.wipe_type req.target_device_id req.conversation_partner_id user
        st) [
          | inr (e, z) ↦ (st, ground arith, refl, λ k. ground arith)
          | inl e ↦ elim (Bool-cases (length ids == 0)) [
            | inl z ↦
                (st, ground arith, refl, λ k. ground (arith, no_target w.uuid_text new_id k ids))
            | inr n ↦
                let (st', f, a, b) = wipe_some user now req new_id ids st u e n in
                (st', ground arith, a, b)
          ]
        ]
