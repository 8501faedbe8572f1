-- ===== src/Api/Devices/Removal.antt =====
-- Which device goes when one is deleted, and what goes with it.
use hysj.Base.{
  ℕ, ◌<◌, ◌≤◌, ◌≡◌, refl, Bool, true, false, not, ◌&&◌, none, List, [], ◌∷◌, length, ◌==◌,
  if◌then◌else◌, ok, err, Bool-cases, inl, inr, arith,
}
use hysj.Database.{Device, Db}
use hysj.Database.Devices
use hysj.Database.Select.{select, is_of, is_key_of, select-delete_row, select-delete_pre_keys}
use hysj.Database.Devices.{delete_row, delete_pre_keys}
use hysj.Messaging.Redis.{Redis}
use hysj.Api.Error.{validation_error, device_not_found}
use hysj.Api.Ws.Sockets.{Sockets, holds}
use hysj.Api.Ws.Connections.{State}
use hysj.Api.Devices.{delete_device}

-- There is a row of this device for this user.
unfoldable pub owns : ℕ → ℕ → List Device → Bool
owns user id [] = false
owns user id (d ∷ ds) =
    let rest = owns user id ds in if d.id == id && d.user_id == user then true else rest

delete_row-length : (user id : ℕ) (ds : List Device) → length (delete_row id user ds) ≤ length ds
unfolding delete_row
delete_row-length user id [] = omega arith
delete_row-length user id (d ∷ ds) = ground (arith, delete_row-length user id ds)

delete_row-shorter :
    (user id : ℕ) (ds : List Device)
    → owns user id ds ≡ true
    → length (delete_row id user ds) < length ds
unfolding owns delete_row
delete_row-shorter user id [] h = ground arith
delete_row-shorter user id (d ∷ ds) h =
    ground (arith, delete_row-length user id ds, delete_row-shorter user id ds)

delete_row-same :
    (user id : ℕ) (ds : List Device) → owns user id ds ≡ false → delete_row id user ds ≡ ds
unfolding owns delete_row
delete_row-same user id [] h = refl
delete_row-same user id (d ∷ ds) h = ground (arith, delete_row-same user id ds)

module _ ⦃r : Redis⦄ ⦃s : Sockets⦄ where
  -- Unless the device went, nothing changed.
  abbrev pub Unless : Bool → State → State → Type 0
  Unless true st st' = Unit {0}
  Unless false st st' = st' ≡ st

  Unless-same : (b : Bool) (st : State) → Unless b st st
  Unless-same true st = tt
  Unless-same false st = refl

  Unless-true : (b : Bool) (st st' : State) → b ≡ true → Unless b st st'
  Unless-true true st st' h = tt
  Unless-true false st st' h = absurd (ground arith)

  -- The device goes exactly if it is not the one in use and belongs to the user: then its row, its
  -- pre-keys, used or not, and its entry in the map of connections are gone, and the channel of that entry
  -- is closed; every other row of these tables, every other entry and every other channel stays, and so
  -- do all other tables and the queue. The device in use is refused as invalid, and one of another user as
  -- not found; then nothing changes.
  pub delete_device-ok :
      (user device id : ℕ) (st : State)
      → let gone = not (id == device) && owns user id st.db.devices in
        (st' : State) × (delete_device user device id st ≡ (
          st',
          if id == device
              then err validation_error
              else if owns user id st.db.devices
              then ok tt
              else err (device_not_found id),
        ))
        × ((owner e : ℕ)
            → select (is_of owner e) st'.db.devices ≡ (
                if gone && (id == e && user == owner)
                then []
                else select (is_of owner e) st.db.devices))
        × ((e : ℕ)
            → select (is_key_of e) st'.db.pre_keys
              ≡ (if gone && id == e then [] else select (is_key_of e) st.db.pre_keys))
        × ((e : ℕ)
            → s.sender e st'.connections
              ≡ (if gone && id == e then none else s.sender e st.connections))
        × ((y : ℕ)
            → s.is_open y st'.connections ≡ (
                if gone && holds y (s.sender id st.connections)
                then false
                else s.is_open y st.connections))
        × ((y : ℕ) → s.sent y st'.connections ≡ s.sent y st.connections)
        × (st' ≡ record st {
          db = record st.db { devices = st'.db.devices; pre_keys = st'.db.pre_keys };
          connections = st'.connections;
        })
        × Unless gone st st'
  unfolding delete_device Devices.delete_device
  delete_device-ok user device id st =
      let ds = st.db.devices in
      elim (Bool-cases (id == device)) [
        | inl e ↦ (
          st,
          ground arith,
          (λ o x. ground arith),
          (λ x. ground arith),
          (λ x. ground arith),
          (λ y. ground arith),
          (λ y. refl),
          refl,
          Unless-same _ st,
        )
        | inr e ↦ elim (Bool-cases (owns user id ds)) [
          | inr o ↦ (
            st,
            ground (arith, delete_row-same user id ds o),
            (λ w x. ground arith),
            (λ x. ground arith),
            (λ x. ground arith),
            (λ y. ground arith),
            (λ y. refl),
            refl,
            Unless-same _ st,
          )
          | inl o ↦
              let db' : Db = record st.db {
                devices = delete_row id user ds;
                pre_keys = delete_pre_keys id st.db.pre_keys;
              } in
              (
                record st { db = db'; connections = s.remove id st.connections },
                ground (arith, delete_row-shorter user id ds o),
                (λ w x. ground (arith, select-delete_row user id w x ds)),
                (λ x. ground (arith, select-delete_pre_keys id x st.db.pre_keys)),
                (λ x. ground (arith, s.sender-remove id x st.connections)),
                (λ y. ground (arith, s.is_open-remove id y st.connections)),
                (λ y. s.sent-remove id y st.connections),
                refl,
                Unless-true _ st _ (ground arith),
              )
        ]
      ]
