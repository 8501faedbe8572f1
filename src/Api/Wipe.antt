-- ===== src/Api/Wipe.antt =====
-- crates/hysj-api/src/routes/wipe.rs. The authenticated user comes first, the new id and the clock last.
pub mod Targets
mod Examples
use hysj.Base.{
  ℕ, Bool, true, false, none, some, Bytes, bytes_eq, List, [], ◌∷◌, ◌++◌, map, length, lit, ◌==◌,
  ◌||◌, if◌then◌else◌, Result, ok, err, panic,
}
use hysj.Crypto.Primitives.{Json}
use hysj.Database.Devices
use hysj.Database.{Device}
use hysj.Messaging.Redis.{Redis}
use hysj.Messaging.Wipe
use hysj.Messaging.Wipe.{WipeRequest, PendingWipe}
use hysj.Api.Error.{HysjError, validation_error}
use hysj.Api.Auth.{limited}
use hysj.Api.RateLimit.{Entries}
use hysj.Api.Ws.Messages.{wipe_command}
use hysj.Api.Ws.Sockets.{Sockets, Wire}
use hysj.Api.Ws.Connections.{State, send_to_device}
use hysj.Api.Ws.Handler.{ids_of}
use hysj.Api.Routes.{Run, lift, ◌>>=◌, ◌>>◌, db_do, redis_do}

-- WIPE_MAX in WIPE_WINDOW_SECONDS.
abbrev wipe_max : ℕ
wipe_max = 3

abbrev wipe_window_seconds : ℕ
wipe_window_seconds = 3600

pub record WipeStatusResponse : Type 0 where
  pub wipe_id : Bytes
  pub pending_devices : List ℕ
  pub confirmed_devices : List ℕ

-- `wipes.iter().any(|w| w.wipe_id == wipe_id)`
unfoldable pub any_with_id : Bytes → List PendingWipe → Bool
any_with_id wipe_id [] = false
any_with_id wipe_id (p ∷ ps) = bytes_eq p.wipe_id wipe_id || any_with_id wipe_id ps

module _ ⦃r : Redis⦄ ⦃s : Sockets⦄ where
  unfoldable pub device_ids : ℕ → Run (List ℕ)
  device_ids user_id = do devices ← db_do (Devices.list_by_user user_id); lift (ok (ids_of devices))

  unfoldable pub target_devices : ℕ → WipeRequest → Run (List ℕ)
  target_devices auth_user req = elim req.wipe_type [
    | Wipe.all ↦ device_ids auth_user
    | Wipe.device ↦ elim req.target_device_id [
      | none ↦ lift (err validation_error)
      | some device_id ↦ lift (ok (device_id ∷ []))
    ]
    | Wipe.conversation ↦ elim req.conversation_partner_id [
      | none ↦ lift (err validation_error)
      | some partner_id ↦ do
        ids ← device_ids partner_id
        own ← device_ids auth_user
        lift (ok (ids ++ own))
    ]
  ]

  module _ ⦃w : Wire⦄ ⦃j : Json PendingWipe⦄ where
    -- `let _ = send_to_device(…)` for each.
    unfoldable pub send_all : WipeRequest → List ℕ → Run (Unit {0})
    send_all req [] st = (st, ok tt)
    send_all req (device_id ∷ rest) st =
        send_all req rest (record st {
          connections = (send_to_device device_id (wipe_command req) st.connections).0;
        })

    unfoldable pub wipe_unlimited : ℕ → WipeRequest → Bytes → ℕ → Run WipeStatusResponse
    wipe_unlimited auth_user req new_id now = do
      targets ← target_devices auth_user req
      if length targets == 0 then lift (err validation_error) else lift (ok tt)
      wipe_id ← redis_do (Wipe.issue_wipe (map w.uuid_text targets) req new_id now)
      send_all req targets
      lift (ok (record { wipe_id = wipe_id; pending_devices = targets; confirmed_devices = [] }))

    unfoldable pub issue_wipe :
        ℕ
        → WipeRequest
        → Bytes
        → ℕ
        → ℕ
        → Entries
        → State
        → Entries × (State × Result HysjError WipeStatusResponse)
    issue_wipe auth_user req new_id now instant =
        limited (lit "wipe:" ++ w.uuid_text auth_user) wipe_max wipe_window_seconds instant
          (wipe_unlimited auth_user req new_id now)

    -- The loop over the devices: the pending and the confirmed ones.
    unfoldable pub sort_devices : ℕ → Bytes → List Device → Run (List ℕ × List ℕ)
    sort_devices rounds wipe_id [] = lift (ok ([], []))
    sort_devices rounds wipe_id (device ∷ rest) = do
      wipes ← redis_do (Wipe.get_pending_wipes rounds (w.uuid_text device.id))
      (pending, confirmed) ← sort_devices rounds wipe_id rest
      lift (
          ok (
            if any_with_id wipe_id wipes
            then (device.id ∷ pending, confirmed)
            else (pending, device.id ∷ confirmed)))

    unfoldable pub wipe_status : ℕ → ℕ → Bytes → Run WipeStatusResponse
    wipe_status rounds auth_user wipe_id = do
      devices ← db_do (Devices.list_by_user auth_user)
      (pending, confirmed) ← sort_devices rounds wipe_id devices
      lift (
          ok (record {
            wipe_id = wipe_id;
            pending_devices = pending;
            confirmed_devices = confirmed;
          }))
