-- ===== src/Api/Devices.antt =====
-- crates/hysj-api/src/routes/devices.rs. The authenticated user and device come first.
pub mod Removal
mod Examples
use hysj.Base.{ℕ, Bool, Bytes, List, [], ◌∷◌, ◌==◌, if◌then◌else◌, ok, err, panic}
use hysj.Database.{Device}
use hysj.Database.Devices
use hysj.Messaging.Redis.{Redis}
use hysj.Api.Error.{HysjError, validation_error, device_not_found}
use hysj.Api.Ws.Sockets.{Sockets}
use hysj.Api.Ws.Connections.{State}
use hysj.Api.Routes.{Run, lift, ◌>>=◌, ◌>>◌, db_do}

pub record DeviceDto : Type 0 where
  pub id : ℕ
  pub device_name : Bytes
  pub is_online : Bool
  pub last_active_at : ℕ
  pub registered_at : ℕ

unfoldable pub device_dtos : List Device → List DeviceDto
device_dtos [] = []
device_dtos (d ∷ ds) =
    record {
      id = d.id;
      device_name = d.device_name;
      is_online = d.is_online;
      last_active_at = d.last_active_at;
      registered_at = d.registered_at;
    }
    ∷ device_dtos ds

module _ ⦃r : Redis⦄ ⦃s : Sockets⦄ where
  unfoldable pub list_devices : ℕ → Run (List DeviceDto)
  list_devices auth_user = do
    devices ← db_do (Devices.list_by_user auth_user)
    lift (ok (device_dtos devices))

  -- `state.connections.remove(&device_id)`
  abbrev pub disconnect : ℕ → Run (Unit {0})
  disconnect device_id st = (record st { connections = s.remove device_id st.connections }, ok tt)

  unfoldable pub delete_device : ℕ → ℕ → ℕ → Run (Unit {0})
  delete_device auth_user auth_device device_id =
      if device_id == auth_device then lift (err validation_error) else do
        deleted ← db_do (Devices.delete_device device_id auth_user)
        if deleted then lift (ok tt) else lift (err (device_not_found device_id))
        disconnect device_id
