-- ===== src/Api/Devices/Examples.antt =====
-- Runs of the model of the device routes.
use hysj.Base.{lit, ℕ, ◌≡◌, true, false, none, some, [], ◌∷◌, ok, ◌&&◌, ◌==◌, if◌then◌else◌}
use hysj.Database.{PreKey, empty_db}
use hysj.Database.Devices.{phone}
use hysj.Database.Select.{select, is_of, is_key_of}
use hysj.Messaging.Toy.{Store, toy_redis}
use hysj.Api.Ws.Connections.{AppState}
use hysj.Api.Ws.Toy.{Channels, toy_sockets}
use hysj.Api.Devices.{delete_device}
use hysj.Api.Devices.Removal.{owns, delete_device-ok}

abbrev State : Type 0
State = AppState Store Channels

abbrev key : ℕ → ℕ → PreKey
key id device = record {
  id = id;
  device_id = device;
  public_key = lit "a";
  is_used = false;
  created_at = 0;
}

-- Devices 7 and 8 are of user 1, each with a key.
abbrev st : State
st = record {
  db = record empty_db { devices = phone 7 1 ∷ phone 8 1 ∷ []; pre_keys = key 1 7 ∷ key 2 8 ∷ [] };
  redis = λ k. none;
  fcm_server_key = none;
  connections = record { senders = λ d. some d; next = 9; opened = λ x. true; texts = λ x. [] };
  posted = [];
}

delete_device-ok_example :
    (st' : State) × (delete_device 1 7 8 st ≡ (st', ok tt))
    × ((owner e : ℕ)
        → select (is_of owner e) st'.db.devices
          ≡ (if 8 == e && 1 == owner then [] else select (is_of owner e) st.db.devices))
    × ((e : ℕ)
        → select (is_key_of e) st'.db.pre_keys
          ≡ (if 8 == e then [] else select (is_key_of e) st.db.pre_keys))
    × ((e : ℕ)
        → toy_sockets.sender e st'.connections
          ≡ (if 8 == e then none else toy_sockets.sender e st.connections))
    × ((y : ℕ)
        → toy_sockets.is_open y st'.connections
          ≡ (if 8 == y then false else toy_sockets.is_open y st.connections))
    × ((y : ℕ) → st'.connections.texts y ≡ [])
    × (st' ≡ record st {
      db = record st.db { devices = st'.db.devices; pre_keys = st'.db.pre_keys };
      connections = st'.connections;
    })
    × Unit {0}
unfolding owns
delete_device-ok_example = delete_device-ok 1 7 8 st
