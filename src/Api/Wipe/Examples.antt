-- ===== src/Api/Wipe/Examples.antt =====
-- Runs of the model of the wipe routes.
use hysj.Base.{◌≡◌, true, none, some, Bytes, [], ◌∷◌, ok, lit, map, if◌then◌else◌}
use hysj.Database.{empty_db}
use hysj.Database.Devices.{phone, insert_by_time, devices_of}
use hysj.Database.Groups.{elem}
use hysj.Messaging.Toy.{Store, toy_redis, wipe_json}
use hysj.Messaging.Wipe
use hysj.Messaging.Wipe.{WipeRequest, wipe_ttl_seconds}
use hysj.Messaging.Wipe.Laws.{is_target, pending_of}
use hysj.Api.Ws.Connections.{AppState}
use hysj.Api.Ws.Handler.{ids_of}
use hysj.Api.Ws.Toy.{Channels, toy_sockets, toy_wire}
use hysj.Api.Wipe.{wipe_unlimited}
use hysj.Api.Wipe.Targets.{wipe_unlimited-ok}

abbrev State : Type 0
State = AppState Store Channels

-- Device 7 is of user 1, device 8 of user 2.
abbrev st : State
st = record {
  db = record empty_db { devices = phone 7 1 ∷ phone 8 2 ∷ [] };
  redis = λ k. none;
  fcm_server_key = none;
  connections = record { senders = λ d. none; next = 0; opened = λ x. true; texts = λ x. [] };
  posted = [];
}

abbrev command : WipeRequest
command = record {
  wipe_type = Wipe.conversation;
  target_device_id = none;
  conversation_partner_id = some 2;
}

wipe_unlimited-ok_example :
    (st' : State) × (wipe_unlimited 1 command (lit "w") 100 st ≡ (
      st',
      ok (record { wipe_id = lit "w"; pending_devices = 8 ∷ 7 ∷ []; confirmed_devices = [] }),
    ))
    × (st'.db ≡ st.db)
    × ((k : Bytes)
        → toy_redis.stored k st'.redis ≡ (
            if is_target k (lit "w") (map toy_wire.uuid_text (8 ∷ 7 ∷ []))
            then some (wipe_json.to_vec (pending_of (lit "w") command 100), wipe_ttl_seconds)
            else none))
unfolding devices_of ids_of elem insert_by_time
wipe_unlimited-ok_example = wipe_unlimited-ok 1 100 command (lit "w") st tt
