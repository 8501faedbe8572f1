-- ===== src/Messaging/Wipe.antt =====
-- crates/hysj-messaging/src/wipe.rs and crates/hysj-shared/src/dto/wipe.rs: commands to wipe a device,
-- pending until the device confirms. The new id and the clock are arguments.
pub mod Laws
use hysj.Base.{
  ℕ, zero, suc, Bool, true, false, Option, none, some, Bytes, List, [], ◌∷◌, ◌++◌, lit, ltb, ◌==◌,
  ok, panic,
}
use hysj.Crypto.Primitives.{Json}
use hysj.Messaging.Redis.{Redis, Run, lift, ◌>>=◌, ◌>>◌}

-- 30 * 24 * 60 * 60
abbrev pub wipe_ttl_seconds : ℕ
wipe_ttl_seconds = 2592000

pub data WipeType : Type 0 where
  all device conversation : WipeType

pub record WipeRequest : Type 0 where
  pub wipe_type : WipeType
  pub target_device_id : Option ℕ
  pub conversation_partner_id : Option ℕ

pub record WipeAckDto : Type 0 where
  pub wipe_id : Bytes
  pub device_id : ℕ

pub record PendingWipe : Type 0 where
  pub wipe_id : Bytes
  pub command : WipeRequest
  pub issued_at : ℕ

unfoldable pub wipe_key : Bytes → Bytes → Bytes
wipe_key device_id wipe_id = lit "wipe:" ++ (device_id ++ (lit ":" ++ wipe_id))

module _ ⦃r : Redis⦄ where
  unfoldable pub confirm_wipe : Bytes → Bytes → Run Bool
  confirm_wipe device_id wipe_id = do
    deleted ← r.del (wipe_key device_id wipe_id)
    lift (ok (ltb 0 deleted))

  -- The loop over the devices.
  unfoldable pub set_for : List Bytes → Bytes → Bytes → Run (Unit {0})
  set_for [] wipe_id serialized = lift (ok tt)
  set_for (device_id ∷ rest) wipe_id serialized = do
    r.set_ex (wipe_key device_id wipe_id) serialized wipe_ttl_seconds
    set_for rest wipe_id serialized

  module _ ⦃j : Json PendingWipe⦄ where
    unfoldable pub issue_wipe : List Bytes → WipeRequest → Bytes → ℕ → Run Bytes
    issue_wipe target_device_ids wipe_command wipe_id now = do
      let pending : PendingWipe = record {
        wipe_id = wipe_id;
        command = wipe_command;
        issued_at = now;
      }
      set_for target_device_ids wipe_id (j.to_vec pending)
      lift (ok wipe_id)

    -- The commands under the keys of a page; what does not decode is skipped.
    unfoldable pub read_keys : List Bytes → Run (List PendingWipe)
    read_keys [] = lift (ok [])
    read_keys (key ∷ keys) = do
      value ← r.get key
      rest ← read_keys keys
      elim value [
        | none ↦ lift (ok rest)
        | some bytes ↦ elim (j.from_slice bytes) [
          | none ↦ lift (ok rest)
          | some wipe ↦ lift (ok (wipe ∷ rest))
        ]
      ]

    -- One round for each page. Without a round left, which the source has no bound on, it panics.
    unfoldable pub wipe_rounds : ℕ → Bytes → ℕ → Run (List PendingWipe)
    wipe_rounds zero device_id cursor = lift panic
    wipe_rounds (suc rounds) device_id cursor = do
      (next_cursor, keys) ← r.scan cursor (wipe_key device_id (lit "*")) 100
      page ← read_keys keys
      elim (next_cursor == 0) [
        | true ↦ lift (ok page)
        | false ↦ do rest ← wipe_rounds rounds device_id next_cursor; lift (ok (page ++ rest))
      ]

    unfoldable pub get_pending_wipes : ℕ → Bytes → Run (List PendingWipe)
    get_pending_wipes rounds device_id = wipe_rounds rounds device_id 0
