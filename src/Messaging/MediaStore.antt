-- ===== src/Messaging/MediaStore.antt =====
-- crates/hysj-messaging/src/media_store.rs: encrypted audio and files, with their metadata.
pub mod Laws
use hysj.Base.{ℕ, Bool, Option, none, some, Bytes, ◌++◌, lit, ltb, if◌then◌else◌, ok, or_fail}
use hysj.Crypto.Primitives.{Json}
use hysj.Messaging.Redis.{
  Redis, MessagingError, serialization_error, Run, is_some, lift, ◌>>=◌, ◌>>◌,
}

pub record MediaMeta : Type 0 where
  pub recipient_device_id : Bytes
  pub duration_seconds : ℕ
  pub blob_size : ℕ

unfoldable pub media_key : Bytes → Bytes
media_key media_id = lit "media:" ++ media_id

unfoldable pub meta_key : Bytes → Bytes
meta_key media_id = lit "media:" ++ (media_id ++ lit ":meta")

module _ ⦃r : Redis⦄ where
  unfoldable pub store_blob : Bytes → Bytes → ℕ → Run (Unit {0})
  store_blob media_id encrypted_blob ttl_seconds =
      r.set_ex (media_key media_id) encrypted_blob ttl_seconds

  -- The two EXPIRE commands.
  unfoldable pub mark_seen : Bytes → ℕ → Run (Unit {0})
  mark_seen media_id seen_ttl_seconds = do
    r.expire (media_key media_id) seen_ttl_seconds
    r.expire (meta_key media_id) seen_ttl_seconds

  unfoldable pub retrieve_and_expire : Bytes → ℕ → Run (Option Bytes)
  retrieve_and_expire media_id seen_ttl_seconds = do
    blob ← r.get (media_key media_id)
    if is_some blob
        then (do mark_seen media_id seen_ttl_seconds; lift (ok blob))
        else lift (ok blob)

  unfoldable pub retrieve : Bytes → Run (Option Bytes)
  retrieve media_id = r.get (media_key media_id)

  unfoldable pub delete_blob : Bytes → Run Bool
  delete_blob media_id = do
    deleted ← r.del_both (media_key media_id) (meta_key media_id)
    lift (ok (ltb 0 deleted))

  module _ ⦃j : Json MediaMeta⦄ where
    -- The object that `json!` builds has the fields of `MediaMeta`.
    unfoldable pub store_meta : Bytes → Bytes → ℕ → ℕ → ℕ → Run (Unit {0})
    store_meta media_id recipient_device_id duration_seconds blob_size ttl_seconds =
        let meta : MediaMeta = record {
          recipient_device_id = recipient_device_id;
          duration_seconds = duration_seconds;
          blob_size = blob_size;
        } in
        r.set_ex (meta_key media_id) (j.to_vec meta) ttl_seconds

    unfoldable pub get_meta : Bytes → Run (Option MediaMeta)
    get_meta media_id = do
      raw ← r.get (meta_key media_id)
      elim raw [
        | some json ↦ (do
          meta ← lift (or_fail (j.from_slice json) serialization_error)
          lift (ok (some meta)))
        | none ↦ lift (ok none)
      ]
