-- ===== src/Messaging/Examples.antt =====
-- Runs of the model of crates/hysj-messaging on a small store.
use hysj.Base.{
  ◌≡◌, refl, true, false, none, some, Bytes, bytes_eq, List, [], ◌∷◌, if◌then◌else◌, lit, ok, arith,
}
use hysj.Messaging.Toy.{Store, toy_redis, meta_json, wipe_json, wipe_bytes}
use hysj.Messaging.Queue.{QueuedMessage, strip_prefix, message_key, dequeue_all}
use hysj.Messaging.Queue.Drain.{has, dequeue_all-collect}
use hysj.Messaging.Queue.Delivery.{Returns, dequeue_all-Returns}
use hysj.Messaging.Wipe.{WipeRequest, all, wipe_key, wipe_ttl_seconds, issue_wipe, confirm_wipe}
use hysj.Messaging.Wipe.Laws.{is_target, pending_of, confirm_wipe-issue_wipe}
use hysj.Messaging.MediaStore.{
  MediaMeta, media_key, meta_key, store_blob, store_meta, retrieve, retrieve_and_expire, get_meta,
  delete_blob,
}
use hysj.Messaging.MediaStore.Laws.{retrieve-store}

abbrev nothing : Store
nothing k = none

-- A queue of one message.
abbrev queued : Store
queued k = if bytes_eq (lit "msg:dev:m1") k then some (lit "x", 60) else none

abbrev meta : MediaMeta
meta = record { recipient_device_id = lit "dev"; duration_seconds = 7; blob_size = 3 }

retrieve-store_example :
    (c1 : Store) × (c2 : Store) × (c3 : Store) × (c4 : Store) × (store_blob
        (lit "a")
        (lit "xyz")
        60
        nothing
      ≡ (c1, ok tt))
    × (store_meta (lit "a") (lit "dev") 7 3 60 c1 ≡ (c2, ok tt))
    × (retrieve (lit "a") c2 ≡ (c2, ok (some (lit "xyz"))))
    × (get_meta (lit "a") c2 ≡ (c2, ok (some meta)))
    × (retrieve_and_expire (lit "a") 5 c2 ≡ (c3, ok (some (lit "xyz"))))
    × (toy_redis.stored (media_key (lit "a")) c3 ≡ some (lit "xyz", 5))
    × (toy_redis.stored (meta_key (lit "a")) c3 ≡ some (meta_json.to_vec meta, 5))
    × (delete_blob (lit "a") c3 ≡ (c4, ok true))
    × (retrieve (lit "a") c4 ≡ (c4, ok none))
    × (get_meta (lit "a") c4 ≡ (c4, ok none))
retrieve-store_example =
    retrieve-store (lit "a") (lit "xyz") (lit "dev") 7 3 60 5 nothing tt (omega arith) (omega arith)
      (omega arith) (omega arith)

-- SCAN reports the key twice.
abbrev twice : List Bytes
twice = lit "msg:dev:m1" ∷ lit "msg:dev:m1" ∷ []

dequeue_all-collect_example :
    (c' : Store) × (dequeue_all 1 (lit "dev") queued
      ≡ (c', ok (record { message_id = lit "m1"; encrypted_blob = lit "x" } ∷ [])))
    × ((j : Bytes) → c' j ≡ (if has j twice then none else queued j))
unfolding bytes_eq message_key strip_prefix
dequeue_all-collect_example =
    dequeue_all-collect (lit "dev") 1 (twice ∷ []) queued tt refl (omega arith)

dequeue_all-Returns_example :
    (c' : Store) × (messages : List QueuedMessage) × (dequeue_all 1 (lit "dev") queued
      ≡ (c', ok messages))
    × Returns (record { message_id = lit "m1"; encrypted_blob = lit "x" }) messages
    × (c' (message_key (lit "dev") (lit "m1")) ≡ none)
unfolding bytes_eq message_key
dequeue_all-Returns_example =
    dequeue_all-Returns (lit "dev") (lit "m1") (lit "x") 60 1 (twice ∷ []) queued tt refl
      (omega arith) refl refl

abbrev everything : WipeRequest
everything = record { wipe_type = all; target_device_id = none; conversation_partner_id = some 2 }

confirm_wipe-issue_wipe_example :
    (c1 : Store) × (c2 : Store) × (issue_wipe
        (lit "dev" ∷ lit "pad" ∷ [])
        everything
        (lit "w1")
        5
        nothing
      ≡ (c1, ok (lit "w1")))
    × ((k : Bytes)
        → c1 k ≡ (
            if is_target k (lit "w1") (lit "dev" ∷ lit "pad" ∷ [])
            then some (wipe_bytes (pending_of (lit "w1") everything 5), wipe_ttl_seconds)
            else nothing k))
    × (confirm_wipe (lit "pad") (lit "w1") c1 ≡ (c2, ok true))
    × ((k : Bytes) → c2 k ≡ (if bytes_eq (wipe_key (lit "pad") (lit "w1")) k then none else c1 k))
    × ((confirm_wipe (lit "pad") (lit "w1") c2).1 ≡ ok false)
unfolding bytes_eq wipe_key
confirm_wipe-issue_wipe_example =
    confirm_wipe-issue_wipe (lit "dev" ∷ lit "pad" ∷ []) (lit "pad") (lit "w1") everything 5 nothing
      tt refl

-- A device with one pending command.
abbrev waiting : Store
waiting k =
    if bytes_eq (lit "wipe:dev:w1") k
    then some (wipe_bytes (pending_of (lit "w1") everything 5), 60)
    else none
