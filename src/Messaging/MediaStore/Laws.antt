-- ===== src/Messaging/MediaStore/Laws.antt =====
-- What is stored is what the recipient gets, and it goes soon after.
use hysj.Base.{
  ℕ, ◌≤◌, ◌≡◌, ap, true, false, none, some, Bytes, bytes_eq, bytes_eq_refl, bytes_eq_ne, ◌++◌, lit,
  length, length-append, ok, arith,
}
use hysj.Crypto.Primitives.{Json}
use hysj.Messaging.Redis.{Redis, max_ttl}
use hysj.Messaging.MediaStore.{
  MediaMeta, media_key, meta_key, store_blob, store_meta, retrieve, mark_seen, retrieve_and_expire,
  get_meta, delete_blob,
}

-- The two keys of one id differ in length.
media_key_ne : (id : Bytes) → bytes_eq (media_key id) (meta_key id) ≡ false
unfolding media_key meta_key
media_key_ne id =
    bytes_eq_ne (media_key id) (meta_key id)
      (λ e. absurd (omega (arith, length-append id (lit ":meta"), ap length e)))

meta_key_ne : (id : Bytes) → bytes_eq (meta_key id) (media_key id) ≡ false
unfolding media_key meta_key
meta_key_ne id =
    bytes_eq_ne (meta_key id) (media_key id)
      (λ e. absurd (omega (arith, length-append id (lit ":meta"), ap length e)))

module _ ⦃r : Redis⦄ ⦃j : Json MediaMeta⦄ where
  -- On a connection that is up, with expiries in Redis's range: after a blob and its metadata are
  -- stored, both read back; retrieving the blob as seen gives it and leaves both with the short
  -- expiry; deleting then reports true, after which neither is there.
  pub retrieve-store :
      (id blob device : Bytes) (duration size ttl seen : ℕ) (c : r.Conn)
      → r.IsUp c
      → 1 ≤ ttl
      → ttl ≤ max_ttl
      → 1 ≤ seen
      → seen ≤ max_ttl
      → let meta : MediaMeta = record {
        recipient_device_id = device;
        duration_seconds = duration;
        blob_size = size;
      } in
        (c1 : r.Conn) × (c2 : r.Conn) × (c3 : r.Conn) × (c4 : r.Conn) × (store_blob id blob ttl c
          ≡ (c1, ok tt))
        × (store_meta id device duration size ttl c1 ≡ (c2, ok tt))
        × (retrieve id c2 ≡ (c2, ok (some blob)))
        × (get_meta id c2 ≡ (c2, ok (some meta)))
        × (retrieve_and_expire id seen c2 ≡ (c3, ok (some blob)))
        × (r.stored (media_key id) c3 ≡ some (blob, seen))
        × (r.stored (meta_key id) c3 ≡ some (j.to_vec meta, seen))
        × (delete_blob id c3 ≡ (c4, ok true))
        × (retrieve id c4 ≡ (c4, ok none))
        × (get_meta id c4 ≡ (c4, ok none))
  unfolding store_blob store_meta retrieve mark_seen retrieve_and_expire get_meta delete_blob
  retrieve-store id blob device duration size ttl seen c u l m l' m' =
      let k = media_key id in
      let q = meta_key id in
      let meta : MediaMeta = record {
        recipient_device_id = device;
        duration_seconds = duration;
        blob_size = size;
      } in
      let (c1, e1, u1, s1) = r.set_ex-stored k blob ttl c u l m in
      let (c2, e2, u2, s2) = r.set_ex-stored q (j.to_vec meta) ttl c1 u1 l m in
      let (cx, ex, ux, sx) = r.expire-stored k seen c2 u2 l' m' in
      let (c3, e3, u3, s3) = r.expire-stored q seen cx ux l' m' in
      let (c4, e4, u4, s4) = r.del_both-stored k q c3 u3 (media_key_ne id) in
      let k2 : r.stored k c2 ≡ some (blob, ttl) =
        ground (arith, s2 k, s1 k, bytes_eq_refl k, meta_key_ne id) in
      let q2 : r.stored q c2 ≡ some (j.to_vec meta, ttl) = ground (arith, s2 q, bytes_eq_refl q) in
      let k3 : r.stored k c3 ≡ some (blob, seen) =
        ground (arith, s3 k, sx k, bytes_eq_refl k, meta_key_ne id) in
      let q3 : r.stored q c3 ≡ some (j.to_vec meta, seen) =
        ground (arith, s3 q, sx q, bytes_eq_refl q, media_key_ne id) in
      let k4 : r.stored k c4 ≡ none = ground (arith, s4 k, bytes_eq_refl k) in
      let q4 : r.stored q c4 ≡ none = ground (arith, s4 q, bytes_eq_refl q, media_key_ne id) in
      (
        c1,
        c2,
        c3,
        c4,
        e1,
        e2,
        ground (arith, r.get-stored k c2 u2),
        ground (arith, r.get-stored q c2 u2, j.from_slice-to_vec meta),
        ground (arith, r.get-stored k c2 u2),
        k3,
        q3,
        ground arith,
        ground (arith, r.get-stored k c4 u4),
        ground (arith, r.get-stored q c4 u4),
      )

  -- On a connection that is up, with an expiry in Redis's range: the stored metadata of a medium is
  -- itself the blob of another id, the same with ":meta" appended.
  retrieve_of_meta :
      (id device : Bytes) (duration size ttl : ℕ) (c : r.Conn)
      → r.IsUp c
      → 1 ≤ ttl
      → ttl ≤ max_ttl
      → (c1 : r.Conn) × (store_meta id device duration size ttl c ≡ (c1, ok tt))
        × (retrieve (id ++ lit ":meta") c1 ≡ (
          c1,
          ok (
              some (
                j.to_vec (record {
                  recipient_device_id = device;
                  duration_seconds = duration;
                  blob_size = size;
                }))),
        ))
  unfolding store_meta retrieve media_key meta_key
  retrieve_of_meta id device duration size ttl c u l m =
      let meta : MediaMeta = record {
        recipient_device_id = device;
        duration_seconds = duration;
        blob_size = size;
      } in
      let q = meta_key id in
      let (c1, e1, u1, s1) = r.set_ex-stored q (j.to_vec meta) ttl c u l m in
      let here : r.stored q c1 ≡ some (j.to_vec meta, ttl) =
        ground (arith, s1 q, bytes_eq_refl q) in
      (c1, e1, ground (arith, r.get-stored q c1 u1))
