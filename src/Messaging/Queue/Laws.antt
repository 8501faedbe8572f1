-- ===== src/Messaging/Queue/Laws.antt =====
-- A message is queued once, and deleted once.
use hysj.Base.{ℕ, ◌≤◌, ◌≡◌, false, none, some, Bytes, bytes_eq, bytes_eq_refl, ok, arith}
use hysj.Messaging.Redis.{Redis, max_ttl, is_some}
use hysj.Messaging.Queue.{message_key, enqueue, delete_message}

module _ ⦃r : Redis⦄ where
  -- On a connection that is up, with an expiry in Redis's range: a message that is not queued yet is
  -- stored with its expiry and no other key changes; the same message sent again, whatever its blob
  -- and expiry, is accepted and changes nothing.
  enqueue_twice :
      (device id blob blob' : Bytes) (ttl ttl' : ℕ) (c : r.Conn)
      → r.IsUp c
      → 1 ≤ ttl
      → ttl ≤ max_ttl
      → r.stored (message_key device id) c ≡ none
      → (c' : r.Conn) × (enqueue device id blob ttl c ≡ (c', ok tt))
        × (r.stored (message_key device id) c' ≡ some (blob, ttl))
        × ((j : Bytes) → bytes_eq (message_key device id) j ≡ false → r.stored j c' ≡ r.stored j c)
        × (enqueue device id blob' ttl' c' ≡ (c', ok tt))
  unfolding enqueue
  enqueue_twice device id blob blob' ttl ttl' c u l m h =
      let k = message_key device id in
      let (c', e, u', s) = r.set_ex-stored k blob ttl c u l m in
      let here : r.stored k c' ≡ some (blob, ttl) = ground (arith, s k, bytes_eq_refl k) in
      (
        c',
        ground (arith, r.exists-stored k c u),
        here,
        λ j n. ground (arith, s j),
        ground (arith, r.exists-stored k c' u'),
      )

  -- On a connection that is up: deleting a message reports whether it was queued, leaves it not
  -- queued and every other key as it was; deleting it again reports false.
  pub delete_message_twice :
      (device id : Bytes) (c : r.Conn)
      → r.IsUp c
      → (c' : r.Conn) × (delete_message device id c
          ≡ (c', ok (is_some (r.stored (message_key device id) c))))
        × (r.stored (message_key device id) c' ≡ none)
        × ((j : Bytes) → bytes_eq (message_key device id) j ≡ false → r.stored j c' ≡ r.stored j c)
        × ((delete_message device id c').1 ≡ ok false)
  unfolding delete_message
  delete_message_twice device id c u =
      let k = message_key device id in
      let (c', e, u', s) = r.del-stored k c u in
      let gone : r.stored k c' ≡ none = ground (arith, s k, bytes_eq_refl k) in
      let (c'', e', u'', s') = r.del-stored k c' u' in
      (c', ground arith, gone, λ j n. ground (arith, s j), ground arith)
