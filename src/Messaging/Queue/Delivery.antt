-- ===== src/Messaging/Queue/Delivery.antt =====
-- A stored message reaches the device that drains its queue.
use hysj.Base.{
  ℕ, ◌≤◌, ◌≡◌, ◌⊎◌, refl, sym, ap, subst, true, false, none, some, Bytes, bytes_eq, bytes_eq-eq,
  List, [], ◌∷◌, ◌++◌, length, lit, ok, Bool-cases, Option-cases, inl, inr, arith,
}
use hysj.Messaging.Redis.{Redis}
use hysj.Messaging.Queue.Drain.{has, flatten, without, collect, IsIteration, dequeue_all-collect}
use hysj.Messaging.Queue.{QueuedMessage, strip_prefix, id_of, message_key, dequeue_all}

-- One of the messages is `m`.
abbrev pub Returns : QueuedMessage → List QueuedMessage → Type 0
Returns m [] = ⊥
Returns m (n ∷ ns) = (n ≡ m) ⊎ Returns m ns

strip_prefix-append : (xs ys zs : Bytes) → strip_prefix (xs ++ ys) (xs ++ (ys ++ zs)) ≡ some zs
unfolding strip_prefix
strip_prefix-append [] [] zs = refl
strip_prefix-append [] (y ∷ ys) zs = ground (arith, strip_prefix-append [] ys zs)
strip_prefix-append (x ∷ xs) ys zs = ground (arith, strip_prefix-append xs ys zs)

id_of-message_key : (device id : Bytes) → id_of (message_key device []) (message_key device id) ≡ id
unfolding message_key strip_prefix
id_of-message_key device id = ground (arith, strip_prefix-append device (lit ":") id)

module _ ⦃r : Redis⦄ where
  collect-some :
      (prefix key bytes : Bytes) (ttl : ℕ) (start : r.Conn) (seen keys : List Bytes)
      → without seen start key ≡ some (bytes, ttl)
      → collect prefix start seen (key ∷ keys)
        ≡ record { message_id = id_of prefix key; encrypted_blob = bytes }
          ∷ collect prefix start (key ∷ seen) keys
  collect-some prefix key bytes ttl start seen keys e = ground arith

  collect-none :
      (prefix key : Bytes) (start : r.Conn) (seen keys : List Bytes)
      → without seen start key ≡ none
      → collect prefix start seen (key ∷ keys) ≡ collect prefix start (key ∷ seen) keys
  collect-none prefix key start seen keys e = ground arith

  pub Returns-collect :
      (prefix key bytes : Bytes) (ttl : ℕ) (start : r.Conn) (seen keys : List Bytes)
      → r.stored key start ≡ some (bytes, ttl)
      → has key seen ≡ false
      → has key keys ≡ true
      → Returns
          (record { message_id = id_of prefix key; encrypted_blob = bytes })
          (collect prefix start seen keys)
  Returns-collect prefix key bytes ttl start seen [] e n h = absurd (ground arith)
  Returns-collect prefix key bytes ttl start seen (k ∷ keys) e n h =
      elim (Bool-cases (bytes_eq k key)) [
        | inl q ↦
            let same : k ≡ key = bytes_eq-eq k key q in
            let here : without seen start k ≡ some (bytes, ttl) = ground arith in
            let m : QueuedMessage = record {
              message_id = id_of prefix key;
              encrypted_blob = bytes;
            } in
            subst (Returns m) (sym (collect-some prefix k bytes ttl start seen keys here))
              (inl (ap (λ x. record { message_id = id_of prefix x; encrypted_blob = bytes }) same))
        | inr q ↦
            let rest =
              Returns-collect prefix key bytes ttl start (k ∷ seen) keys e (ground arith)
                (ground arith) in
            let m : QueuedMessage = record {
              message_id = id_of prefix key;
              encrypted_blob = bytes;
            } in
            elim (Option-cases (without seen start k)) [
              | inl o ↦ subst (Returns m) (sym (collect-none prefix k start seen keys o)) rest
              | inr ((b, t), o) ↦
                  subst (Returns m) (sym (collect-some prefix k b t start seen keys o)) (inr rest)
            ]
      ]

  -- On a connection that is up, with as many rounds as SCAN hands out pages: a message that is
  -- stored for the device and whose key is in the pages, as SCAN promises for a key that is there
  -- all the time, is among those that `dequeue_all` returns, with its id, and it is gone afterwards.
  pub dequeue_all-Returns :
      (device id blob : Bytes) (ttl rounds : ℕ) (pages : List (List Bytes)) (c : r.Conn)
      → r.IsUp c
      → IsIteration device 0 c pages
      → length pages ≤ rounds
      → r.stored (message_key device id) c ≡ some (blob, ttl)
      → has (message_key device id) (flatten pages) ≡ true
      → (c' : r.Conn) × (messages : List QueuedMessage) × (dequeue_all rounds device c
          ≡ (c', ok messages))
        × Returns (record { message_id = id; encrypted_blob = blob }) messages
        × (r.stored (message_key device id) c' ≡ none)
  dequeue_all-Returns device id blob ttl rounds pages c u i f e h =
      let (c', d, l) = dequeue_all-collect device rounds pages c u i f in
      let found =
        Returns-collect (message_key device []) (message_key device id) blob ttl c []
          (flatten pages) e refl h in
      (
        c',
        collect (message_key device []) c [] (flatten pages),
        d,
        subst
            (λ x.
              Returns (record { message_id = x; encrypted_blob = blob })
                (collect (message_key device []) c [] (flatten pages)))
            (id_of-message_key device id) found,
        ground (arith, l (message_key device id)),
      )
