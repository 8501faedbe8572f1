-- ===== src/Messaging/Queue/Drain.antt =====
-- Draining the queue of a device: what `dequeue_all` returns and leaves.
use hysj.Base.{
  ℕ, zero, suc, ◌≤◌, ◌≡◌, refl, sym, ap, subst, Bool, true, false, Option, none, some, Bytes,
  bytes_eq, bytes_eq-eq, List, [], ◌∷◌, ◌++◌, length, lit, if◌then◌else◌, ok, Option-cases, inl,
  inr, arith,
}
use hysj.Messaging.Redis.{Redis}
use hysj.Messaging.Queue.{
  QueuedMessage, id_of, message_key, dequeue_keys, dequeue_rounds, dequeue_all,
}

abbrev pub has : Bytes → List Bytes → Bool
has j [] = false
has j (k ∷ ks) = if bytes_eq k j then true else has j ks

pub has-append :
    (j : Bytes) (xs ys : List Bytes) → has j (xs ++ ys) ≡ (if has j xs then true else has j ys)
has-append j [] ys = refl
has-append j (x ∷ xs) ys = ground (arith, has-append j xs ys)

abbrev pub flatten : List (List Bytes) → List Bytes
flatten [] = []
flatten (page ∷ pages) = page ++ flatten pages

append_nil : (xs : List Bytes) → xs ++ [] ≡ xs
append_nil [] = refl
append_nil (x ∷ xs) = ap (◌∷◌ x) (append_nil xs)

module _ ⦃r : Redis⦄ where
  -- What is left of a store without some keys.
  abbrev pub without : List Bytes → r.Conn → Bytes → Option (Bytes × ℕ)
  without seen c j = if has j seen then none else r.stored j c

  -- The messages under the keys, in order, each once: a key that was seen counts no more.
  abbrev pub collect : Bytes → r.Conn → List Bytes → List Bytes → List QueuedMessage
  collect prefix c seen [] = []
  collect prefix c seen (key ∷ keys) =
      let rest = collect prefix c (key ∷ seen) keys in
      elim (without seen c key) [
        | none ↦ rest
        | some (bytes, ttl) ↦
            record { message_id = id_of prefix key; encrypted_blob = bytes } ∷ rest
      ]

  -- `c` is `start` without the keys that were seen.
  abbrev IsLeft : r.Conn → List Bytes → r.Conn → Type 0
  IsLeft start seen c = (j : Bytes) → r.stored j c ≡ without seen start j

  -- The keys of a page, read backwards onto those seen.
  abbrev onto : List Bytes → List Bytes → List Bytes
  onto [] seen = seen
  onto (key ∷ keys) seen = onto keys (key ∷ seen)

  dequeue_keys-collect :
      (prefix : Bytes) (keys : List Bytes) (start : r.Conn) (seen : List Bytes) (c : r.Conn)
      → r.IsUp c
      → IsLeft start seen c
      → (c' : r.Conn) × (dequeue_keys prefix keys c ≡ (c', ok (collect prefix start seen keys)))
        × r.IsUp c'
        × IsLeft start (onto keys seen) c'
  unfolding dequeue_keys
  dequeue_keys-collect prefix [] start seen c u l = (c, refl, u, l)
  dequeue_keys-collect prefix (key ∷ keys) start seen c u l =
      elim (Option-cases (without seen start key)) [
        | inl e ↦
            let next : IsLeft start (key ∷ seen) c = λ j. ground (arith, l j, bytes_eq-eq key j) in
            let (c', d, u', l') = dequeue_keys-collect prefix keys start (key ∷ seen) c u next in
            (c', ground (arith, r.get-stored key c u, l key), u', l')
        | inr ((bytes, ttl), e) ↦
            let (c1, x, u1, s1) = r.del-stored key c u in
            let next : IsLeft start (key ∷ seen) c1 = λ j. ground (arith, l j, s1 j) in
            let (c', d, u', l') = dequeue_keys-collect prefix keys start (key ∷ seen) c1 u1 next in
            (c', ground (arith, r.get-stored key c u, l key), u', l')
      ]

  onto-append : (xs ys seen : List Bytes) → onto (xs ++ ys) seen ≡ onto ys (onto xs seen)
  onto-append [] ys seen = refl
  onto-append (x ∷ xs) ys seen = onto-append xs ys (x ∷ seen)

  collect-append :
      (prefix : Bytes) (start : r.Conn) (seen xs ys : List Bytes)
      → collect prefix start seen (xs ++ ys)
        ≡ collect prefix start seen xs ++ collect prefix start (onto xs seen) ys
  collect-append prefix start seen [] ys = refl
  collect-append prefix start seen (x ∷ xs) ys = elim (Option-cases (without seen start x)) [
    | inl e ↦ ground (arith, collect-append prefix start (x ∷ seen) xs ys)
    | inr (b, e) ↦ ground (arith, collect-append prefix start (x ∷ seen) xs ys)
  ]

  has-onto :
      (j : Bytes) (xs seen : List Bytes)
      → has j (onto xs seen) ≡ (if has j xs then true else has j seen)
  has-onto j [] seen = refl
  has-onto j (x ∷ xs) seen = ground (arith, has-onto j xs (x ∷ seen))

  -- The pages that SCAN hands out from a cursor on, while the messages of each are taken: the cursor
  -- that comes back is 0 with the last page and only then.
  abbrev pub IsIteration : Bytes → ℕ → r.Conn → List (List Bytes) → Type 0
  IsIteration device cursor c [] = ⊥
  IsIteration device cursor c (keys ∷ []) =
      r.scan cursor (message_key device (lit "*")) 100 c ≡ (c, ok (0, keys))
  IsIteration device cursor c (keys ∷ (more ∷ pages)) =
      (next : ℕ) × (r.scan cursor (message_key device (lit "*")) 100 c ≡ (c, ok (suc next, keys)))
      × IsIteration device (suc next) (dequeue_keys (message_key device []) keys c).0 (more ∷ pages)

  dequeue_rounds-collect :
      (device : Bytes) (rounds cursor : ℕ) (pages : List (List Bytes)) (start : r.Conn)
      (seen : List Bytes) (c : r.Conn)
      → r.IsUp c
      → IsLeft start seen c
      → IsIteration device cursor c pages
      → length pages ≤ rounds
      → (c' : r.Conn) × (dequeue_rounds rounds device cursor c
          ≡ (c', ok (collect (message_key device []) start seen (flatten pages))))
        × r.IsUp c'
        × IsLeft start (onto (flatten pages) seen) c'
  unfolding dequeue_rounds
  dequeue_rounds-collect device rounds cursor [] start seen c u l i f = absurd i
  dequeue_rounds-collect device zero cursor (keys ∷ pages) start seen c u l i f =
      absurd (omega arith)
  dequeue_rounds-collect device (suc rounds) cursor (keys ∷ []) start seen c u l i f =
      let (c1, d, u1, l1) = dequeue_keys-collect (message_key device []) keys start seen c u l in
      let q = append_nil keys in
      (c1, ground arith, u1, subst (λ ks. IsLeft start (onto ks seen) c1) (sym q) l1)
  dequeue_rounds-collect device (suc rounds) cursor (keys ∷ (more ∷ pages)) start seen c u l
        (next, s, i) f =
      let (c1, d, u1, l1) = dequeue_keys-collect (message_key device []) keys start seen c u l in
      let (c2, e, u2, l2) =
        dequeue_rounds-collect device rounds (suc next) (more ∷ pages) start (onto keys seen) c1 u1
          l1 (subst (λ x. IsIteration device (suc next) x (more ∷ pages)) (ap (λ q. q.0) d) i)
          (omega arith) in
      (
        c2,
        ground (
          arith,
          collect-append (message_key device []) start seen keys (flatten (more ∷ pages)),
        ),
        u2,
        subst (λ ks. IsLeft start ks c2) (sym (onto-append keys (flatten (more ∷ pages)) seen)) l2,
      )

  pub dequeue_all-run :
      (device : Bytes) (rounds : ℕ) (pages : List (List Bytes)) (c : r.Conn)
      → r.IsUp c
      → IsIteration device 0 c pages
      → length pages ≤ rounds
      → (c' : r.Conn) × (dequeue_all rounds device c
          ≡ (c', ok (collect (message_key device []) c [] (flatten pages))))
        × r.IsUp c'
        × ((j : Bytes) → r.stored j c' ≡ (if has j (flatten pages) then none else r.stored j c))
  unfolding dequeue_all
  dequeue_all-run device rounds pages c u i f =
      let (c', e, v, l) = dequeue_rounds-collect device rounds 0 pages c [] c u (λ j. refl) i f in
      (c', e, v, λ j. ground (arith, l j, has-onto j (flatten pages) []))

  -- On a connection that is up, with as many rounds as SCAN hands out pages: `dequeue_all` returns
  -- the messages stored under the keys of the pages, in their order and each once, even if SCAN
  -- repeats a key; afterwards no key of the pages is stored and every other key is as it was.
  pub dequeue_all-collect :
      (device : Bytes) (rounds : ℕ) (pages : List (List Bytes)) (c : r.Conn)
      → r.IsUp c
      → IsIteration device 0 c pages
      → length pages ≤ rounds
      → (c' : r.Conn) × (dequeue_all rounds device c
          ≡ (c', ok (collect (message_key device []) c [] (flatten pages))))
        × ((j : Bytes) → r.stored j c' ≡ (if has j (flatten pages) then none else r.stored j c))
  dequeue_all-collect device rounds pages c u i f =
      let (c', e, v, l) = dequeue_all-run device rounds pages c u i f in (c', e, l)
