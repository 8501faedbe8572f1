-- ===== src/Crypto/Ratchet/Skipped/Insert.antt =====
-- Insertion into the cache of skipped keys, and the use of a key once.
use hysj.Base.{
  ℕ, suc, ◌+◌, ◌≤◌, ◌<◌, ◌≡◌, refl, ap, none, some, Bytes, List, [], ◌∷◌, ◌++◌, length,
  length-append, leb, if◌then◌else◌, arith, Option-cases, inl, inr,
}
use hysj.Crypto.Ratchet.Skipped.{
  SkippedKey, SkippedKeys, max_skipped_keys, key_eq, lookup, put, remove, evict, is_some, insert,
  take_key, len,
}
use hysj.Crypto.Ratchet.Skipped.Laws.{
  IsValid, Absent, Distinct, names, key_eq_refl, Absent-of_lookup, lookup-put, names-put_old,
  Distinct-snoc, lookup-remove_self,
}

-- With room the loop does nothing; at the bound it drops the oldest entry and stops.
evict_room :
    (m : List (SkippedKey × Bytes)) → length m < max_skipped_keys → evict m (names m) ≡ (m, names m)
unfolding evict
evict_room [] h = refl
evict_room ((k, v) ∷ m) h = ground arith

evict_full :
    (k : SkippedKey) (v : Bytes) (m : List (SkippedKey × Bytes))
    → suc (length m) ≡ max_skipped_keys
    → evict ((k, v) ∷ m) (k ∷ names m) ≡ (m, names m)
unfolding evict remove
evict_full k v m h = ground (arith, key_eq_refl k, evict_room m)

abbrev pub tail_of {ℓ} : {A : Type ℓ} → List A → List A
tail_of [] = []
tail_of (x ∷ xs) = xs

-- A bounded first-in-first-out map, with the entries in the order of insertion: an old key keeps its
-- place, and a new one goes to the end, for which the first entry gives way if there is no room.
pub bounded_put : SkippedKey → Bytes → List (SkippedKey × Bytes) → List (SkippedKey × Bytes)
bounded_put k v m =
    if is_some (lookup k m)
    then put k v m
    else (if leb max_skipped_keys (length m) then tail_of m else m) ++ (k, v) ∷ []

put_new :
    (k : SkippedKey) (v : Bytes) (m : List (SkippedKey × Bytes))
    → Absent k (names m)
    → put k v m ≡ m ++ (k, v) ∷ []
unfolding put
put_new k v [] h = refl
put_new k v ((j, w) ∷ m) h = ground (arith, put_new k v m h.1)

names-append :
    (m : List (SkippedKey × Bytes)) (k : SkippedKey) (v : Bytes)
    → names (m ++ (k, v) ∷ []) ≡ names m ++ k ∷ []
names-append [] k v = refl
names-append ((j, w) ∷ m) k v = ap (◌∷◌ j) (names-append m k v)

length-put_old :
    (k : SkippedKey) (v w : Bytes) (m : List (SkippedKey × Bytes))
    → lookup k m ≡ some w
    → length (put k v m) ≡ length m
unfolding lookup put
length-put_old k v w [] h = cc
length-put_old k v w ((j, u) ∷ m) h = ground (arith, length-put_old k v w m)

-- The eviction loop, given a valid cache and a key that it does not hold.
evict-tail :
    (m : List (SkippedKey × Bytes))
    → length m ≤ max_skipped_keys
    → let kept = if leb max_skipped_keys (length m) then tail_of m else m in
      evict m (names m) ≡ (kept, names kept)
evict-tail [] h = evict_room [] (omega arith)
evict-tail ((k, v) ∷ m) h = ground (arith, evict_full k v m, evict_room ((k, v) ∷ m))

Distinct-tail : (m : List (SkippedKey × Bytes)) → Distinct (names m) → Distinct (names (tail_of m))
Distinct-tail [] d = tt
Distinct-tail ((k, v) ∷ m) d = d.1

-- The entries that stay when a new key comes in.
abbrev kept : List (SkippedKey × Bytes) → List (SkippedKey × Bytes)
kept m = if leb max_skipped_keys (length m) then tail_of m else m

kept-facts :
    (k : SkippedKey) (m : List (SkippedKey × Bytes))
    → length m ≤ max_skipped_keys
    → Absent k (names m)
    → Distinct (names m)
    → Absent k (names (kept m)) × Distinct (names (kept m)) × (length (kept m) < max_skipped_keys)
kept-facts k [] h a d = (tt, tt, omega arith)
kept-facts k ((j, v) ∷ m) h a d = ground arith

insert_old :
    (s : SkippedKeys) (hex : Bytes) (n : ℕ) (key : Bytes) {w : Bytes}
    → lookup (hex, n) s.keys ≡ some w
    → insert s hex n key ≡ record s { keys = put (hex, n) key s.keys }
unfolding insert
insert_old s hex n key e = ground arith

insert_new :
    (m : List (SkippedKey × Bytes)) (hex : Bytes) (n : ℕ) (key : Bytes)
    → length m ≤ max_skipped_keys
    → Distinct (names m)
    → lookup (hex, n) m ≡ none
    → insert (record { keys = m; insertion_order = names m }) hex n key ≡ record {
      keys = kept m ++ ((hex, n), key) ∷ [];
      insertion_order = names (kept m) ++ (hex, n) ∷ [];
    }
unfolding insert
insert_new m hex n key h d e =
    rw (e, evict-tail m h)
      (rw (
        put_new (hex, n) key (kept m)
          (kept-facts (hex, n) m h (Absent-of_lookup (hex, n) m e) d).0))

-- On a valid cache, `insert` is the bounded first-in-first-out map: the stored entries are those of
-- `bounded_put`, and the order lists their keys.
pub insert-bounded_put :
    (s : SkippedKeys) (hex : Bytes) (n : ℕ) (key : Bytes)
    → IsValid s
    → ((insert s hex n key).keys ≡ bounded_put (hex, n) key s.keys)
      × ((insert s hex n key).insertion_order ≡ names (bounded_put (hex, n) key s.keys))
unfolding bounded_put len
insert-bounded_put s hex n key v = elim (Option-cases (lookup (hex, n) s.keys)) [
  | inl e ↦
      ground (arith, insert_new s.keys hex n key v.bounded, names-append (kept s.keys) (hex, n) key)
  | inr (w, e) ↦ ground (arith, insert_old s hex n key e, names-put_old (hex, n) key w s.keys e)
]

-- Inserting a key into a valid cache, with eviction where it is full, leaves a valid cache: its
-- order lists each stored key once, and it holds at most 1000.
pub insert-IsValid :
    (s : SkippedKeys) (hex : Bytes) (n : ℕ) (key : Bytes) → IsValid s → IsValid (insert s hex n key)
unfolding len
insert-IsValid s hex n key v = elim (Option-cases (lookup (hex, n) s.keys)) [
  | inl e ↦
      let facts = kept-facts (hex, n) s.keys v.bounded (Absent-of_lookup (hex, n) s.keys e) in
      ground (
        arith,
        facts,
        insert_new s.keys hex n key v.bounded,
        names-append (kept s.keys) (hex, n) key,
        length-append (kept s.keys) (((hex, n), key) ∷ []),
        Distinct-snoc (hex, n) (names (kept s.keys)),
      )
  | inr (w, e) ↦ ground (
    arith,
    insert_old s hex n key e,
    names-put_old (hex, n) key w s.keys e,
    length-put_old (hex, n) key w s.keys e,
  )
]

-- While there is room, an insertion changes the lookup of its own key only, and adds at most one entry.
pub insert_room :
    (s : SkippedKeys) (hex : Bytes) (n : ℕ) (key : Bytes) (j : SkippedKey)
    → IsValid s
    → len s < max_skipped_keys
    → (lookup j (insert s hex n key).keys
        ≡ (if key_eq (hex, n) j then some key else lookup j s.keys))
      × (len (insert s hex n key) ≤ len s + 1)
unfolding len
insert_room s hex n key j v h = elim (Option-cases (lookup (hex, n) s.keys)) [
  | inl e ↦ ground (
    arith,
    insert_new s.keys hex n key v.bounded,
    put_new (hex, n) key s.keys (Absent-of_lookup (hex, n) s.keys e),
    lookup-put (hex, n) j key s.keys,
    length-append s.keys (((hex, n), key) ∷ []),
  )
  | inr (w, e) ↦ ground (
    arith,
    insert_old s hex n key e,
    lookup-put (hex, n) j key s.keys,
    length-put_old (hex, n) key w s.keys e,
  )
]

lookup-insert_self :
    (s : SkippedKeys) (hex : Bytes) (n : ℕ) (key : Bytes)
    → IsValid s
    → lookup (hex, n) (insert s hex n key).keys ≡ some key
unfolding len
lookup-insert_self s hex n key v = elim (Option-cases (lookup (hex, n) s.keys)) [
  | inl e ↦
      let facts = kept-facts (hex, n) s.keys v.bounded (Absent-of_lookup (hex, n) s.keys e) in
      ground (
        arith,
        facts,
        insert_new s.keys hex n key v.bounded,
        put_new (hex, n) key (kept s.keys),
        lookup-put (hex, n) (hex, n) key (kept s.keys),
        key_eq_refl (hex, n),
      )
  | inr (w, e) ↦ ground (
    arith,
    insert_old s hex n key e,
    lookup-put (hex, n) (hex, n) key s.keys,
    key_eq_refl (hex, n),
  )
]

pub take_key-some :
    (s : SkippedKeys) (hex : Bytes) (n : ℕ) {key : Bytes}
    → Distinct (names s.keys)
    → lookup (hex, n) s.keys ≡ some key
    → ((take_key s hex n).1 ≡ some key) × (lookup (hex, n) (take_key s hex n).0.keys ≡ none)
unfolding take_key
take_key-some s hex n d e = ground (arith, lookup-remove_self (hex, n) s.keys d)

pub take_key-none :
    (s : SkippedKeys) (hex : Bytes) (n : ℕ)
    → lookup (hex, n) s.keys ≡ none
    → take_key s hex n ≡ (s, none)
unfolding take_key
take_key-none s hex n e = ground arith

-- A key that was just inserted into a valid cache is handed out once: the first `take` returns it,
-- the next one returns nothing and changes nothing.
take_key-insert :
    (s : SkippedKeys) (hex : Bytes) (n : ℕ) (key : Bytes)
    → IsValid s
    → let (left, taken) = take_key (insert s hex n key) hex n in
      (taken ≡ some key) × (take_key left hex n ≡ (left, none))
take_key-insert s hex n key v =
    let w = insert-IsValid s hex n key v in
    let t = insert s hex n key in
    let d : Distinct (names t.keys) = rw w.tracked w.distinct in
    let (e, gone) = take_key-some t hex n d (lookup-insert_self s hex n key v) in
    (e, take_key-none (take_key t hex n).0 hex n gone)
