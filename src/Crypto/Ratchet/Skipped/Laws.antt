-- ===== src/Crypto/Ratchet/Skipped/Laws.antt =====
-- The cache of skipped keys: its invariant, and what an insertion and a removal change.
use hysj.Base.{
  ℕ, ◌≤◌, ◌≡◌, refl, ◌∙◌, true, false, none, some, Bytes, bytes_eq-eq, bytes_eq_refl, List, [], ◌∷◌,
  ◌++◌, length, if◌then◌else◌, arith,
}
use hysj.Crypto.Ratchet.Skipped.{
  SkippedKey, SkippedKeys, max_skipped_keys, key_eq, lookup, put, remove, retain_ne, new, take_key,
  len,
}

pub key_eq-eq : (j k : SkippedKey) → key_eq j k ≡ true → j ≡ k
unfolding key_eq
key_eq-eq (a, m) (b, n) h = ground (arith, bytes_eq-eq a b)

pub key_eq_refl : (k : SkippedKey) → key_eq k k ≡ true
unfolding key_eq
key_eq_refl (a, m) = ground (arith, bytes_eq_refl a)

key_eq_sym : (j k : SkippedKey) → key_eq j k ≡ key_eq k j
key_eq_sym j k = ground (arith, key_eq-eq j k, key_eq-eq k j, key_eq_refl j)

abbrev pub names : List (SkippedKey × Bytes) → List SkippedKey
names [] = []
names ((k, v) ∷ m) = k ∷ names m

-- `k` is not in the list.
abbrev pub Absent : SkippedKey → List SkippedKey → Type 0
Absent k [] = Unit {0}
Absent k (j ∷ js) = (key_eq j k ≡ false) × Absent k js

abbrev pub Distinct : List SkippedKey → Type 0
Distinct [] = Unit {0}
Distinct (k ∷ ks) = Absent k ks × Distinct ks

-- The order lists each stored key once, and the cache holds at most 1000.
pub record IsValid (s : SkippedKeys) : Type 0 where
  pub tracked : names s.keys ≡ s.insertion_order
  pub distinct : Distinct s.insertion_order
  pub bounded : len s ≤ max_skipped_keys

pub lookup-Absent :
    (k : SkippedKey) (m : List (SkippedKey × Bytes)) → Absent k (names m) → lookup k m ≡ none
unfolding lookup
lookup-Absent k [] h = refl
lookup-Absent k ((j, v) ∷ m) h = ground (arith, lookup-Absent k m h.1)

pub Absent-of_lookup :
    (k : SkippedKey) (m : List (SkippedKey × Bytes)) → lookup k m ≡ none → Absent k (names m)
unfolding lookup
Absent-of_lookup k [] h = tt
Absent-of_lookup k ((j, v) ∷ m) h = ground (arith, Absent-of_lookup k m)

pub lookup-put :
    (k j : SkippedKey) (v : Bytes) (m : List (SkippedKey × Bytes))
    → lookup j (put k v m) ≡ (if key_eq k j then some v else lookup j m)
unfolding lookup put
lookup-put k j v [] = refl
lookup-put k j v ((i, w) ∷ m) =
    ground (arith, key_eq-eq i k, key_eq-eq k j, key_eq-eq i j, key_eq_refl k, lookup-put k j v m)

pub names-put_old :
    (k : SkippedKey) (v w : Bytes) (m : List (SkippedKey × Bytes))
    → lookup k m ≡ some w
    → names (put k v m) ≡ names m
unfolding lookup put
names-put_old k v w [] h = cc
names-put_old k v w ((i, u) ∷ m) h = ground (arith, names-put_old k v w m)

names-put_new :
    (k : SkippedKey) (v : Bytes) (m : List (SkippedKey × Bytes))
    → Absent k (names m)
    → names (put k v m) ≡ names m ++ k ∷ []
unfolding put
names-put_new k v [] h = refl
names-put_new k v ((i, u) ∷ m) h = ground (arith, names-put_new k v m h.1)

length-names : (m : List (SkippedKey × Bytes)) → length (names m) ≡ length m
length-names [] = refl
length-names ((k, v) ∷ m) = omega (arith, length-names m)

pub Absent-snoc :
    (i k : SkippedKey) (l : List SkippedKey)
    → key_eq k i ≡ false
    → Absent i l
    → Absent i (l ++ k ∷ [])
Absent-snoc i k [] e h = (e, tt)
Absent-snoc i k (j ∷ js) e h = (h.0, Absent-snoc i k js e h.1)

pub Distinct-snoc :
    (k : SkippedKey) (ks : List SkippedKey) → Absent k ks → Distinct ks → Distinct (ks ++ k ∷ [])
Distinct-snoc k [] a d = (tt, tt)
Distinct-snoc k (j ∷ js) a d =
    (Absent-snoc j k js (key_eq_sym k j ∙ a.0) d.0, Distinct-snoc k js a.1 d.1)

retain_ne-Absent : (k : SkippedKey) (ks : List SkippedKey) → Absent k ks → retain_ne k ks ≡ ks
unfolding retain_ne
retain_ne-Absent k [] h = refl
retain_ne-Absent k (j ∷ js) h = ground (arith, retain_ne-Absent k js h.1)

-- Both containers lose the same key.
names-remove :
    (k : SkippedKey) (m : List (SkippedKey × Bytes))
    → Distinct (names m)
    → names (remove k m) ≡ retain_ne k (names m)
unfolding remove retain_ne
names-remove k [] d = refl
names-remove k ((j, v) ∷ m) d =
    ground (arith, names-remove k m d.1, key_eq-eq j k, retain_ne-Absent j (names m) d.0)

Absent-retain_ne :
    (i k : SkippedKey) (ks : List SkippedKey) → Absent i ks → Absent i (retain_ne k ks)
unfolding retain_ne
Absent-retain_ne i k [] h = tt
Absent-retain_ne i k (j ∷ js) h = ground (arith, Absent-retain_ne i k js h.1)

Distinct-retain_ne :
    (k : SkippedKey) (ks : List SkippedKey) → Distinct ks → Distinct (retain_ne k ks)
unfolding retain_ne
Distinct-retain_ne k [] d = tt
Distinct-retain_ne k (j ∷ js) d =
    ground (arith, Distinct-retain_ne k js d.1, Absent-retain_ne j k js d.0)

length-remove-le : (k : SkippedKey) (m : List (SkippedKey × Bytes)) → length (remove k m) ≤ length m
unfolding remove
length-remove-le k [] = omega arith
length-remove-le k ((j, v) ∷ m) = ground (arith, length-remove-le k m)

pub lookup-remove_self :
    (k : SkippedKey) (m : List (SkippedKey × Bytes))
    → Distinct (names m)
    → lookup k (remove k m) ≡ none
unfolding lookup remove
lookup-remove_self k [] d = refl
lookup-remove_self k ((j, v) ∷ m) d =
    ground (arith, lookup-remove_self k m d.1, key_eq-eq j k, lookup-Absent j m d.0)

pub lookup-remove_ne :
    (k j : SkippedKey) (m : List (SkippedKey × Bytes))
    → key_eq k j ≡ false
    → lookup j (remove k m) ≡ lookup j m
unfolding lookup remove
lookup-remove_ne k j [] h = refl
lookup-remove_ne k j ((i, v) ∷ m) h =
    ground (arith, lookup-remove_ne k j m h, key_eq-eq i k, key_eq-eq i j, key_eq_refl k)

pub new-IsValid : IsValid new
unfolding new len
new-IsValid = record { tracked = refl; distinct = tt; bounded = omega arith }

-- Taking a key keeps the invariant.
pub take_key-IsValid :
    (s : SkippedKeys) (hex : Bytes) (n : ℕ) → IsValid s → IsValid (take_key s hex n).0
unfolding take_key len
take_key-IsValid s hex n v = ground (
  arith,
  names-remove (hex, n) s.keys,
  Distinct-retain_ne (hex, n) s.insertion_order v.distinct,
  length-remove-le (hex, n) s.keys,
)
