-- ===== src/Database/Keys/Claims.antt =====
-- A one-time pre-key is handed out once.
use hysj.Base.{
  ℕ, ◌+◌, ◌≡◌, ◌↔◌, ltb, refl, sym, subst, Bool, true, false, ◌&&◌, none, some, Bytes, List, [],
  ◌∷◌, ◌++◌, length, ◌==◌, if◌then◌else◌, ok, Option-cases, inl, inr, arith,
}
use hysj.Database.{PreKey, Db}
use hysj.Database.Groups.{is_some}
use hysj.Database.Devices.{find_device}
use hysj.Database.Keys.{
  insert_pre_key, store_loop, store_pre_keys, oldest, mark_used, claim_one_time_pre_key, count_rows,
  count_available_pre_keys,
}

-- Every row of this id is used.
abbrev used : ℕ → List PreKey → Bool
used id [] = true
used id (k ∷ ks) = let rest = used id ks in if k.id == id then k.is_used && rest else rest

used-mark_used : (id : ℕ) (ks : List PreKey) → used id (mark_used id ks) ≡ true
unfolding mark_used
used-mark_used id [] = refl
used-mark_used id (k ∷ ks) = ground (arith, used-mark_used id ks)

used_stays : (id j : ℕ) (ks : List PreKey) → used id ks ≡ true → used id (mark_used j ks) ≡ true
unfolding mark_used
used_stays id j [] h = refl
used_stays id j (k ∷ ks) h = ground (arith, used_stays id j ks)

oldest-unused :
    (id device : ℕ) (ks : List PreKey) (m : PreKey)
    → used id ks ≡ true
    → oldest device ks ≡ some m
    → (m.id == id) ≡ false
unfolding oldest
oldest-unused id device [] m h e = cc
oldest-unused id device (k ∷ ks) m h e = elim (Option-cases (oldest device ks)) [
  | inl o ↦ ground arith
  | inr (n, o) ↦ ground (arith, oldest-unused id device ks n)
]

-- Claims for some devices, one after the other, and the keys that were found.
unfoldable pub claim_many : List ℕ → Db → Db × List PreKey
unfolding claim_one_time_pre_key
claim_many [] db = (db, [])
claim_many (device ∷ devices) db =
    let next = claim_many devices (claim_one_time_pre_key device db).0 in
    elim (claim_one_time_pre_key device db).1 [ ok (some k) ↦ (next.0, k ∷ next.1) | _ ↦ next ]

claim_many-none :
    (device : ℕ) (devices : List ℕ) (db : Db)
    → oldest device db.pre_keys ≡ none
    → (claim_many (device ∷ devices) db).1 ≡ (claim_many devices db).1
unfolding claim_many claim_one_time_pre_key
claim_many-none device devices db e = ground arith

claim_many-some :
    (device : ℕ) (devices : List ℕ) (db : Db) (k : PreKey)
    → oldest device db.pre_keys ≡ some k
    → (claim_many (device ∷ devices) db).1
      ≡ record k { is_used = true }
        ∷ (claim_many devices (record db { pre_keys = mark_used k.id db.pre_keys })).1
unfolding claim_many claim_one_time_pre_key
claim_many-some device devices db k e = ground arith

-- No key of the list has this id.
abbrev pub NoneOf : ℕ → List PreKey → Type 0
NoneOf id [] = Unit {0}
NoneOf id (k ∷ ks) = ((k.id == id) ≡ false) × NoneOf id ks

abbrev pub DistinctIds : List PreKey → Type 0
DistinctIds [] = Unit {0}
DistinctIds (k ∷ ks) = NoneOf k.id ks × DistinctIds ks

-- A used id stays used, and is not handed out again.
claim_many-NoneOf :
    (devices : List ℕ) (db : Db) (id : ℕ)
    → used id db.pre_keys ≡ true
    → NoneOf id (claim_many devices db).1
unfolding claim_many claim_one_time_pre_key
claim_many-NoneOf [] db id h = tt
claim_many-NoneOf (device ∷ devices) db id h = elim (Option-cases (oldest device db.pre_keys)) [
  | inl e ↦
      subst (NoneOf id) (sym (claim_many-none device devices db e))
        (claim_many-NoneOf devices db id h)
  | inr (k, e) ↦ subst (NoneOf id) (sym (claim_many-some device devices db k e)) (
    oldest-unused id device db.pre_keys k h e,
    claim_many-NoneOf devices _ id (used_stays id k.id db.pre_keys h),
  )
]

-- Whatever devices ask for, in whatever order, no one-time pre-key is handed out twice.
pub claim_many-DistinctIds : (devices : List ℕ) (db : Db) → DistinctIds (claim_many devices db).1
unfolding claim_many claim_one_time_pre_key
claim_many-DistinctIds [] db = tt
claim_many-DistinctIds (device ∷ devices) db = elim (Option-cases (oldest device db.pre_keys)) [
  | inl e ↦
      subst DistinctIds (sym (claim_many-none device devices db e))
        (claim_many-DistinctIds devices db)
  | inr (k, e) ↦ subst DistinctIds (sym (claim_many-some device devices db k e)) (
    claim_many-NoneOf devices _ k.id (used-mark_used k.id db.pre_keys),
    claim_many-DistinctIds devices _,
  )
]

count_rows-append :
    (device : ℕ) (xs ys : List PreKey)
    → count_rows device (xs ++ ys) ≡ count_rows device xs + count_rows device ys
unfolding count_rows
count_rows-append device [] ys = omega arith
count_rows-append device (x ∷ xs) ys = ground (arith, count_rows-append device xs ys)

pub store_loop-count :
    (device : ℕ) (keys : List Bytes) (now count : ℕ) (db : Db)
    → is_some (find_device device db.devices) ≡ true
    → (db' : Db) × (store_loop device keys now count db ≡ (db', ok (count + length keys)))
      × (count_rows device db'.pre_keys ≡ count_rows device db.pre_keys + length keys)
unfolding store_loop insert_pre_key count_rows
store_loop-count device [] now count db h = (db, ground arith, ground arith)
store_loop-count device (key ∷ keys) now count db h =
    let new : PreKey = record {
      id = db.next_pre_key_id;
      device_id = device;
      public_key = key;
      is_used = false;
      created_at = now;
    } in
    let db1 : Db = record db {
      pre_keys = db.pre_keys ++ new ∷ [];
      next_pre_key_id = db.next_pre_key_id + 1;
    } in
    let (db', e, c) = store_loop-count device keys now (count + 1) db1 h in
    (db', ground arith, ground (arith, count_rows-append device db.pre_keys (new ∷ [])))

-- Storing keys for a known device reports their number, and that many more are available for it.
pub store_pre_keys-count :
    (device : ℕ) (keys : List Bytes) (now : ℕ) (db : Db)
    → is_some (find_device device db.devices) ≡ true
    → (db' : Db) × (before : ℕ) × (store_pre_keys device keys now db ≡ (db', ok (length keys)))
      × (count_available_pre_keys device db ≡ (db, ok before))
      × (count_available_pre_keys device db' ≡ (db', ok (before + length keys)))
unfolding store_pre_keys count_available_pre_keys
store_pre_keys-count device keys now db h =
    let (db', e, c) = store_loop-count device keys now 0 db h in
    (db', count_rows device db.pre_keys, ground arith, refl, ground arith)

is_some-oldest :
    (device : ℕ) (ks : List PreKey) → is_some (oldest device ks) ≡ ltb 0 (count_rows device ks)
unfolding oldest count_rows
is_some-oldest device [] = refl
is_some-oldest device (k ∷ ks) = ground (arith, is_some-oldest device ks)

-- A claim finds no key exactly if the count of available keys of the device is 0.
pub claim_none-count :
    (device : ℕ) (db : Db)
    → ((claim_one_time_pre_key device db).1 ≡ ok none)
      ↔ ((count_available_pre_keys device db).1 ≡ ok 0)
unfolding claim_one_time_pre_key count_available_pre_keys
claim_none-count device db = elim (Option-cases (oldest device db.pre_keys)) [
  | inl e ↦ ground (arith, is_some-oldest device db.pre_keys)
  | inr (k, e) ↦ ground (arith, is_some-oldest device db.pre_keys)
]
