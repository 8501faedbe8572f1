-- ===== src/Database/Select.antt =====
-- Rows of a table, for statements about what the operations of crates/hysj-db find and leave.
use hysj.Base.{
  ℕ, ◌≤◌, ◌≡◌, refl, sym, subst, Bool, true, false, not, ◌&&◌, Option, none, some, List, [], ◌∷◌,
  map, ltb, leb, ◌==◌, if◌then◌else◌, Bool-cases, inl, inr, arith,
}
use mathlib.Core.List.{Mem, mem-cons_self, mem-cons_of_mem}
use hysj.Database.{User, Device, PreKey}
use hysj.Database.Users.{find_user}
use hysj.Database.Devices.{last_active, delete_row, delete_pre_keys}
use hysj.Database.Keys.{older, oldest, mark_used}

-- The rows that pass a test, in their order.
unfoldable pub select {ℓ} : {A : Type ℓ} → (A → Bool) → List A → List A
select p [] = []
select p (a ∷ others) = let rest = select p others in if p a then a ∷ rest else rest

abbrev pub All {ℓ κ} : {A : Type ℓ} → (A → Type κ) → List A → Type κ
All P [] = Unit
All P (a ∷ others) = P a × All P others

All-map {ℓ κ} :
    {A : Type ℓ} (P Q : A → Type κ) (xs : List A) → ((a : A) → P a → Q a) → All P xs → All Q xs
All-map P Q [] f h = tt
All-map P Q (x ∷ xs) f (h, hs) = (f x h, All-map P Q xs f hs)

-- The rows of a user's device, of a user, and of a device.
abbrev pub is_of : ℕ → ℕ → Device → Bool
is_of owner id d = d.id == id && d.user_id == owner

abbrev pub is_owned_by : ℕ → Device → Bool
is_owned_by owner d = d.user_id == owner

abbrev pub is_key_of : ℕ → PreKey → Bool
is_key_of id k = k.device_id == id

-- A key of the device that was not handed out.
abbrev pub is_free : ℕ → PreKey → Bool
is_free id k = k.device_id == id && not k.is_used

abbrev pub unflagged : PreKey → PreKey
unflagged k = record k { is_used = false }

-- What was found among the rows: one of them, unless there is none, that is no worse than any.
abbrev pub Found {ℓ} : {A : Type ℓ} → (A → A → Type 0) → List A → Option A → Type ℓ
Found NoWorse rows none = rows ≡ []
Found NoWorse rows (some a) = Mem a rows × All (NoWorse a) rows

pub select-delete_row :
    (user id owner e : ℕ) (ds : List Device)
    → select (is_of owner e) (delete_row id user ds)
      ≡ (if id == e && user == owner then [] else select (is_of owner e) ds)
unfolding select delete_row
select-delete_row user id owner e [] = ground arith
select-delete_row user id owner e (d ∷ ds) = ground (arith, select-delete_row user id owner e ds)

pub select-delete_pre_keys :
    (id e : ℕ) (ks : List PreKey)
    → select (is_key_of e) (delete_pre_keys id ks)
      ≡ (if id == e then [] else select (is_key_of e) ks)
unfolding select delete_pre_keys
select-delete_pre_keys id e [] = ground arith
select-delete_pre_keys id e (k ∷ ks) = ground (arith, select-delete_pre_keys id e ks)

pub select-mark_used :
    (e id : ℕ) (ks : List PreKey)
    → select (is_free e) (mark_used id ks) ≡ select (λ k. is_free e k && not (k.id == id)) ks
unfolding select mark_used
select-mark_used e id [] = refl
select-mark_used e id (k ∷ ks) = ground (arith, select-mark_used e id ks)

pub map-mark_used : (id : ℕ) (ks : List PreKey) → map unflagged (mark_used id ks) ≡ map unflagged ks
unfolding mark_used
map-mark_used id [] = refl
map-mark_used id (k ∷ ks) = ground (arith, map-mark_used id ks)

-- A search by `if`: either way something is found among what is kept.
Found-if {ℓ} :
    {A : Type ℓ} (NoWorse : A → A → Type 0) (b : Bool) (a : A) (rows : List A) (here o : Option A)
    → Found NoWorse (a ∷ rows) here
    → Found NoWorse rows o
    → Found NoWorse (if b then a ∷ rows else rows) (if b then here else o)
Found-if NoWorse true a rows here o h g = h
Found-if NoWorse false a rows here o h g = g

All-any {ℓ} : {A : Type ℓ} (xs : List A) → All (λ x. Unit {0}) xs
All-any [] = tt
All-any (x ∷ xs) = (tt, All-any xs)

-- The user found is one that passes.
pub find_user-Found :
    (p : User → Bool) (us : List User) → Found (λ u v. Unit {0}) (select p us) (find_user p us)
unfolding select find_user
find_user-Found p [] = refl
find_user-Found p (u ∷ us) =
    Found-if (λ v w. Unit {0}) (p u) u (select p us) (some u) (find_user p us)
      (mem-cons_self, (tt, All-any (select p us))) (find_user-Found p us)

abbrev NoLater : Device → Device → Type 0
NoLater d e = e.last_active_at ≤ d.last_active_at

abbrev later : Device → Option Device → Option Device
later d none = some d
later d (some e) = if ltb d.last_active_at e.last_active_at then some e else some d

later-Found :
    (d : Device) (rows : List Device) (o : Option Device)
    → Found NoLater rows o
    → Found NoLater (d ∷ rows) (later d o)
later-Found d rows none h = (mem-cons_self, (omega arith, subst (All (NoLater d)) (sym h) tt))
later-Found d rows (some e) (m, a) = elim (Bool-cases (ltb d.last_active_at e.last_active_at)) [
  | inl q ↦
      subst (λ b. Found NoLater (d ∷ rows) (if b then some e else some d)) (sym q)
        (mem-cons_of_mem d m, (ground arith, a))
  | inr q ↦
      let more : e.last_active_at ≤ d.last_active_at = ground arith in
      subst (λ b. Found NoLater (d ∷ rows) (if b then some e else some d)) (sym q)
        (mem-cons_self, (omega arith, All-map (NoLater e) (NoLater d) rows (λ x h. omega arith) a))
]

-- The device found is one of the user's that was active last.
pub last_active-Found :
    (user : ℕ) (ds : List Device)
    → Found
        (λ d e. e.last_active_at ≤ d.last_active_at)
        (select (is_owned_by user) ds)
        (last_active user ds)
unfolding select last_active
last_active-Found user [] = refl
last_active-Found user (d ∷ ds) =
    let rows = select (is_owned_by user) ds in
    Found-if NoLater (d.user_id == user) d rows (later d (last_active user ds))
      (last_active user ds) (later-Found d rows (last_active user ds) (last_active-Found user ds))
      (last_active-Found user ds)

abbrev NoOlder : PreKey → PreKey → Type 0
NoOlder k m = k.id ≤ m.id

older-Found :
    (k : PreKey) (rows : List PreKey) (o : Option PreKey)
    → Found NoOlder rows o
    → Found NoOlder (k ∷ rows) (some (older k o))
older-Found k rows none h = (mem-cons_self, (omega arith, subst (All (NoOlder k)) (sym h) tt))
older-Found k rows (some m) (e, a) = elim (Bool-cases (leb k.id m.id)) [
  | inl q ↦
      let less : k.id ≤ m.id = ground arith in
      subst (λ b. Found NoOlder (k ∷ rows) (some (if b then k else m))) (sym q)
        (mem-cons_self, (omega arith, All-map (NoOlder m) (NoOlder k) rows (λ x h. omega arith) a))
  | inr q ↦
      subst (λ b. Found NoOlder (k ∷ rows) (some (if b then k else m))) (sym q)
        (mem-cons_of_mem k e, (ground arith, a))
]

-- The key found is the device's oldest free one.
pub oldest-Found :
    (device : ℕ) (ks : List PreKey)
    → Found (λ k m. k.id ≤ m.id) (select (is_free device) ks) (oldest device ks)
unfolding select oldest
oldest-Found device [] = refl
oldest-Found device (k ∷ ks) =
    let rows = select (is_free device) ks in
    Found-if NoOlder (is_free device k) k rows (some (older k (oldest device ks)))
      (oldest device ks) (older-Found k rows (oldest device ks) (oldest-Found device ks))
      (oldest-Found device ks)
