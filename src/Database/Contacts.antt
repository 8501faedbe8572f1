-- ===== src/Database/Contacts.antt =====
-- crates/hysj-db/src/contacts.rs. The clock comes last.
use hysj.Base.{
  ℕ, zero, suc, Bool, true, false, ◌&&◌, Option, none, some, Bytes, List, [], ◌∷◌, ltb, ◌==◌,
  if◌then◌else◌, ok, err,
}
use hysj.Database.{DbError, query_failed, not_found, conflict, Contact, Run}
use hysj.Database.Users.{is_user}

abbrev pub is_pair : ℕ → ℕ → Contact → Bool
is_pair user_id contact_user_id c = c.user_id == user_id && c.contact_user_id == contact_user_id

unfoldable pub find_contact : ℕ → ℕ → List Contact → Option Contact
find_contact user_id contact_user_id [] = none
find_contact user_id contact_user_id (c ∷ cs) =
    if is_pair user_id contact_user_id c then some c else find_contact user_id contact_user_id cs

abbrev pub is_contact : Option Contact → Bool
is_contact none = false
is_contact (some c) = true

abbrev pub new_contact : ℕ → ℕ → Bool → ℕ → Contact
new_contact user_id contact_user_id is_blocked now = record {
  user_id = user_id;
  contact_user_id = contact_user_id;
  nickname = none;
  is_blocked = is_blocked;
  created_at = now;
}

unfoldable pub add_contact : ℕ → ℕ → ℕ → Run DbError Contact
add_contact user_id contact_user_id now db =
    let contact = new_contact user_id contact_user_id false now in
    if is_contact (find_contact user_id contact_user_id db.contacts)
    then (db, err conflict)
    else if is_user user_id db.users && is_user contact_user_id db.users
    then (record db { contacts = contact ∷ db.contacts }, ok contact)
    else (db, err query_failed)

-- UPDATE contacts SET … WHERE user_id = $1 AND contact_user_id = $2
unfoldable pub change : ℕ → ℕ → (Contact → Contact) → List Contact → List Contact
change user_id contact_user_id f [] = []
change user_id contact_user_id f (c ∷ cs) =
    let rest = change user_id contact_user_id f cs in
    if is_pair user_id contact_user_id c then f c ∷ rest else c ∷ rest

unfoldable pub update : ℕ → ℕ → (Contact → Contact) → Run DbError (Unit {0})
update user_id contact_user_id f db =
    if is_contact (find_contact user_id contact_user_id db.contacts)
    then (record db { contacts = change user_id contact_user_id f db.contacts }, ok tt)
    else (db, err not_found)

unfoldable pub set_nickname : ℕ → ℕ → Option Bytes → Run DbError (Unit {0})
set_nickname user_id contact_user_id nickname =
    update user_id contact_user_id (λ c. record c { nickname = nickname })

unfoldable pub unblock_contact : ℕ → ℕ → Run DbError (Unit {0})
unblock_contact user_id contact_user_id =
    update user_id contact_user_id (λ c. record c { is_blocked = false })

-- ON CONFLICT DO UPDATE SET is_blocked = true
unfoldable pub block_contact : ℕ → ℕ → ℕ → Run DbError (Unit {0})
block_contact user_id contact_user_id now db =
    let blocked = λ (c : Contact). record c { is_blocked = true } in
    if is_contact (find_contact user_id contact_user_id db.contacts)
    then (record db { contacts = change user_id contact_user_id blocked db.contacts }, ok tt)
    else if is_user user_id db.users && is_user contact_user_id db.users
    then (
      record db { contacts = new_contact user_id contact_user_id true now ∷ db.contacts },
      ok tt,
    )
    else (db, err query_failed)

-- ORDER BY created_at
unfoldable pub insert_by_time : Contact → List Contact → List Contact
insert_by_time c [] = c ∷ []
insert_by_time c (d ∷ ds) =
    let rest = insert_by_time c ds in if ltb d.created_at c.created_at then d ∷ rest else c ∷ d ∷ ds

unfoldable pub contacts_of : ℕ → List Contact → List Contact
contacts_of user_id [] = []
contacts_of user_id (c ∷ cs) =
    let rest = contacts_of user_id cs in
    if c.user_id == user_id then insert_by_time c rest else rest

unfoldable pub get_contacts : ℕ → Run DbError (List Contact)
get_contacts user_id db = (db, ok (contacts_of user_id db.contacts))

-- LIMIT $2 OFFSET $3, which are not negative here: the database refuses negative ones.
unfoldable pub page {ℓ} : {A : Type ℓ} → ℕ → ℕ → List A → List A
page zero zero xs = []
page zero (suc offset) xs = []
page (suc limit) zero [] = []
page (suc limit) zero (x ∷ xs) = x ∷ page limit zero xs
page (suc limit) (suc offset) [] = []
page (suc limit) (suc offset) (x ∷ xs) = page (suc limit) offset xs

unfoldable pub get_contacts_paginated : ℕ → ℕ → ℕ → Run DbError (List Contact)
get_contacts_paginated user_id limit offset db =
    (db, ok (page limit offset (contacts_of user_id db.contacts)))

unfoldable pub get_contact : ℕ → ℕ → Run DbError (Option Contact)
get_contact user_id contact_user_id db = (db, ok (find_contact user_id contact_user_id db.contacts))

unfoldable pub delete_row : ℕ → ℕ → List Contact → List Contact
delete_row user_id contact_user_id [] = []
delete_row user_id contact_user_id (c ∷ cs) =
    let rest = delete_row user_id contact_user_id cs in
    if is_pair user_id contact_user_id c then rest else c ∷ rest

unfoldable pub remove_contact : ℕ → ℕ → Run DbError (Unit {0})
remove_contact user_id contact_user_id db =
    if is_contact (find_contact user_id contact_user_id db.contacts)
    then (record db { contacts = delete_row user_id contact_user_id db.contacts }, ok tt)
    else (db, err not_found)
