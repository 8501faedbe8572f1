-- ===== src/Api/Contacts/Examples.antt =====
-- Runs of the model of crates/hysj-api/src/routes/contacts.rs and contact_requests.rs.
use hysj.Base.{
  ℕ, ◌≡◌, refl, true, false, ◌&&◌, none, some, [], ◌∷◌, lit, ◌==◌, if◌then◌else◌, ok, err,
}
use hysj.Database.{ContactRequest, Db, empty_db}
use hysj.Database.Users.{is_user, find_user, account}
use hysj.Database.Contacts.{find_contact, new_contact}
use hysj.Database.Requests.{find_request}
use hysj.Api.Error.{internal}
use hysj.Api.Contacts.{accept_request, block_contact, unblock_contact}
use hysj.Api.Contacts.Mutual.{or_new, accept_request-ok, unblock_contact-block}

-- User 2 has asked user 1, and has user 1 as a contact.
abbrev db : Db
db = record empty_db {
  users = account 1 ∷ account 2 ∷ [];
  contacts = record (new_contact 2 1 false 0) { nickname = some (lit "al") } ∷ [];
  contact_requests = record { id = 5; from_user_id = 2; to_user_id = 1; created_at = 3 } ∷ [];
}

accept_request-ok_example :
    (find_request 5 1 db.contact_requests ≡ none → accept_request 1 5 9 db ≡ (db, err internal))
    × ((r : ContactRequest)
        → find_request 5 1 db.contact_requests ≡ some r
        → is_user r.from_user_id db.users ≡ true
        → (1 == r.from_user_id) ≡ false
        → (db' : Db) × (accept_request 1 5 9 db ≡ (db', ok tt))
          × (find_request 5 1 db'.contact_requests ≡ none)
          × ((a b : ℕ)
              → find_contact a b db'.contacts ≡ (
                  if 1 == a && r.from_user_id == b
                  then or_new
                      (find_contact 1 r.from_user_id db.contacts)
                      (new_contact 1 r.from_user_id false 9)
                  else if r.from_user_id == a && 1 == b
                  then or_new
                      (find_contact r.from_user_id 1 db.contacts)
                      (new_contact r.from_user_id 1 false 9)
                  else find_contact a b db.contacts)))
unfolding is_user
accept_request-ok_example = accept_request-ok 1 5 9 db refl

unblock_contact-block_example :
    (db1 : Db) × (db2 : Db) × (block_contact 2 1 9 db ≡ (db1, ok tt))
    × (find_contact 2 1 db1.contacts
        ≡ some (record (new_contact 2 1 true 0) { nickname = some (lit "al") }))
    × (unblock_contact 2 1 db1 ≡ (db2, ok tt))
    × ((a b : ℕ) → find_contact a b db2.contacts ≡ find_contact a b db.contacts)
unfolding find_user find_contact
unblock_contact-block_example =
    unblock_contact-block 2 1 9 (record (new_contact 2 1 false 0) { nickname = some (lit "al") }) db
      refl refl refl
