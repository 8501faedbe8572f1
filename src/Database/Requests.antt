-- ===== src/Database/Requests.antt =====
-- crates/hysj-db/src/contact_requests.rs. New ids and the clock come last.
use hysj.Base.{
  ℕ, Bool, true, false, ◌&&◌, ◌||◌, Option, none, some, List, [], ◌∷◌, ltb, ◌==◌, if◌then◌else◌, ok,
  err,
}
use hysj.Database.{DbError, query_failed, not_found, conflict, ContactRequest, Run}
use hysj.Database.Users.{is_user}
use hysj.Database.Contacts.{page}

-- WHERE id = $1 AND to_user_id = $2
abbrev pub is_for : ℕ → ℕ → ContactRequest → Bool
is_for request_id user_id q = q.id == request_id && q.to_user_id == user_id

unfoldable pub find_request : ℕ → ℕ → List ContactRequest → Option ContactRequest
find_request request_id user_id [] = none
find_request request_id user_id (q ∷ qs) =
    if is_for request_id user_id q then some q else find_request request_id user_id qs

-- A row with the new id, or between the two users.
unfoldable pub is_known : ℕ → ℕ → ℕ → List ContactRequest → Bool
is_known id from_user_id to_user_id [] = false
is_known id from_user_id to_user_id (q ∷ qs) =
    if q.id == id || (q.from_user_id == from_user_id && q.to_user_id == to_user_id)
    then true
    else is_known id from_user_id to_user_id qs

unfoldable pub send_request : ℕ → ℕ → ℕ → ℕ → Run DbError ContactRequest
send_request from_user_id to_user_id id now db =
    let request : ContactRequest = record {
      id = id;
      from_user_id = from_user_id;
      to_user_id = to_user_id;
      created_at = now;
    } in
    if is_known id from_user_id to_user_id db.contact_requests
    then (db, err conflict)
    else if is_user from_user_id db.users && is_user to_user_id db.users
    then (record db { contact_requests = request ∷ db.contact_requests }, ok request)
    else (db, err query_failed)

-- ORDER BY created_at DESC
unfoldable pub insert_latest : ContactRequest → List ContactRequest → List ContactRequest
insert_latest q [] = q ∷ []
insert_latest q (x ∷ xs) =
    let rest = insert_latest q xs in if ltb q.created_at x.created_at then x ∷ rest else q ∷ x ∷ xs

unfoldable pub requests_where : (ContactRequest → Bool) → List ContactRequest → List ContactRequest
requests_where p [] = []
requests_where p (q ∷ qs) =
    let rest = requests_where p qs in if p q then insert_latest q rest else rest

unfoldable pub get_pending : ℕ → Run DbError (List ContactRequest)
get_pending user_id db =
    (db, ok (requests_where (λ q. q.to_user_id == user_id) db.contact_requests))

unfoldable pub get_pending_paginated : ℕ → ℕ → ℕ → Run DbError (List ContactRequest)
get_pending_paginated user_id limit offset db =
    (db, ok (page limit offset (requests_where (λ q. q.to_user_id == user_id) db.contact_requests)))

unfoldable pub get_sent : ℕ → Run DbError (List ContactRequest)
get_sent user_id db = (db, ok (requests_where (λ q. q.from_user_id == user_id) db.contact_requests))

unfoldable pub delete_request : ℕ → ℕ → List ContactRequest → List ContactRequest
delete_request request_id user_id [] = []
delete_request request_id user_id (q ∷ qs) =
    let rest = delete_request request_id user_id qs in
    if is_for request_id user_id q then rest else q ∷ rest

unfoldable pub accept : ℕ → ℕ → Run DbError ContactRequest
accept request_id user_id db = elim (find_request request_id user_id db.contact_requests) [
  | none ↦ (db, err not_found)
  | some q ↦
      (record db { contact_requests = delete_request request_id user_id db.contact_requests }, ok q)
]

unfoldable pub reject : ℕ → ℕ → Run DbError (Unit {0})
reject request_id user_id db = elim (find_request request_id user_id db.contact_requests) [
  | none ↦ (db, err not_found)
  | some q ↦ (
    record db { contact_requests = delete_request request_id user_id db.contact_requests },
    ok tt,
  )
]
