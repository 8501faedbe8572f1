-- ===== src/Api/Contacts/Mutual.antt =====
-- crates/hysj-api/src/routes/contacts.rs and contact_requests.rs: accepting a request, and blocking.
use hysj.Base.{
  ℕ, ◌≡◌, refl, sym, subst, ap, ◌∙◌, Bool, true, false, ◌&&◌, Option, none, some, List, [], ◌∷◌,
  ◌==◌, ==_refl, if◌then◌else◌, ok, err, Bool-cases, Option-cases, inl, inr, arith,
}
use hysj.Database.{Contact, ContactRequest, Db}
use hysj.Database.Users.{is_user, find_user, has_id, taken, find_by_id}
use hysj.Database.Contacts
use hysj.Database.Contacts.{find_contact, is_contact, is_pair, new_contact, change}
use hysj.Database.Requests.{find_request, delete_request, accept}
use hysj.Api.Error.{internal}
use hysj.Api.Contacts.{try_add, accept_request, block_contact, unblock_contact, need_user}

-- The contact of a user, or the new one.
abbrev pub or_new : Option Contact → Contact → Option Contact
or_new none c = some c
or_new (some d) c = some d

-- Adding a contact that may be there leaves what is there.
find_contact-try_add :
    (u v now : ℕ) (db : Db)
    → is_user u db.users ≡ true
    → is_user v db.users ≡ true
    → (db' : Db) × (try_add u v now db ≡ (db', ok tt))
      × (db'.users ≡ db.users)
      × (db'.contact_requests ≡ db.contact_requests)
      × ((a b : ℕ)
          → find_contact a b db'.contacts ≡ (
              if u == a && v == b
              then or_new (find_contact u v db.contacts) (new_contact u v false now)
              else find_contact a b db.contacts))
unfolding try_add Contacts.add_contact
find_contact-try_add u v now db m n = elim (Option-cases (find_contact u v db.contacts)) [
  | inl e ↦ (
    record db { contacts = new_contact u v false now ∷ db.contacts },
    ground arith,
    refl,
    refl,
    λ a b. unfold find_contact in ground arith,
  )
  | inr (c, e) ↦ (
    db,
    ground arith,
    refl,
    refl,
    λ a b. elim (Bool-cases (u == a && v == b)) [
      | inl q ↦
          let same1 : u ≡ a = ground arith in
          let same2 : v ≡ b = ground arith in
          let found : find_contact a b db.contacts ≡ some c =
            subst (λ z. find_contact z b db.contacts ≡ some c) same1
              (subst (λ z. find_contact u z db.contacts ≡ some c) same2 e) in
          ground arith
      | inr q ↦ ground arith
    ],
  )
]

find_request-delete :
    (id user : ℕ) (qs : List ContactRequest)
    → find_request id user (delete_request id user qs) ≡ none
unfolding find_request delete_request
find_request-delete id user [] = refl
find_request-delete id user (q ∷ qs) = ground (arith, find_request-delete id user qs)

-- A request that is for the user, from another registered user, can be accepted: it is gone, and each of
-- the two has the other as a contact: a new one, or the one that was there, with its nickname and its
-- block; every other contact stays. A request that is not for the user cannot: nothing changes.
pub accept_request-ok :
    (user id now : ℕ) (db : Db)
    → is_user user db.users ≡ true
    → (find_request id user db.contact_requests ≡ none
        → accept_request user id now db ≡ (db, err internal))
      × ((r : ContactRequest)
          → find_request id user db.contact_requests ≡ some r
          → is_user r.from_user_id db.users ≡ true
          → (user == r.from_user_id) ≡ false
          → (db' : Db) × (accept_request user id now db ≡ (db', ok tt))
            × (find_request id user db'.contact_requests ≡ none)
            × ((a b : ℕ)
                → find_contact a b db'.contacts ≡ (
                    if user == a && r.from_user_id == b
                    then or_new
                        (find_contact user r.from_user_id db.contacts)
                        (new_contact user r.from_user_id false now)
                    else if r.from_user_id == a && user == b
                    then or_new
                        (find_contact r.from_user_id user db.contacts)
                        (new_contact r.from_user_id user false now)
                    else find_contact a b db.contacts)))
unfolding accept_request accept
accept_request-ok user id now db m = (
  (λ e. ground arith),
  λ r e n d.
      let f = r.from_user_id in
      let start : Db = record db {
        contact_requests = delete_request id user db.contact_requests;
      } in
      let (db1, p, us, qs, l) = find_contact-try_add user f now start m n in
      let (db2, p', us', qs', l') =
        find_contact-try_add f user now db1 (ap (is_user f) us ∙ n) (ap (is_user user) us ∙ m) in
      (
        db2,
        ground arith,
        ap (find_request id user) (qs' ∙ qs) ∙ find_request-delete id user db.contact_requests,
        λ a b. ground (arith, l' a b, l a b, l f user),
      ),
)

find_contact-change :
    (u v a b : ℕ) (blocked : Bool) (cs : List Contact)
    → find_contact a b (change u v (λ c. record c { is_blocked = blocked }) cs)
      ≡ elim (find_contact a b cs) [
        | none ↦ none
        | some c ↦ if u == a && v == b then some (record c { is_blocked = blocked }) else some c
      ]
unfolding find_contact change
find_contact-change u v a b blocked [] = refl
find_contact-change u v a b blocked (c ∷ cs) =
    ground (arith, find_contact-change u v a b blocked cs)

-- A registered user who is an unblocked contact of the user can be blocked and unblocked: in between the
-- contact is blocked and keeps its nickname, and afterwards every contact is as it was.
pub unblock_contact-block :
    (u v now : ℕ) (c : Contact) (db : Db)
    → taken (find_user (has_id v) db.users) ≡ true
    → find_contact u v db.contacts ≡ some c
    → c.is_blocked ≡ false
    → (db1 : Db) × (db2 : Db) × (block_contact u v now db ≡ (db1, ok tt))
      × (find_contact u v db1.contacts ≡ some (record c { is_blocked = true }))
      × (unblock_contact u v db1 ≡ (db2, ok tt))
      × ((a b : ℕ) → find_contact a b db2.contacts ≡ find_contact a b db.contacts)
unfolding block_contact unblock_contact need_user find_by_id Contacts.block_contact
    Contacts.unblock_contact Contacts.update
unblock_contact-block u v now c db t f k =
    let on = λ (z : Contact). record z { is_blocked = true } in
    let off = λ (z : Contact). record z { is_blocked = false } in
    let blocked = change u v on db.contacts in
    let here : find_contact u v blocked ≡ some (record c { is_blocked = true }) =
      ground (arith, find_contact-change u v u v true db.contacts, ==_refl u, ==_refl v) in
    (
      record db { contacts = blocked },
      record db { contacts = change u v off blocked },
      elim (Option-cases (find_user (has_id v) db.users)) [
        | inl e ↦ absurd (ground arith)
        | inr (w, e) ↦ ground arith
      ],
      here,
      ground arith,
      λ a b.
          let once = find_contact-change u v a b true db.contacts in
          let twice = find_contact-change u v a b false blocked in
          elim (Bool-cases (u == a && v == b)) [
            | inl q ↦
                let same1 : u ≡ a = ground arith in
                let same2 : v ≡ b = ground arith in
                let found : find_contact a b db.contacts ≡ some c =
                  subst (λ z. find_contact z b db.contacts ≡ some c) same1
                    (subst (λ z. find_contact u z db.contacts ≡ some c) same2 f) in
                let back : record c { is_blocked = false } ≡ c =
                  ap (λ z. record c { is_blocked = z }) (sym k) in
                let now_back : find_contact a b (change u v off blocked)
                    ≡ some (record c { is_blocked = false }) =
                  ground arith in
                now_back ∙ ap some back ∙ sym found
            | inr q ↦ elim (Option-cases (find_contact a b db.contacts)) [
              | inl e ↦ ground arith
              | inr (d, e) ↦ ground arith
            ]
          ],
    )
