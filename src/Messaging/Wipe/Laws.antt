-- ===== src/Messaging/Wipe/Laws.antt =====
-- A wipe command waits for every target until that target confirms it.
use hysj.Base.{
  ℕ, zero, suc, ◌≤◌, ◌≡◌, refl, ap, Bool, true, false, none, some, Bytes, bytes_eq, bytes_eq_refl,
  List, [], ◌∷◌, ◌++◌, length, lit, if◌then◌else◌, ok, Option-cases, inl, inr, arith,
}
use hysj.Crypto.Primitives.{Json}
use hysj.Messaging.Redis.{Redis}
use hysj.Messaging.Wipe.{
  PendingWipe, WipeRequest, wipe_key, wipe_ttl_seconds, set_for, issue_wipe, confirm_wipe,
  read_keys, wipe_rounds, get_pending_wipes,
}

-- `key` is that of one of the devices.
abbrev pub is_target : Bytes → Bytes → List Bytes → Bool
is_target key wipe_id [] = false
is_target key wipe_id (d ∷ ds) =
    if bytes_eq (wipe_key d wipe_id) key then true else is_target key wipe_id ds

append_none : (xs : List PendingWipe) → xs ++ [] ≡ xs
append_none [] = refl
append_none (x ∷ xs) = ap (◌∷◌ x) (append_none xs)

abbrev pub pending_of : Bytes → WipeRequest → ℕ → PendingWipe
pending_of wipe_id command now = record { wipe_id = wipe_id; command = command; issued_at = now }

module _ ⦃r : Redis⦄ ⦃j : Json PendingWipe⦄ where
  pub set_for-stored :
      (devices : List Bytes) (wipe_id bytes : Bytes) (c : r.Conn)
      → r.IsUp c
      → (c' : r.Conn) × (set_for devices wipe_id bytes c ≡ (c', ok tt))
        × r.IsUp c'
        × ((k : Bytes)
            → r.stored k c' ≡ (
                if is_target k wipe_id devices
                then some (bytes, wipe_ttl_seconds)
                else r.stored k c))
  unfolding set_for
  set_for-stored [] wipe_id bytes c u = (c, refl, u, λ k. refl)
  set_for-stored (d ∷ ds) wipe_id bytes c u =
      let (c1, e1, u1, s1) =
        r.set_ex-stored (wipe_key d wipe_id) bytes wipe_ttl_seconds c u (omega arith)
          (omega arith) in
      let (c', e, u', s) = set_for-stored ds wipe_id bytes c1 u1 in
      (c', ground arith, u', λ k. ground (arith, s k, s1 k))

  -- On a connection that is up: issuing a wipe stores the command for every target with its 30 days
  -- and changes no other key; when one of the targets confirms, it is told true, its command is gone
  -- and every other key is as it was; a second confirmation is told false.
  pub confirm_wipe-issue_wipe :
      (devices : List Bytes) (device wipe_id : Bytes) (command : WipeRequest) (now : ℕ) (c : r.Conn)
      → r.IsUp c
      → is_target (wipe_key device wipe_id) wipe_id devices ≡ true
      → (c1 : r.Conn) × (c2 : r.Conn) × (issue_wipe devices command wipe_id now c
          ≡ (c1, ok wipe_id))
        × ((k : Bytes)
            → r.stored k c1 ≡ (
                if is_target k wipe_id devices
                then some (j.to_vec (pending_of wipe_id command now), wipe_ttl_seconds)
                else r.stored k c))
        × (confirm_wipe device wipe_id c1 ≡ (c2, ok true))
        × ((k : Bytes)
            → r.stored k c2
              ≡ (if bytes_eq (wipe_key device wipe_id) k then none else r.stored k c1))
        × ((confirm_wipe device wipe_id c2).1 ≡ ok false)
  unfolding issue_wipe confirm_wipe
  confirm_wipe-issue_wipe devices device wipe_id command now c u t =
      let k = wipe_key device wipe_id in
      let bytes = j.to_vec (pending_of wipe_id command now) in
      let (c1, e1, u1, s1) = set_for-stored devices wipe_id bytes c u in
      let (c2, e2, u2, s2) = r.del-stored k c1 u1 in
      let (c3, e3, u3, s3) = r.del-stored k c2 u2 in
      let here : r.stored k c1 ≡ some (bytes, wipe_ttl_seconds) = ground (arith, s1 k) in
      let gone : r.stored k c2 ≡ none = ground (arith, s2 k, bytes_eq_refl k) in
      (c1, c2, ground arith, s1, ground arith, s2, ground arith)

  -- The commands under the keys, in order.
  abbrev pub decoded : r.Conn → List Bytes → List PendingWipe
  decoded c [] = []
  decoded c (key ∷ keys) =
      let rest = decoded c keys in
      elim (r.stored key c) [
        | none ↦ rest
        | some (bytes, ttl) ↦ elim (j.from_slice bytes) [ none ↦ rest | some wipe ↦ wipe ∷ rest ]
      ]

  abbrev pub flat : List (List Bytes) → List Bytes
  flat [] = []
  flat (page ∷ pages) = page ++ flat pages

  -- The pages that SCAN hands out from a cursor on, with no change in between.
  abbrev pub IsReading : Bytes → ℕ → r.Conn → List (List Bytes) → Type 0
  IsReading device cursor c [] = ⊥
  IsReading device cursor c (keys ∷ []) =
      r.scan cursor (wipe_key device (lit "*")) 100 c ≡ (c, ok (0, keys))
  IsReading device cursor c (keys ∷ (more ∷ pages)) =
      (next : ℕ) × (r.scan cursor (wipe_key device (lit "*")) 100 c ≡ (c, ok (suc next, keys)))
      × IsReading device (suc next) c (more ∷ pages)

  read_keys-decoded :
      (keys : List Bytes) (c : r.Conn) → r.IsUp c → read_keys keys c ≡ (c, ok (decoded c keys))
  unfolding read_keys
  read_keys-decoded [] c u = refl
  read_keys-decoded (key ∷ keys) c u = elim (Option-cases (r.stored key c)) [
    | inl e ↦ ground (arith, r.get-stored key c u, read_keys-decoded keys c u)
    | inr ((bytes, ttl), e) ↦ elim (Option-cases (j.from_slice bytes)) [
      | inl o ↦ ground (arith, r.get-stored key c u, read_keys-decoded keys c u)
      | inr (w, o) ↦ ground (arith, r.get-stored key c u, read_keys-decoded keys c u)
    ]
  ]

  decoded-append :
      (c : r.Conn) (xs ys : List Bytes) → decoded c (xs ++ ys) ≡ decoded c xs ++ decoded c ys
  decoded-append c [] ys = refl
  decoded-append c (x ∷ xs) ys = elim (Option-cases (r.stored x c)) [
    | inl e ↦ ground (arith, decoded-append c xs ys)
    | inr ((bytes, ttl), e) ↦ elim (Option-cases (j.from_slice bytes)) [
      | inl o ↦ ground (arith, decoded-append c xs ys)
      | inr (w, o) ↦ ground (arith, decoded-append c xs ys)
    ]
  ]

  wipe_rounds-decoded :
      (device : Bytes) (rounds cursor : ℕ) (pages : List (List Bytes)) (c : r.Conn)
      → r.IsUp c
      → IsReading device cursor c pages
      → length pages ≤ rounds
      → wipe_rounds rounds device cursor c ≡ (c, ok (decoded c (flat pages)))
  unfolding wipe_rounds
  wipe_rounds-decoded device rounds cursor [] c u i f = absurd i
  wipe_rounds-decoded device zero cursor (keys ∷ pages) c u i f = absurd (omega arith)
  wipe_rounds-decoded device (suc rounds) cursor (keys ∷ []) c u i f = ground (
    arith,
    read_keys-decoded keys c u,
    read_keys-decoded (keys ++ []) c u,
    decoded-append c keys [],
    append_none (decoded c keys),
  )
  wipe_rounds-decoded device (suc rounds) cursor (keys ∷ (more ∷ pages)) c u (next, s, i) f =
      ground (
        arith,
        read_keys-decoded keys c u,
        decoded-append c keys (flat (more ∷ pages)),
        wipe_rounds-decoded device rounds (suc next) (more ∷ pages) c u i (omega arith),
      )

  -- On a connection that is up, with as many rounds as SCAN hands out pages: a device gets the
  -- commands that are stored under the keys of the pages and decode, in order, and nothing changes.
  pub get_pending_wipes-decoded :
      (device : Bytes) (rounds : ℕ) (pages : List (List Bytes)) (c : r.Conn)
      → r.IsUp c
      → IsReading device 0 c pages
      → length pages ≤ rounds
      → get_pending_wipes rounds device c ≡ (c, ok (decoded c (flat pages)))
  unfolding get_pending_wipes
  get_pending_wipes-decoded device rounds pages c u i f =
      wipe_rounds-decoded device rounds 0 pages c u i f
