-- ===== src/Database/Vpn/Counts.antt =====
-- crates/hysj-db/src/vpn.rs: the sessions and the connection counts stay in step.
use hysj.Base.{
  ℕ, ◌+◌, ◌≡◌, refl, sym, subst, Bool, true, false, not, ◌&&◌, none, some, List, [], ◌∷◌, ltb, ◌==◌,
  if◌then◌else◌, Bool-cases, Option-cases, inl, inr, arith, ==_refl,
}
use hysj.Database.{VpnSession}
use hysj.Database.Groups.{is_some}
use hysj.Database.Vpn.{find_session, end_rows, is_running, latest_active, count_by}

-- No two rows have one id.
abbrev pub DistinctSessions : List VpnSession → Type 0
DistinctSessions [] = Unit {0}
DistinctSessions (x ∷ xs) = (is_some (find_session x.id xs) ≡ false) × DistinctSessions xs

pub find_session-end :
    (id j now : ℕ) (xs : List VpnSession)
    → is_some (find_session j (end_rows id now xs)) ≡ is_some (find_session j xs)
unfolding find_session end_rows
find_session-end id j now [] = refl
find_session-end id j now (x ∷ xs) = ground (arith, find_session-end id j now xs)

pub end_rows-Distinct :
    (id now : ℕ) (xs : List VpnSession)
    → DistinctSessions xs
    → DistinctSessions (end_rows id now xs)
unfolding end_rows
end_rows-Distinct id now [] h = tt
end_rows-Distinct id now (x ∷ xs) (a, h) =
    elim (Bool-cases (x.id == id && not (is_some x.ended_at))) [
      | inl e ↦ ground (arith, find_session-end id x.id now xs, end_rows-Distinct id now xs h)
      | inr e ↦ ground (arith, find_session-end id x.id now xs, end_rows-Distinct id now xs h)
    ]

-- A row that is not there is not ended.
end_rows-absent :
    (id now : ℕ) (xs : List VpnSession)
    → is_some (find_session id xs) ≡ false
    → end_rows id now xs ≡ xs
unfolding find_session end_rows
end_rows-absent id now [] h = refl
end_rows-absent id now (x ∷ xs) h = ground (arith, end_rows-absent id now xs)

-- Ending a running session takes it from every count that it was in, and from no other.
pub count_by-end_rows :
    (p : ℕ → ℕ → Bool) (id now : ℕ) (xs : List VpnSession) (x : VpnSession)
    → DistinctSessions xs
    → find_session id xs ≡ some x
    → is_some x.ended_at ≡ false
    → count_by p xs ≡ (if p x.user_id x.server_id then 1 else 0) + count_by p (end_rows id now xs)
unfolding find_session end_rows count_by
count_by-end_rows p id now [] x d f o = absurd (ground arith)
count_by-end_rows p id now (y ∷ ys) x (a, d) f o = elim (Bool-cases (y.id == id)) [
  | inl q ↦
      let same : y ≡ x = ground arith in
      let e : y.id ≡ id = ground arith in
      let gone : end_rows id now ys ≡ ys =
        end_rows-absent id now ys (subst (λ z. is_some (find_session z ys) ≡ false) e a) in
      let running : is_some y.ended_at ≡ false =
        subst (λ (z : VpnSession). is_some z.ended_at ≡ false) (sym same) o in
      subst
        (λ (z : VpnSession).
          count_by p (y ∷ ys)
          ≡ (if p z.user_id z.server_id then 1 else 0) + count_by p (end_rows id now (y ∷ ys)))
        same (ground arith)
  | inr q ↦ ground (arith, count_by-end_rows p id now ys x d (ground arith) o)
]

pub find_session-end_rows :
    (id now : ℕ) (xs : List VpnSession) (x : VpnSession)
    → find_session id xs ≡ some x
    → is_some x.ended_at ≡ false
    → (is_running id xs ≡ true)
      × (find_session id (end_rows id now xs) ≡ some (record x { ended_at = some now }))
unfolding find_session end_rows is_running
find_session-end_rows id now [] x f o = absurd (ground arith)
find_session-end_rows id now (y ∷ ys) x f o = elim (Bool-cases (y.id == id)) [
  | inl q ↦
      let same : y ≡ x = ground arith in
      let running : is_some y.ended_at ≡ false =
        subst (λ (z : VpnSession). is_some z.ended_at ≡ false) (sym same) o in
      (
        ground arith,
        subst
            (λ (z : VpnSession).
              find_session id (end_rows id now (y ∷ ys)) ≡ some (record z { ended_at = some now }))
            same (ground arith),
      )
  | inr q ↦
      let (a, b) = find_session-end_rows id now ys x (ground arith) o in
      (ground arith, ground arith)
]

abbrev pub of_user : ℕ → ℕ → ℕ → Bool
of_user id user_id server_id = user_id == id

pub latest_active-none :
    (u : ℕ) (xs : List VpnSession) → latest_active u xs ≡ none → count_by (of_user u) xs ≡ 0
unfolding latest_active count_by
latest_active-none u [] h = refl
latest_active-none u (x ∷ xs) h = elim (Option-cases (latest_active u xs)) [
  | inl e ↦ ground (arith, latest_active-none u xs)
  | inr (y, e) ↦ ground arith
]

-- The session runs, is the user's, and is the row of its id.
abbrev pub RunsFor : ℕ → List VpnSession → VpnSession → Type 0
RunsFor u xs x =
    (is_some x.ended_at ≡ false) × ((x.user_id == u) ≡ true) × (find_session x.id xs ≡ some x)

RunsFor-head :
    (u : ℕ) (xs : List VpnSession) (x : VpnSession)
    → (x.user_id == u && not (is_some x.ended_at)) ≡ true
    → RunsFor u (x ∷ xs) x
unfolding find_session
RunsFor-head u xs x h = (ground arith, ground arith, ground (arith, ==_refl x.id))

RunsFor-tail :
    (u : ℕ) (xs : List VpnSession) (y x : VpnSession)
    → is_some (find_session y.id xs) ≡ false
    → RunsFor u xs x
    → RunsFor u (y ∷ xs) x
unfolding find_session
RunsFor-tail u xs y x a (o, v, f) = elim (Bool-cases (y.id == x.id)) [
  | inl q ↦
      let same : y.id ≡ x.id = ground arith in
      let gone : is_some (find_session x.id xs) ≡ false =
        subst (λ z. is_some (find_session z xs) ≡ false) same a in
      absurd (ground arith)
  | inr q ↦ (o, v, ground arith)
]

pub latest_active-some :
    (u : ℕ) (xs : List VpnSession) (x : VpnSession)
    → DistinctSessions xs
    → latest_active u xs ≡ some x
    → RunsFor u xs x
unfolding latest_active
latest_active-some u [] x d h = absurd (ground arith)
latest_active-some u (y ∷ ys) x (a, d) h =
    let head = RunsFor-head u ys y in
    let at_head : y ≡ x
        → (y.user_id == u && not (is_some y.ended_at)) ≡ true
        → RunsFor u (y ∷ ys) x =
      λ e t. subst (RunsFor u (y ∷ ys)) e (head t) in
    elim (Bool-cases (y.user_id == u && not (is_some y.ended_at))) [
      | inl b ↦ elim (Option-cases (latest_active u ys)) [
        | inl e ↦ at_head (ground arith) b
        | inr (z, e) ↦ elim (Bool-cases (ltb y.started_at z.started_at)) [
          | inl c ↦ RunsFor-tail u ys y x a (latest_active-some u ys x d (ground arith))
          | inr c ↦ at_head (ground arith) b
        ]
      ]
      | inr b ↦ RunsFor-tail u ys y x a (latest_active-some u ys x d (ground arith))
    ]
