-- ===== src/Database/Vpn/Servers.antt =====
-- crates/hysj-db/src/vpn.rs: looking a server up, among all and among the active ones.
use hysj.Base.{
  ℕ, ◌≡◌, refl, sym, ap, subst, ◌∙◌, Bool, false, Option, none, some, List, [], ◌∷◌, ◌==◌,
  if◌then◌else◌, Bool-cases, Option-cases, inl, inr, arith,
}
use hysj.Database.{VpnServer}
use hysj.Database.Groups.{is_some}
use hysj.Database.Vpn.{insert_server, active_servers, find_server, set_connections}

-- No two rows have one id.
abbrev pub DistinctServers : List VpnServer → Type 0
DistinctServers [] = Unit {0}
DistinctServers (v ∷ vs) = (is_some (find_server v.id vs) ≡ false) × DistinctServers vs

pub find_server-id :
    (id : ℕ) (vs : List VpnServer) (v : VpnServer) → find_server id vs ≡ some v → v.id ≡ id
unfolding find_server
find_server-id id [] v h = absurd (ground arith)
find_server-id id (x ∷ xs) v h = elim (Bool-cases (x.id == id)) [
  | inl q ↦
      let same : x ≡ v = ground arith in
      let e : x.id ≡ id = ground arith in ap (λ (z : VpnServer). z.id) (sym same) ∙ e
  | inr q ↦ find_server-id id xs v (ground arith)
]

pub find_server-set :
    (id v : ℕ) (f : ℕ → ℕ) (vs : List VpnServer)
    → find_server v (set_connections id f vs) ≡ elim (find_server v vs) [
      | none ↦ none
      | some x ↦
          if id == v
          then some (record x { current_connections = f x.current_connections })
          else some x
    ]
unfolding find_server set_connections
find_server-set id v f [] = refl
find_server-set id v f (x ∷ xs) = ground (arith, find_server-set id v f xs)

pub set_connections-Distinct :
    (id : ℕ) (f : ℕ → ℕ) (vs : List VpnServer)
    → DistinctServers vs
    → DistinctServers (set_connections id f vs)
unfolding set_connections
set_connections-Distinct id f [] h = tt
set_connections-Distinct id f (v ∷ vs) (a, h) = elim (Bool-cases (v.id == id)) [
  | inl e ↦ ground (arith, find_server-set id v.id f vs, set_connections-Distinct id f vs h)
  | inr e ↦ ground (arith, find_server-set id v.id f vs, set_connections-Distinct id f vs h)
]

-- Where a row of the updated table comes from.
pub find_server-set_inv :
    (id v : ℕ) (f : ℕ → ℕ) (vs : List VpnServer) (y : VpnServer)
    → find_server v (set_connections id f vs) ≡ some y
    → (w : VpnServer) × (find_server v vs ≡ some w)
      × (y.max_connections ≡ w.max_connections)
      × (y.current_connections
          ≡ (if id == v then f w.current_connections else w.current_connections))
find_server-set_inv id v f vs y h = elim (Option-cases (find_server v vs)) [
  | inl e ↦ absurd (ground (arith, find_server-set id v f vs))
  | inr (w, e) ↦ elim (Bool-cases (id == v)) [
    | inl q ↦
        let same : record w { current_connections = f w.current_connections } ≡ y =
          ground (arith, find_server-set id v f vs) in
        (
          w,
          e,
          ap (λ (z : VpnServer). z.max_connections) (sym same),
          ap (λ (z : VpnServer). z.current_connections) (sym same) ∙ ground arith,
        )
    | inr q ↦
        let same : w ≡ y = ground (arith, find_server-set id v f vs) in
        (
          w,
          e,
          ap (λ (z : VpnServer). z.max_connections) (sym same),
          ap (λ (z : VpnServer). z.current_connections) (sym same) ∙ ground arith,
        )
  ]
]

-- Among the active servers, whatever their order, an id finds the row of the table, if it is active.
find_server-insert :
    (before : VpnServer → VpnServer → Bool) (id : ℕ) (v : VpnServer) (vs : List VpnServer)
    → is_some (find_server v.id vs) ≡ false
    → find_server id (insert_server before v vs)
      ≡ (if v.id == id then some v else find_server id vs)
unfolding find_server insert_server
find_server-insert before id v [] h = refl
find_server-insert before id v (x ∷ xs) h = elim (Bool-cases (before x v)) [
  | inl b ↦ elim (Bool-cases (x.id == id)) [
    | inl q ↦
        let same : x.id ≡ id = ground arith in
        let apart : (v.id == id) ≡ false = ground arith in
        ground (arith, find_server-insert before id v xs (ground arith))
    | inr q ↦ ground (arith, find_server-insert before id v xs (ground arith))
  ]
  | inr b ↦ ground arith
]

abbrev pub active_only : Option VpnServer → Option VpnServer
active_only none = none
active_only (some v) = if v.is_active then some v else none

pub find_server-active_servers :
    (before : VpnServer → VpnServer → Bool) (id : ℕ) (vs : List VpnServer)
    → DistinctServers vs
    → find_server id (active_servers before vs) ≡ active_only (find_server id vs)
unfolding find_server active_servers
find_server-active_servers before id [] d = refl
find_server-active_servers before id (v ∷ vs) (a, d) =
    let ih = find_server-active_servers before id vs d in
    let none_left : is_some (find_server v.id (active_servers before vs)) ≡ false =
      ground (arith, find_server-active_servers before v.id vs d) in
    elim (Bool-cases v.is_active) [
      | inl b ↦
          ground (arith, ih, find_server-insert before id v (active_servers before vs) none_left)
      | inr b ↦ elim (Bool-cases (v.id == id)) [
        | inl q ↦
            let same : v.id ≡ id = ground arith in
            let gone : is_some (find_server id vs) ≡ false =
              subst (λ z. is_some (find_server z vs) ≡ false) same a in
            ground (arith, ih)
        | inr q ↦ ground (arith, ih)
      ]
    ]
