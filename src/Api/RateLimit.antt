-- ===== src/Api/RateLimit.antt =====
-- crates/hysj-api/src/middleware/rate_limit.rs: the sliding-window rate limiter. An Instant is counted
-- from the earliest one, below which subtraction panics; the clock is an argument.
pub mod Window
use hysj.Base.{
  ℕ, ◌-◌, Bool, true, false, Option, none, some, Bytes, bytes_eq, List, [], ◌∷◌, ◌++◌, length, ltb,
  leb, ◌==◌, if◌then◌else◌, Result, ok, panic,
}

-- DashMap<String, Vec<Instant>>
abbrev pub Entries : Type 0
Entries = Bytes → Option (List ℕ)

abbrev pub or_default : Option (List ℕ) → List ℕ
or_default none = []
or_default (some ts) = ts

abbrev pub put : Bytes → List ℕ → Entries → Entries
put key ts entries k = if bytes_eq key k then some ts else entries k

unfoldable pub new : Entries
new k = none

-- `retain(|&t| t > cutoff)`
unfoldable pub retain_after : ℕ → List ℕ → List ℕ
retain_after cutoff [] = []
retain_after cutoff (t ∷ ts) =
    let rest = retain_after cutoff ts in if ltb cutoff t then t ∷ rest else rest

-- There is no error, only the panic of `now - window`.
unfoldable pub check_rate_limit : Bytes → ℕ → ℕ → ℕ → Entries → Entries × Result (Unit {0}) Bool
check_rate_limit key max_requests window now entries =
    if ltb now window
    then (entries, panic)
    else let entry = retain_after (now - window) (or_default (entries key)) in
      if leb max_requests (length entry)
      then (put key entry entries, ok false)
      else (put key (entry ++ now ∷ []) entries, ok true)

-- The closure of `cleanup`: an entry that is left empty goes.
abbrev pub clean_entry : ℕ → Option (List ℕ) → Option (List ℕ)
clean_entry cutoff none = none
clean_entry cutoff (some ts) =
    let timestamps = retain_after cutoff ts in
    if length timestamps == 0 then none else some timestamps

unfoldable pub cleanup : ℕ → ℕ → Entries → Entries × Result (Unit {0}) (Unit {0})
cleanup max_age now entries =
    if ltb now max_age
    then (entries, panic)
    else ((λ k. clean_entry (now - max_age) (entries k)), ok tt)
