-- ===== src/Api/RateLimit/Window.antt =====
-- Over any run, the limiter counts exactly the requests that it allowed in the window.
use hysj.Base.{
  ℕ, suc, ◌-◌, ◌≤◌, ◌≡◌, refl, ◌∙◌, ap, Bool, true, ◌&&◌, Option, none, some, Bytes, bytes_eq,
  bytes_eq-eq, List, [], ◌∷◌, ◌++◌, length, length-append, ◌==◌, ltb, if◌then◌else◌, Result, ok,
  Bool-cases, inl, inr, arith,
}
use hysj.Api.RateLimit.{
  Entries, new, or_default, clean_entry, retain_after, check_rate_limit, cleanup,
}

-- The requests of a key that were allowed after the cutoff, in a log of those allowed.
abbrev pub count : Bytes → ℕ → List (Bytes × ℕ) → ℕ
count key cutoff [] = 0
count key cutoff ((k, t) ∷ log) =
    let rest = count key cutoff log in if bytes_eq k key && ltb cutoff t then suc rest else rest

-- A request of a key, or the periodic cleanup with its age.
pub data Event : Type 0 where
  request : Bytes → Event
  sweep : ℕ → Event

abbrev allowed : Result (Unit {0}) Bool → Bytes → ℕ → List (Bytes × ℕ) → List (Bytes × ℕ)
allowed (ok true) key now log = (key, now) ∷ log
allowed _ key now log = log

retain_after-append :
    (c : ℕ) (xs ys : List ℕ) → retain_after c (xs ++ ys) ≡ retain_after c xs ++ retain_after c ys
unfolding retain_after
retain_after-append c [] ys = refl
retain_after-append c (x ∷ xs) ys = ground (arith, retain_after-append c xs ys)

retain_after_twice :
    (c d : ℕ) (xs : List ℕ) → c ≤ d → retain_after d (retain_after c xs) ≡ retain_after d xs
unfolding retain_after
retain_after_twice c d [] h = refl
retain_after_twice c d (x ∷ xs) h = ground (arith, retain_after_twice c d xs h)

or_default_of_some : (xs : List ℕ) → or_default (if length xs == 0 then none else some xs) ≡ xs
or_default_of_some [] = refl
or_default_of_some (x ∷ xs) = ground arith

-- A cleanup changes no count after its cutoff.
clean_entry-count :
    (c d : ℕ) (o : Option (List ℕ))
    → c ≤ d
    → length (retain_after d (or_default (clean_entry c o)))
      ≡ length (retain_after d (or_default o))
clean_entry-count c d none h = refl
clean_entry-count c d (some ts) h =
    ap (λ xs. length (retain_after d xs)) (or_default_of_some (retain_after c ts))
    ∙ ap length (retain_after_twice c d ts h)

count_antitone :
    (key : Bytes) (c d : ℕ) (log : List (Bytes × ℕ)) → c ≤ d → count key d log ≤ count key c log
count_antitone key c d [] h = omega arith
count_antitone key c d ((k, t) ∷ log) h = ground (arith, count_antitone key c d log h)

-- Every key has one limit and one window.
module _ (max_requests window : Bytes → ℕ) where
  -- The map and the log of allowed requests, latest first, after some events, each with its time.
  abbrev pub run : Entries → List (Bytes × ℕ) → List (ℕ × Event) → Entries × List (Bytes × ℕ)
  run entries log [] = (entries, log)
  run entries log ((now, request key) ∷ rest) =
      let (next, r) = check_rate_limit key (max_requests key) (window key) now entries in
      run next (allowed r key now log) rest
  run entries log ((now, sweep max_age) ∷ rest) = run (cleanup max_age now entries).0 log rest

  -- Time does not go back and ends at `last`; a sweep spares every window.
  abbrev pub IsTimeline : ℕ → List (ℕ × Event) → ℕ → Type 0
  IsTimeline start [] last = start ≤ last
  IsTimeline start ((now, request key) ∷ rest) last =
      (start ≤ now) × (window key ≤ now) × IsTimeline now rest last
  IsTimeline start ((now, sweep max_age) ∷ rest) last =
      (start ≤ now) × ((key : Bytes) → window key ≤ max_age) × IsTimeline now rest last

  -- What later requests will count is in the map.
  abbrev Agrees : ℕ → Entries → List (Bytes × ℕ) → Type 0
  Agrees last entries log =
      (key : Bytes) (cutoff : ℕ)
      → last - window key ≤ cutoff
      → length (retain_after cutoff (or_default (entries key))) ≡ count key cutoff log

  -- No window holds more than its key's limit.
  abbrev Limited : ℕ → List (Bytes × ℕ) → Type 0
  Limited last log =
      (key : Bytes) (t : ℕ) → last ≤ t → count key (t - window key) log ≤ max_requests key

  -- The answer to a request: whether the window has room.
  check_rate_limit-count :
      (key : Bytes) (start now : ℕ) (entries : Entries) (log : List (Bytes × ℕ))
      → Agrees start entries log
      → start ≤ now
      → window key ≤ now
      → (check_rate_limit key (max_requests key) (window key) now entries).1
        ≡ ok (ltb (count key (now - window key) log) (max_requests key))
  unfolding check_rate_limit
  check_rate_limit-count key start now entries log a l w =
      ground (arith, a key (now - window key) (omega arith))

  check_rate_limit-Agrees :
      (key : Bytes) (start now : ℕ) (entries : Entries) (log : List (Bytes × ℕ))
      → Agrees start entries log
      → start ≤ now
      → window key ≤ now
      → let (next, r) = check_rate_limit key (max_requests key) (window key) now entries in
        Agrees now next (allowed r key now log)
  unfolding check_rate_limit retain_after
  check_rate_limit-Agrees key start now entries log a l w j c h =
      let ts = or_default (entries key) in
      let old = retain_after (now - window key) ts in
      elim (Bool-cases (bytes_eq key j)) [
        | inl e ↦
            let q : key ≡ j = bytes_eq-eq key j e in
            ground (
              arith,
              a j c (omega arith),
              retain_after_twice (now - window key) c ts,
              retain_after-append c old (now ∷ []),
              length-append (retain_after c old) (now ∷ []),
              length-append (retain_after c old) [],
            )
        | inr e ↦ ground (arith, a j c (omega arith))
      ]

  cleanup-Agrees :
      (max_age start now : ℕ) (entries : Entries) (log : List (Bytes × ℕ))
      → Agrees start entries log
      → start ≤ now
      → ((key : Bytes) → window key ≤ max_age)
      → Agrees now (cleanup max_age now entries).0 log
  unfolding cleanup
  cleanup-Agrees max_age start now entries log a l w j c h =
      let g = w j in
      ground
        (arith, a j c (omega arith), clean_entry-count (now - max_age) c (entries j) (omega arith))

  check_rate_limit-Limited :
      (key : Bytes) (start now : ℕ) (entries : Entries) (log : List (Bytes × ℕ))
      → Agrees start entries log
      → Limited start log
      → start ≤ now
      → window key ≤ now
      → Limited now
          (allowed (check_rate_limit key (max_requests key) (window key) now entries).1 key now log)
  check_rate_limit-Limited key start now entries log a m l w j t h = ground (
    arith,
    check_rate_limit-count key start now entries log a l w,
    m j t (omega arith),
    bytes_eq-eq key j,
    count_antitone j (now - window j) (t - window j) log (omega arith),
  )

  -- Both facts after a run.
  run-facts :
      (start : ℕ) (events : List (ℕ × Event)) (last : ℕ) (entries : Entries)
      (log : List (Bytes × ℕ))
      → IsTimeline start events last
      → Agrees start entries log
      → Limited start log
      → let (entries', log') = run entries log events in
        Agrees last entries' log' × Limited last log'
  run-facts start [] last entries log h a m =
      (λ j c l. a j c (omega arith), λ j t l. m j t (omega arith))
  run-facts start ((now, request key) ∷ rest) last entries log (l, w, h) a m =
      run-facts now rest last _ _ h (check_rate_limit-Agrees key start now entries log a l w)
        (check_rate_limit-Limited key start now entries log a m l w)
  run-facts start ((now, sweep max_age) ∷ rest) last entries log (l, w, h) a m =
      run-facts now rest last _ log h (cleanup-Agrees max_age start now entries log a l w)
        (λ j t k. m j t (omega arith))

  -- After any run from the start in which time does not go back and every cleanup spares every
  -- window, a request at a later time that is not below its window gets the answer whether fewer
  -- than the limit of its key were allowed in the window before it.
  pub check_rate_limit-run :
      (events : List (ℕ × Event)) (last now : ℕ) (key : Bytes)
      → IsTimeline 0 events last
      → last ≤ now
      → window key ≤ now
      → let (entries, log) = run new [] events in
        (check_rate_limit key (max_requests key) (window key) now entries).1
        ≡ ok (ltb (count key (now - window key) log) (max_requests key))
  unfolding new retain_after
  check_rate_limit-run events last now key h l w =
      let (entries, log) = run new [] events in
      check_rate_limit-count key last now entries log
        (run-facts 0 events last new [] h (λ j c k. refl) (λ j t k. omega arith)).0 l w

  -- After any run from the start in which time does not go back and every cleanup spares every
  -- window, no window that ends at the last event or later holds more requests that were allowed
  -- than the limit of their key.
  pub run_limited :
      (events : List (ℕ × Event)) (last t : ℕ) (key : Bytes)
      → IsTimeline 0 events last
      → last ≤ t
      → count key (t - window key) (run new [] events).1 ≤ max_requests key
  unfolding new retain_after
  run_limited events last t key h l =
      (run-facts 0 events last new [] h (λ j c k. refl) (λ j t k. omega arith)).1 key t l
