-- ===== src/Messaging/Queue/Count.antt =====
-- What `count_pending` counts.
use hysj.Base.{
  ℕ, zero, suc, ◌+◌, ◌≤◌, ◌≡◌, Bytes, List, [], ◌∷◌, length, length-append, lit, ok, arith,
}
use hysj.Messaging.Redis.{Redis}
use hysj.Messaging.Queue.{message_key, count_rounds, count_pending}
use hysj.Messaging.Queue.Drain.{flatten}

module _ ⦃r : Redis⦄ where
  -- The pages that SCAN hands out from a cursor on, with no change in between.
  abbrev pub IsListing : Bytes → ℕ → r.Conn → List (List Bytes) → Type 0
  IsListing device cursor c [] = ⊥
  IsListing device cursor c (keys ∷ []) =
      r.scan cursor (message_key device (lit "*")) 100 c ≡ (c, ok (0, keys))
  IsListing device cursor c (keys ∷ (more ∷ pages)) =
      (next : ℕ) × (r.scan cursor (message_key device (lit "*")) 100 c ≡ (c, ok (suc next, keys)))
      × IsListing device (suc next) c (more ∷ pages)

  count_rounds-length :
      (device : Bytes) (rounds cursor count : ℕ) (pages : List (List Bytes)) (c : r.Conn)
      → IsListing device cursor c pages
      → length pages ≤ rounds
      → count_rounds rounds device cursor count c ≡ (c, ok (count + length (flatten pages)))
  unfolding count_rounds
  count_rounds-length device rounds cursor count [] c i f = absurd i
  count_rounds-length device zero cursor count (keys ∷ pages) c i f = absurd (omega arith)
  count_rounds-length device (suc rounds) cursor count (keys ∷ []) c i f =
      ground (arith, length-append keys [])
  count_rounds-length device (suc rounds) cursor count (keys ∷ (more ∷ pages)) c (next, s, i) f =
      ground (
        arith,
        length-append keys (flatten (more ∷ pages)),
        count_rounds-length device rounds (suc next) (count + length keys) (more ∷ pages) c i
            (omega arith),
      )

  -- With as many rounds as pages, `count_pending` gives the number of keys that SCAN hands out, a key
  -- that it repeats as often as it does.
  count_pending-length :
      (device : Bytes) (rounds : ℕ) (pages : List (List Bytes)) (c : r.Conn)
      → IsListing device 0 c pages
      → length pages ≤ rounds
      → count_pending rounds device c ≡ (c, ok (length (flatten pages)))
  unfolding count_pending
  count_pending-length device rounds pages c i f =
      ground (arith, count_rounds-length device rounds 0 0 pages c i f)
