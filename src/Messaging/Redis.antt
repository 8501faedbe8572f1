-- ===== src/Messaging/Redis.antt =====
-- The Redis server behind crates/hysj-messaging, as a parameter with the documented behaviour of the
-- commands that the crate sends, and crates/hysj-messaging/src/lib.rs: the error type.
use hysj.Base.{
  ℕ, ◌+◌, ◌≤◌, ◌≡◌, Bool, true, false, Option, none, some, Bytes, bytes_eq, List, if◌then◌else◌,
  Result, ok, err, panic,
}

-- The text of a Redis error is left out.
pub data MessagingError : Type 0 where
  redis_error serialization_error not_found : MessagingError

-- An expiry that Redis accepts: SET refuses 0, and seconds that overflow its clock.
abbrev pub max_ttl : ℕ
max_ttl = 0x100000000

-- The value of a key, with the seconds that it has left.
abbrev pub value_of : Option (Bytes × ℕ) → Option Bytes
value_of none = none
value_of (some (v, ttl)) = some v

abbrev pub is_some {ℓ} : {A : Type ℓ} → Option A → Bool
is_some none = false
is_some (some a) = true

abbrev pub one_if : Bool → ℕ
one_if b = if b then 1 else 0

abbrev pub with_ttl : ℕ → Option (Bytes × ℕ) → Option (Bytes × ℕ)
with_ttl ttl none = none
with_ttl ttl (some (v, old)) = some (v, ttl)

-- A connection, with the store behind it. The laws speak of a connection that is up, at one moment: no
-- key expires between the commands of a sequence.
pub record Redis : Type 1 where
  pub Conn : Type 0
  pub get : Bytes → Conn → Conn × Result MessagingError (Option Bytes)
  pub exists : Bytes → Conn → Conn × Result MessagingError Bool
  -- SET key value EX seconds
  pub set_ex : Bytes → Bytes → ℕ → Conn → Conn × Result MessagingError (Unit {0})
  pub expire : Bytes → ℕ → Conn → Conn × Result MessagingError (Unit {0})
  pub del : Bytes → Conn → Conn × Result MessagingError ℕ
  -- DEL key key
  pub del_both : Bytes → Bytes → Conn → Conn × Result MessagingError ℕ
  -- SCAN cursor MATCH pattern COUNT n: the next cursor and a page of keys.
  pub scan : ℕ → Bytes → ℕ → Conn → Conn × Result MessagingError (ℕ × List Bytes)
  pub IsUp : Conn → Type 0
  pub stored : Bytes → Conn → Option (Bytes × ℕ)
  pub get-stored : (k : Bytes) (c : Conn) → IsUp c → get k c ≡ (c, ok (value_of (stored k c)))
  pub exists-stored : (k : Bytes) (c : Conn) → IsUp c → exists k c ≡ (c, ok (is_some (stored k c)))
  pub set_ex-stored :
      (k v : Bytes) (ttl : ℕ) (c : Conn)
      → IsUp c
      → 1 ≤ ttl
      → ttl ≤ max_ttl
      → (c' : Conn) × (set_ex k v ttl c ≡ (c', ok tt))
        × IsUp c'
        × ((j : Bytes) → stored j c' ≡ (if bytes_eq k j then some (v, ttl) else stored j c))
  pub expire-stored :
      (k : Bytes) (ttl : ℕ) (c : Conn)
      → IsUp c
      → 1 ≤ ttl
      → ttl ≤ max_ttl
      → (c' : Conn) × (expire k ttl c ≡ (c', ok tt))
        × IsUp c'
        × ((j : Bytes)
            → stored j c' ≡ (if bytes_eq k j then with_ttl ttl (stored k c) else stored j c))
  pub del-stored :
      (k : Bytes) (c : Conn)
      → IsUp c
      → (c' : Conn) × (del k c ≡ (c', ok (one_if (is_some (stored k c)))))
        × IsUp c'
        × ((j : Bytes) → stored j c' ≡ (if bytes_eq k j then none else stored j c))
  pub del_both-stored :
      (k l : Bytes) (c : Conn)
      → IsUp c
      → bytes_eq k l ≡ false
      → (c' : Conn) × (del_both k l c
          ≡ (c', ok (one_if (is_some (stored k c)) + one_if (is_some (stored l c)))))
        × IsUp c'
        × ((j : Bytes)
            → stored j c'
              ≡ (if bytes_eq k j then none else if bytes_eq l j then none else stored j c))

module _ ⦃r : Redis⦄ where
  -- An `async fn` over `conn`.
  abbrev pub Run : Type 0 → Type 0
  Run A = r.Conn → r.Conn × Result MessagingError A

  abbrev pub lift : {A : Type 0} → Result MessagingError A → Run A
  lift m c = (c, m)

  infixl 5 ◌>>=◌ ◌>>◌
  abbrev pub ◌>>=◌ : {A B : Type 0} → Run A → (A → Run B) → Run B
  ◌>>=◌ m f c = elim (m c).1 [
    | ok a ↦ f a (m c).0
    | err e ↦ ((m c).0, err e)
    | panic ↦ ((m c).0, panic)
  ]

  abbrev pub ◌>>◌ : {B : Type 0} → Run (Unit {0}) → Run B → Run B
  m >> k = m >>= λ _. k
