-- ===== src/Crypto/Ratchet/Skipped.antt =====
-- crates/hysj-crypto/src/ratchet/skipped.rs: the cache of message keys for late messages. The
-- HashMap is an association list with distinct keys; a new key goes to its end.
pub mod Laws
pub mod Insert
use hysj.Base.{
  ℕ, Bool, true, false, not, ◌&&◌, Option, none, some, Bytes, bytes_eq, List, [], ◌∷◌, ◌++◌, length,
  ◌==◌, leb, if◌then◌else◌,
}

abbrev pub max_skipped_keys : ℕ
max_skipped_keys = 1000

-- (dh_public_hex, message_number)
abbrev pub SkippedKey : Type 0
SkippedKey = Bytes × ℕ

unfoldable pub key_eq : SkippedKey → SkippedKey → Bool
key_eq j k = bytes_eq j.0 k.0 && j.1 == k.1

-- HashMap::get, insert and remove.
unfoldable pub lookup : SkippedKey → List (SkippedKey × Bytes) → Option Bytes
lookup k [] = none
lookup k ((j, v) ∷ m) = if key_eq j k then some v else lookup k m

unfoldable pub put : SkippedKey → Bytes → List (SkippedKey × Bytes) → List (SkippedKey × Bytes)
put k v [] = (k, v) ∷ []
put k v ((j, w) ∷ m) = if key_eq j k then (j, v) ∷ m else (j, w) ∷ put k v m

unfoldable pub remove : SkippedKey → List (SkippedKey × Bytes) → List (SkippedKey × Bytes)
remove k [] = []
remove k ((j, w) ∷ m) = if key_eq j k then m else (j, w) ∷ remove k m

-- Vec::retain(|k| k != &key)
unfoldable pub retain_ne : SkippedKey → List SkippedKey → List SkippedKey
retain_ne k [] = []
retain_ne k (j ∷ js) = if key_eq j k then retain_ne k js else j ∷ retain_ne k js

pub record SkippedKeys : Type 0 where
  pub keys : List (SkippedKey × Bytes)
  pub insertion_order : List SkippedKey

unfoldable pub new : SkippedKeys
new = record { keys = []; insertion_order = [] }

-- The `while` loop: each round drops the head of the order, so it ends with the order at the latest.
unfoldable pub evict :
    List (SkippedKey × Bytes) → List SkippedKey → List (SkippedKey × Bytes) × List SkippedKey
evict keys [] = (keys, [])
evict keys (oldest ∷ order) =
    let rest = evict (remove oldest keys) order in
    if leb max_skipped_keys (length keys) then rest else (keys, oldest ∷ order)

abbrev pub is_some : Option Bytes → Bool
is_some none = false
is_some (some b) = true

unfoldable pub insert : SkippedKeys → Bytes → ℕ → Bytes → SkippedKeys
insert s dh_public_hex message_number message_key =
    let key : SkippedKey = (dh_public_hex, message_number) in
    if is_some (lookup key s.keys)
    then record s { keys = put key message_key s.keys }
    else let (keys, order) = evict s.keys s.insertion_order in
      record { keys = put key message_key keys; insertion_order = order ++ key ∷ [] }

unfoldable pub take_key : SkippedKeys → Bytes → ℕ → SkippedKeys × Option Bytes
take_key s dh_public_hex message_number =
    let key : SkippedKey = (dh_public_hex, message_number) in
    elim (lookup key s.keys) [
      | none ↦ (s, none)
      | some msg_key ↦ (
        record { keys = remove key s.keys; insertion_order = retain_ne key s.insertion_order },
        some msg_key,
      )
    ]

unfoldable pub contains : SkippedKeys → Bytes → ℕ → Bool
contains s dh_public_hex message_number = is_some (lookup (dh_public_hex, message_number) s.keys)

unfoldable pub len : SkippedKeys → ℕ
len s = length s.keys
