-- ===== src/Crypto/Ratchet/Missed.antt =====
-- The keys that `skip_missed_messages` stores for the missing messages.
use hysj.Base.{
  ℕ, zero, suc, ◌+◌, ◌-◌, ◌≤◌, ◌<◌, ◌≡◌, ◌⊎◌, refl, ◌∙◌, false, some, Bytes, length, ok, arith,
}
use hysj.Crypto.Primitives.{Primitives, Json}
use hysj.Crypto.Keys.{derive_chain_key}
use hysj.Crypto.Keys.Laws.{copy_first_32-ok}
use hysj.Crypto.Cipher.{decrypt as cipher_decrypt}
use hysj.Crypto.Ratchet.Skipped.{SkippedKeys, max_skipped_keys, key_eq, lookup, insert, len}
use hysj.Crypto.Ratchet.Skipped.Laws.{IsValid, Distinct, names, key_eq_refl}
use hysj.Crypto.Ratchet.Skipped.Insert.{insert_room, insert-IsValid, take_key-some}
use hysj.Crypto.Ratchet.{
  RatchetState, MessageHeader, max_skip, hex_encode, skip_loop, skip_missed_messages,
  decrypt_skipped, decrypt,
}

module _ ⦃p : Primitives⦄ where
  -- The chain key after some messages.
  abbrev pub chain_at : ℕ → Bytes → Bytes
  chain_at zero ck = ck
  chain_at (suc k) ck = chain_at k (derive_chain_key ck).0

  -- The keys of the next messages of a chain are stored under their numbers.
  abbrev pub StoredFrom : Bytes → Bytes → ℕ → ℕ → SkippedKeys → Type 0
  StoredFrom hex ck n zero keys = Unit {0}
  StoredFrom hex ck n (suc k) keys =
      (lookup (hex, n) keys.keys ≡ some (derive_chain_key ck).1)
      × StoredFrom hex (derive_chain_key ck).0 (n + 1) k keys

  pub skip_loop-chain :
      (hex : Bytes) (rounds n : ℕ) (ck : Bytes) (keys : SkippedKeys)
      → (skip_loop hex rounds n ck keys).0 ≡ chain_at rounds ck
  unfolding skip_loop
  skip_loop-chain hex zero n ck keys = refl
  skip_loop-chain hex (suc rounds) n ck keys = skip_loop-chain hex rounds (n + 1) _ _

  key_ne : (hex : Bytes) (m n : ℕ) → (m < n) ⊎ (n < m) → key_eq (hex, n) (hex, m) ≡ false
  unfolding key_eq
  key_ne hex m n h = ground arith

  -- With room for all of them, the keys of other numbers stay.
  pub skip_loop-other :
      (hex : Bytes) (rounds n m : ℕ) (ck : Bytes) (keys : SkippedKeys)
      → IsValid keys
      → len keys + rounds ≤ max_skipped_keys
      → (m < n) ⊎ (n + rounds ≤ m)
      → lookup (hex, m) (skip_loop hex rounds n ck keys).1.keys ≡ lookup (hex, m) keys.keys
  unfolding skip_loop
  skip_loop-other hex zero n m ck keys v room h = refl
  skip_loop-other hex (suc rounds) n m ck keys v room h =
      let key = (derive_chain_key ck).1 in
      let (e, l) = insert_room keys hex n key (hex, m) v (omega arith) in
      skip_loop-other hex rounds (n + 1) m _ (insert keys hex n key)
        (insert-IsValid keys hex n key v) (omega arith) (omega arith)
      ∙ ground (arith, key_ne hex m n (omega arith))

  pub skip_loop-StoredFrom :
      (hex : Bytes) (rounds n : ℕ) (ck : Bytes) (keys : SkippedKeys)
      → IsValid keys
      → len keys + rounds ≤ max_skipped_keys
      → StoredFrom hex ck n rounds (skip_loop hex rounds n ck keys).1
  unfolding skip_loop
  skip_loop-StoredFrom hex zero n ck keys v room = tt
  skip_loop-StoredFrom hex (suc rounds) n ck keys v room =
      let key = (derive_chain_key ck).1 in
      let w = insert-IsValid keys hex n key v in
      let (e, l) = insert_room keys hex n key (hex, n) v (omega arith) in
      (
        skip_loop-other hex rounds (n + 1) n _ (insert keys hex n key) w (omega arith) (omega arith)
            ∙ ground (arith, key_eq_refl (hex, n)),
        skip_loop-StoredFrom hex rounds (n + 1) _ (insert keys hex n key) w (omega arith),
      )

  pub skip_loop-IsValid :
      (hex : Bytes) (rounds n : ℕ) (ck : Bytes) (keys : SkippedKeys)
      → IsValid keys
      → IsValid (skip_loop hex rounds n ck keys).1
  unfolding skip_loop
  skip_loop-IsValid hex zero n ck keys v = v
  skip_loop-IsValid hex (suc rounds) n ck keys v =
      skip_loop-IsValid hex rounds (n + 1) (derive_chain_key ck).0 _
        (insert-IsValid keys hex n (derive_chain_key ck).1 v)

  -- The receiver's state after it skipped to message `until`.
  abbrev pub skipped_to : RatchetState → Bytes → Bytes → ℕ → ℕ → RatchetState
  skipped_to b hex ck k until = record b {
    receiving_chain_key = some (chain_at k ck);
    recv_message_number = until;
    skipped_keys = (skip_loop hex k b.recv_message_number ck b.skipped_keys).1;
  }

  pub skip_missed_messages-skipped_to :
      (b : RatchetState) (pk ck : Bytes) (k until : ℕ)
      → b.dh_receive_public ≡ some pk
      → b.receiving_chain_key ≡ some ck
      → until ≡ b.recv_message_number + k
      → k ≤ max_skip
      → skip_missed_messages until b ≡ (skipped_to b (hex_encode pk) ck k until, ok tt)
  unfolding skip_missed_messages
  skip_missed_messages-skipped_to b pk ck k until h c e l =
      let d : until - b.recv_message_number ≡ k = omega arith in
      ground (arith, d, skip_loop-chain (hex_encode pk) k b.recv_message_number ck b.skipped_keys)

module _ ⦃p : Primitives⦄ ⦃j : Json MessageHeader⦄ where
  -- A stored key opens its message.
  pub decrypt_stored :
      (b : RatchetState) (ct seed mk plaintext : Bytes) (header : MessageHeader)
      → IsValid b.skipped_keys
      → lookup (hex_encode header.dh_public, header.message_number) b.skipped_keys.keys ≡ some mk
      → length mk ≡ 32
      → cipher_decrypt ct mk (j.to_vec header) ≡ ok plaintext
      → (decrypt ct header seed b).1 ≡ ok plaintext
  unfolding decrypt decrypt_skipped
  decrypt_stored b ct seed mk plaintext header v e l d =
      let distinct : Distinct (names b.skipped_keys.keys) = rw v.tracked v.distinct in
      ground (
        arith,
        (take_key-some b.skipped_keys (hex_encode header.dh_public) header.message_number distinct
            e).0,
        copy_first_32-ok mk l,
      )
