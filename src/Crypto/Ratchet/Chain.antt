-- ===== src/Crypto/Ratchet/Chain.antt =====
-- crates/hysj-crypto/src/ratchet/chain.rs: a chain of its own, and how it agrees with the chains of the
-- Double Ratchet.
use hysj.Base.{ℕ, zero, suc, ◌+◌, ◌<◌, ◌^◌, ◌≡◌, ap, Bytes, List, [], ◌∷◌, ok, arith}
use hysj.Crypto.Errors.{Fallible}
use hysj.Crypto.Primitives.{Primitives}
use hysj.Crypto.Keys.{copy_first_32, derive_chain_key}
use hysj.Crypto.Keys.Laws.{copy_first_32-ok, derive_chain_key-lengths}
use hysj.Crypto.Ratchet.Skipped.{SkippedKeys}
use hysj.Crypto.Ratchet.Missed.{chain_at, skip_loop-chain}
use hysj.Crypto.Ratchet.{u32, skip_loop}

pub record Chain : Type 0 where
  pub chain_key : Bytes
  pub message_number : ℕ

unfoldable pub new : Bytes → Chain
new chain_key = record { chain_key = chain_key; message_number = 0 }

module _ ⦃p : Primitives⦄ where
  unfoldable pub advance : Chain → Chain × Fallible Bytes
  advance c =
      let (new_chain_key, message_key_vec) = derive_chain_key c.chain_key in
      (
        record { chain_key = new_chain_key; message_number = u32 (c.message_number + 1) },
        copy_first_32 message_key_vec,
      )

  -- Some messages in a row, with their keys.
  abbrev pub advance_many : ℕ → Chain → Chain × List (Fallible Bytes)
  advance_many zero c = (c, [])
  advance_many (suc k) c =
      let (next, key) = advance c in let (last, keys) = advance_many k next in (last, key ∷ keys)

  -- The message keys of a chain key and of those that follow it.
  abbrev pub message_keys : ℕ → Bytes → List (Fallible Bytes)
  message_keys zero ck = []
  message_keys (suc k) ck = ok (derive_chain_key ck).1 ∷ message_keys k (derive_chain_key ck).0

  advance_many-chain_at :
      (k : ℕ) (ck : Bytes) (n : ℕ)
      → n + k < 2 ^ 32
      → advance_many k (record { chain_key = ck; message_number = n })
        ≡ (record { chain_key = chain_at k ck; message_number = n + k }, message_keys k ck)
  unfolding advance
  advance_many-chain_at zero ck n h =
      let z : n ≡ n + 0 = omega arith in
      ap (λ m. (record { chain_key = ck; message_number = m }, [])) z
  advance_many-chain_at (suc k) ck n h =
      let u : u32 (n + 1) ≡ n + 1 = omega arith in
      let t : n + 1 + k ≡ n + suc k = omega arith in
      ground (
        arith,
        copy_first_32-ok (derive_chain_key ck).1 (derive_chain_key-lengths ck).1,
        advance_many-chain_at k (derive_chain_key ck).0 (n + 1) (omega arith),
      )

  -- A new chain that advances some times, fewer than 2^32, gives the message keys in order, counts them,
  -- and ends at the chain key at which the Double Ratchet arrives when it skips as many messages.
  pub advance_many-skip_loop :
      (k : ℕ) (ck hex : Bytes) (n : ℕ) (keys : SkippedKeys)
      → k < 2 ^ 32
      → advance_many k (new ck) ≡ (
        record { chain_key = (skip_loop hex k n ck keys).0; message_number = k },
        message_keys k ck,
      )
  unfolding new
  advance_many-skip_loop k ck hex n keys h =
      let e = advance_many-chain_at k ck 0 (omega arith) in
      let z : 0 + k ≡ k = omega arith in ground (arith, e, skip_loop-chain hex k n ck keys)
