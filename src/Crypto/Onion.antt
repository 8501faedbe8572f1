-- ===== src/Crypto/Onion.antt =====
-- crates/hysj-crypto/src/onion.rs: layered packets for a route of relays.
pub mod Route
use hysj.Base.{
  ℕ, ◌+◌, Bool, not, Bytes, List, [], ◌∷◌, ◌++◌, length, take, drop, lit, ◌==◌, ltb, if◌then◌else◌,
  ok, err, ◌>>=◌, ◌>>◌, guard, or_fail,
}
use hysj.Crypto.Errors.{Fallible, invalid_key_length, onion_error, deserialization_error}
use hysj.Crypto.Primitives.{Primitives, Json}
use hysj.Crypto.Keys.{copy_32, hkdf_derive, generate_x25519_keypair}
use hysj.Crypto.Cipher.{encrypt, decrypt}

pub record RelayNode : Type 0 where
  pub address : Bytes
  pub public_key : Bytes

pub record OnionLayer : Type 0 where
  pub next_hop : Bytes
  pub payload : Bytes

abbrev pub onion_info : Bytes
onion_info = lit "hysj-onion-layer"

-- The address of the next node, or "FINAL" for the innermost layer.
unfoldable pub next_hop_of : List RelayNode → Bytes
next_hop_of [] = lit "FINAL"
next_hop_of (node ∷ rest) = node.address

-- The random bytes of one round of the loop.
pub record Draw : Type 0 where
  pub seed : Bytes
  pub nonce : Bytes

module _ ⦃p : Primitives⦄ ⦃j : Json OnionLayer⦄ where
  -- The body of the loop.
  unfoldable pub wrap_layer : RelayNode → Bytes → Bytes → Draw → Fallible Bytes
  wrap_layer node next_hop current_packet draw =
      if not (length node.public_key == 32)
      then err (invalid_key_length 32 (length node.public_key))
      else do
        let ephemeral = generate_x25519_keypair draw.seed
        node_public ← copy_32 node.public_key
        let dh_shared = p.diffie_hellman ephemeral.secret node_public
        key_vec ← hkdf_derive dh_shared [] onion_info 32
        key ← copy_32 key_vec
        let layer_bytes = j.to_vec (record { next_hop = next_hop; payload = current_packet })
        encrypted_layer ← encrypt layer_bytes key [] draw.nonce
        ok (ephemeral.public ++ encrypted_layer)

  -- The loop runs from the last node to the first, so the rest of the route is wrapped first. Round
  -- `k`, counted from 0, takes the `k`-th draw.
  unfoldable pub wrap_route : Bytes → List RelayNode → (ℕ → Draw) → Fallible Bytes
  wrap_route payload [] draws = ok payload
  wrap_route payload (node ∷ rest) draws = do
    current_packet ← wrap_route payload rest draws
    wrap_layer node (next_hop_of rest) current_packet (draws (length rest))

  unfoldable pub wrap_onion : Bytes → List RelayNode → (ℕ → Draw) → Fallible Bytes
  wrap_onion payload route draws =
      if length route == 0 then err onion_error else wrap_route payload route draws

  unfoldable pub unwrap_layer : Bytes → Bytes → Fallible OnionLayer
  unwrap_layer packet my_secret =
      if ltb (length packet) (32 + 24 + 16)
      then err onion_error
      else if not (length my_secret == 32)
      then err (invalid_key_length 32 (length my_secret))
      else do
        let encrypted_layer = drop 32 packet
        ephemeral_public ← copy_32 (take 32 packet)
        my_static_secret ← copy_32 my_secret
        let dh_shared = p.diffie_hellman my_static_secret ephemeral_public
        key_vec ← hkdf_derive dh_shared [] onion_info 32
        key ← copy_32 key_vec
        layer_bytes ← decrypt encrypted_layer key []
        or_fail (j.from_slice layer_bytes) deserialization_error
