-- ===== src/Crypto/Onion/Route.antt =====
-- A packet wrapped for a route is peeled by the relays in order.
use hysj.Base.{
  ℕ, ◌+◌, ◌≤◌, ◌≡◌, refl, Bytes, List, [], ◌∷◌, ◌++◌, length, take-append, drop-append,
  length-append, ok, arith,
}
use hysj.Crypto.Primitives.{Primitives, Json, message_limit}
use hysj.Crypto.Keys.{generate_x25519_keypair, hkdf_derive}
use hysj.Crypto.Keys.Laws.{copy_32-ok, hkdf_derive-ok}
use hysj.Crypto.Cipher.Laws.{encrypt-ok}
use hysj.Crypto.Cipher.{decrypt}
use hysj.Crypto.Onion.{
  RelayNode, OnionLayer, Draw, onion_info, next_hop_of, wrap_layer, wrap_route, wrap_onion,
  unwrap_layer,
}

-- A relay with its private key.
pub record Relay : Type 0 where
  pub address : Bytes
  pub secret : Bytes

abbrev pub layer_of : Bytes → Bytes → OnionLayer
layer_of next_hop payload = record { next_hop = next_hop; payload = payload }

abbrev pub AreKeys : List Relay → Type 0
AreKeys [] = Unit {0}
AreKeys (r ∷ rest) = (length r.secret ≡ 32) × AreKeys rest

-- Every draw has a 32-byte seed and a 24-byte nonce.
abbrev pub AreDraws : (ℕ → Draw) → Type 0
AreDraws draws = (k : ℕ) → (length (draws k).seed ≡ 32) × (length (draws k).nonce ≡ 24)

module _ ⦃p : Primitives⦄ where
  -- The directory entry of a relay.
  abbrev pub node_of : Relay → RelayNode
  node_of r = record { address = r.address; public_key = p.public_of r.secret }

  -- The directory entries of a route.
  abbrev pub nodes_of : List Relay → List RelayNode
  nodes_of [] = []
  nodes_of (r ∷ rest) = node_of r ∷ nodes_of rest

  length-nodes_of : (rs : List Relay) → length (nodes_of rs) ≡ length rs
  length-nodes_of [] = refl
  length-nodes_of (r ∷ rs) = omega (arith, length-nodes_of rs)

module _ ⦃p : Primitives⦄ ⦃j : Json OnionLayer⦄ where
  unwrap-ok :
      (next_hop payload key ct nonce : Bytes) (secret seed : Bytes)
      → length secret ≡ 32
      → length seed ≡ 32
      → length key ≡ 32
      → length ct ≡ 24 + length (j.to_vec (layer_of next_hop payload)) + 16
      → hkdf_derive (p.diffie_hellman seed (p.public_of secret)) [] onion_info 32 ≡ ok key
      → decrypt ct key [] ≡ ok (j.to_vec (layer_of next_hop payload))
      → unwrap_layer (p.public_of seed ++ ct) secret ≡ ok (layer_of next_hop payload)
  unfolding unwrap_layer
  unwrap-ok next_hop payload key ct nonce secret seed hs he hk lc ek dc = ground (
    arith,
    copy_32-ok (p.public_of seed),
    copy_32-ok secret hs,
    copy_32-ok key hk,
    p.length-public_of seed he,
    length-append (p.public_of seed) ct,
    take-append 32 (p.public_of seed) ct,
    drop-append 32 (p.public_of seed) ct,
    p.diffie_hellman_comm secret seed,
    j.from_slice-to_vec (layer_of next_hop payload),
  )

  -- One layer: the relay that holds the secret reads back the next hop and the payload.
  pub wrap_layer-ok :
      (r : Relay) (next_hop payload : Bytes) (draw : Draw)
      → length r.secret ≡ 32
      → length draw.seed ≡ 32
      → length draw.nonce ≡ 24
      → length (j.to_vec (layer_of next_hop payload)) ≤ message_limit
      → (packet : Bytes) × (wrap_layer (node_of r) next_hop payload draw ≡ ok packet)
        × (unwrap_layer packet r.secret ≡ ok (layer_of next_hop payload))
  unfolding wrap_layer generate_x25519_keypair
  wrap_layer-ok r next_hop payload draw hs he hn hm =
      let (key, ek, lk) =
        hkdf_derive-ok (p.diffie_hellman draw.seed (p.public_of r.secret)) [] onion_info 32
          (omega arith) in
      let (ct, ec, lc, dc) =
        encrypt-ok (j.to_vec (layer_of next_hop payload)) key [] draw.nonce hn hm in
      (
        p.public_of draw.seed ++ ct,
        ground (
          arith,
          copy_32-ok (p.public_of r.secret),
          p.length-public_of r.secret hs,
          copy_32-ok key lk,
        ),
        unwrap-ok next_hop payload key ct draw.nonce r.secret draw.seed hs he lk lc ek dc,
      )

  -- Each relay in turn finds the address of the next one (or "FINAL") and the packet to forward; the
  -- last one finds the payload.
  abbrev pub Delivers : List Relay → Bytes → Bytes → Type 0
  Delivers [] payload packet = packet ≡ payload
  Delivers (r ∷ rest) payload packet =
      (inner : Bytes) × (unwrap_layer packet r.secret
        ≡ ok (layer_of (next_hop_of (nodes_of rest)) inner))
      × Delivers rest payload inner

  -- Each layer's JSON is within the cipher's bound.
  abbrev pub Fits : Bytes → List Relay → (ℕ → Draw) → Type 0
  Fits payload [] draws = Unit {0}
  Fits payload (r ∷ rest) draws =
      Fits payload rest draws
      × ((inner : Bytes)
          → wrap_route payload (nodes_of rest) draws ≡ ok inner
          → length (j.to_vec (layer_of (next_hop_of (nodes_of rest)) inner)) ≤ message_limit)

  wrap_route-Delivers :
      (payload : Bytes) (rs : List Relay) (draws : ℕ → Draw)
      → AreKeys rs
      → AreDraws draws
      → Fits payload rs draws
      → (packet : Bytes) × (wrap_route payload (nodes_of rs) draws ≡ ok packet)
        × Delivers rs payload packet
  unfolding wrap_route
  wrap_route-Delivers payload [] draws hk hd hf = (payload, refl, refl)
  wrap_route-Delivers payload (r ∷ rest) draws hk hd hf =
      let (inner, e, d) = wrap_route-Delivers payload rest draws hk.1 hd hf.0 in
      let draw = draws (length (nodes_of rest)) in
      let (packet, w, u) =
        wrap_layer-ok r (next_hop_of (nodes_of rest)) inner draw hk.0
          (hd (length (nodes_of rest))).0 (hd (length (nodes_of rest))).1 (hf.1 inner e) in
      (packet, ground arith, (inner, u, d))

  -- For a route of one relay or more with 32-byte keys, draws of 32-byte seeds and 24-byte nonces,
  -- and layers within the cipher's bound, `wrap_onion` produces a packet that the relays peel in
  -- order, each finding the address of the next one, down to the payload.
  pub wrap_onion-Delivers :
      (payload : Bytes) (r : Relay) (rest : List Relay) (draws : ℕ → Draw)
      → AreKeys (r ∷ rest)
      → AreDraws draws
      → Fits payload (r ∷ rest) draws
      → (packet : Bytes) × (wrap_onion payload (nodes_of (r ∷ rest)) draws ≡ ok packet)
        × Delivers (r ∷ rest) payload packet
  unfolding wrap_onion
  wrap_onion-Delivers payload r rest draws hk hd hf =
      let (packet, e, d) = wrap_route-Delivers payload (r ∷ rest) draws hk hd hf in
      (packet, ground arith, d)
