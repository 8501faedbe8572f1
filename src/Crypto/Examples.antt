-- ===== src/Crypto/Examples.antt =====
-- Runs of the handshake, the envelopes and the onion packets of crates/hysj-crypto on small inputs.
mod Sessions
use hysj.Base.{
  ℕ, ◌≡◌, ◌≢◌, refl, Bool, true, some, Bytes, List, [], ◌∷◌, ◌++◌, length, ◌≤◌, subst, replicate,
  bytes_eq, lit, ok, err, leb→le, arith,
}
use hysj.Crypto.Errors.{sealed_sender_error}
use hysj.Crypto.Primitives.{Primitives, message_limit}
use hysj.Crypto.Toy.{pad, toy, inner_json, layer_json}
use hysj.Crypto.Cipher.{encrypt, decrypt}
use hysj.Crypto.Cipher.Laws.{encrypt-ok}
use hysj.Crypto.Keys.{hkdf_derive, copy_32, generate_x25519_keypair}
use hysj.Crypto.X3dh.{X3DhInitResult, x3dh_initiate, x3dh_respond}
use hysj.Crypto.X3dh.Agreement.{published, x3dh_respond-x3dh_initiate}
use hysj.Crypto.Sealed.{seal, open_sealed}
use hysj.Crypto.Sealed.Roundtrip.{
  content_of, open_sealed-seal, open_sealed_forged, open_sealed_unchecked,
}
use hysj.Crypto.Onion.{Draw, wrap_onion, wrap_route, wrap_layer, next_hop_of}
use hysj.Crypto.Onion.Route.{Relay, Fits, layer_of, nodes_of, Delivers, wrap_onion-Delivers}

-- A key of 32 equal bytes.
abbrev pub key : ℕ → Bytes
key n = replicate 32 n

abbrev pub nonce : Bytes
nonce = replicate 24 9

x3dh_respond-x3dh_initiate_example :
    (r : X3DhInitResult) × (x3dh_initiate
        (key 1)
        (key 1)
        (published (key 2) (key 3) [] (some (key 4)) (key 5))
        (key 6)
        (key 7)
      ≡ ok r)
    × (x3dh_respond
          (key 2)
          (key 3)
          (some (key 4))
          (key 5)
          (key 1)
          r.ephemeral_public
          r.kyber_ciphertext
        ≡ ok r.shared_secret)
    × (length r.shared_secret ≡ 32)
    × (r.used_one_time_key ≡ true)
unfolding toy
x3dh_respond-x3dh_initiate_example =
    x3dh_respond-x3dh_initiate (key 1) (key 2) (key 3) [] (key 5) (key 6) (key 7) (key 7) (key 5)
      (some (key 4)) refl refl refl refl refl refl

-- The toy issuer's signature.
abbrev certificate : Bytes
certificate = pad 64 (pad 32 (key 8) ++ lit "alice")

open_sealed-seal_example :
    (blob : Bytes) × (seal (lit "hi") (lit "alice") certificate (key 2) (key 6) nonce ≡ ok blob)
    × (open_sealed blob (key 2) (key 8) ≡ ok (content_of (lit "alice") certificate (lit "hi")))
unfolding toy inner_json
open_sealed-seal_example =
    open_sealed-seal (lit "hi") (lit "alice") certificate (key 2) (key 6) nonce refl refl refl
      (leb→le _ _ refl) (key 8) refl

-- A signature of another name.
abbrev stolen : Bytes
stolen = pad 64 (pad 32 (key 8) ++ lit "bob")

open_sealed_forged_example :
    (blob : Bytes) × (seal (lit "hi") (lit "alice") stolen (key 2) (key 6) nonce ≡ ok blob)
    × (open_sealed blob (key 2) (key 8) ≡ err sealed_sender_error)
unfolding toy inner_json bytes_eq
open_sealed_forged_example =
    open_sealed_forged (lit "hi") (lit "alice") stolen (key 2) (key 6) nonce refl refl refl
      (leb→le _ _ refl) (key 8) refl refl refl

open_sealed_unchecked_example :
    (blob : Bytes) × (seal (lit "hi") (lit "alice") (lit "{}") (key 2) (key 6) nonce ≡ ok blob)
    × (open_sealed blob (key 2) (key 8) ≡ ok (content_of (lit "alice") (lit "{}") (lit "hi")))
unfolding toy inner_json
open_sealed_unchecked_example =
    open_sealed_unchecked (lit "hi") (lit "alice") (lit "{}") (key 2) (key 6) nonce refl refl refl
      (leb→le _ _ refl) (key 8) (omega arith)

abbrev relay : Bytes → ℕ → Relay
relay address n = record { address = address; secret = key n }

abbrev draws : ℕ → Draw
draws k = record { seed = key k; nonce = nonce }

-- The packet for the second relay.
abbrev inner_packet : Bytes
inner_packet = key 0 ++ (nonce ++ (pad 16 (key 2) ++ (5 ∷ lit "FINALhi")))

route-Fits : Fits (lit "hi") (relay (lit "r1") 1 ∷ relay (lit "r2") 2 ∷ []) draws
unfolding toy layer_json wrap_route wrap_layer next_hop_of hkdf_derive copy_32
    generate_x25519_keypair encrypt
route-Fits = (
  (
    tt,
    λ inner h.
        subst (λ (b : Bytes). length (layer_json.to_vec (layer_of (lit "FINAL") b)) ≤ message_limit)
          {x = lit "hi"} (cc h) (leb→le 8 message_limit refl),
  ),
  λ inner h.
      subst (λ (b : Bytes). length (layer_json.to_vec (layer_of (lit "r2") b)) ≤ message_limit)
        {x = inner_packet} (cc h) (leb→le 83 message_limit refl),
)

wrap_onion-Delivers_example :
    (packet : Bytes) × (wrap_onion
        (lit "hi")
        (nodes_of (relay (lit "r1") 1 ∷ relay (lit "r2") 2 ∷ []))
        draws
      ≡ ok packet)
    × Delivers (relay (lit "r1") 1 ∷ relay (lit "r2") 2 ∷ []) (lit "hi") packet
unfolding toy
wrap_onion-Delivers_example =
    wrap_onion-Delivers (lit "hi") (relay (lit "r1") 1) (relay (lit "r2") 2 ∷ []) draws
      (refl, (refl, tt)) (λ k. (refl, refl)) route-Fits
