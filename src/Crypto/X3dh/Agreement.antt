-- ===== src/Crypto/X3dh/Agreement.antt =====
-- Both sides of a handshake derive one secret.
use hysj.Base.{◌≡◌, refl, Option, none, some, Bytes, length, ok, arith}
use hysj.Crypto.Primitives.{Primitives}
use hysj.Crypto.Errors.{Fallible}
use hysj.Crypto.Keys.{generate_x25519_keypair, kyber_encapsulate, kyber_decapsulate}
use hysj.Crypto.Keys.Laws.{hkdf_derive-ok}
use hysj.Crypto.X3dh.{
  X3DhInitResult, PreKeyBundle, bytes_to_secret, bytes_to_public, initiate_dh4, respond_dh4,
  combine, x3dh_initiate, x3dh_respond, is_some,
}

bytes_to_secret-ok : (b : Bytes) → length b ≡ 32 → bytes_to_secret b ≡ ok b
unfolding bytes_to_secret
bytes_to_secret-ok b h = ground arith

bytes_to_public-ok : (b : Bytes) → length b ≡ 32 → bytes_to_public b ≡ ok b
unfolding bytes_to_public
bytes_to_public-ok b h = ground arith

-- The optional key, if there, has 32 bytes.
abbrev pub IsKey? : Option Bytes → Type 0
IsKey? none = Unit {0}
IsKey? (some b) = length b ≡ 32

module _ ⦃p : Primitives⦄ where
  abbrev pub public_of? : Option Bytes → Option Bytes
  public_of? none = none
  public_of? (some b) = some (p.public_of b)

  -- What both sides compute for DH4.
  abbrev shared_dh4 : Bytes → Option Bytes → Option Bytes
  shared_dh4 seed none = none
  shared_dh4 seed (some b) = some (p.diffie_hellman seed (p.public_of b))

  initiate_dh4-shared :
      (seed : Bytes) (otpk : Option Bytes)
      → IsKey? otpk
      → initiate_dh4 seed (public_of? otpk) ≡ ok (shared_dh4 seed otpk)
  unfolding initiate_dh4
  initiate_dh4-shared seed none h = refl
  initiate_dh4-shared seed (some b) h =
      ground (arith, bytes_to_public-ok (p.public_of b), p.length-public_of b)

  respond_dh4-shared :
      (seed : Bytes) (otpk : Option Bytes)
      → length seed ≡ 32
      → IsKey? otpk
      → respond_dh4 otpk (p.public_of seed) ≡ ok (shared_dh4 seed otpk)
  unfolding respond_dh4
  respond_dh4-shared seed none s h = refl
  respond_dh4-shared seed (some b) s h =
      ground (arith, bytes_to_secret-ok b, p.diffie_hellman_comm b seed)

  -- The secret as the initiator's half of the keys gives it.
  combined : Bytes → Bytes → Bytes → Bytes → Bytes → Option Bytes → Fallible Bytes
  combined sender ik spk seed ss otpk =
      combine (p.diffie_hellman sender (p.public_of spk)) (p.diffie_hellman seed (p.public_of ik))
        (p.diffie_hellman seed (p.public_of spk)) (shared_dh4 seed otpk) ss

  -- A recipient publishes the public halves of its keys.
  abbrev pub published : Bytes → Bytes → Bytes → Option Bytes → Bytes → PreKeyBundle
  published ik spk sig otpk kyber = record {
    identity_public = p.public_of ik;
    signed_pre_key = p.public_of spk;
    signed_pre_key_sig = sig;
    one_time_pre_key = public_of? otpk;
    kyber_public = p.kem_public_of kyber;
  }

  is_some-public_of? : (o : Option Bytes) → is_some (public_of? o) ≡ is_some o
  is_some-public_of? none = refl
  is_some-public_of? (some b) = refl

  combined-ok :
      (sender ik spk seed ss : Bytes) (otpk : Option Bytes)
      → (okm : Bytes) × (combined sender ik spk seed ss otpk ≡ ok okm) × (length okm ≡ 32)
  unfolding combine combined
  combined-ok sender ik spk seed ss otpk = hkdf_derive-ok _ _ _ 32 (omega arith)

  initiate-ok :
      (sender ik spk sig kyber seed kem_seed ct ss : Bytes) (otpk : Option Bytes) {okm : Bytes}
      → length sender ≡ 32
      → length ik ≡ 32
      → length spk ≡ 32
      → IsKey? otpk
      → p.kem_encapsulate (p.kem_public_of kyber) kem_seed ≡ some (ct, ss)
      → combined sender ik spk seed ss otpk ≡ ok okm
      → x3dh_initiate sender (p.public_of sender) (published ik spk sig otpk kyber) seed kem_seed
        ≡ ok (record {
          shared_secret = okm;
          ephemeral_public = p.public_of seed;
          kyber_ciphertext = ct;
          used_one_time_key = is_some otpk;
        })
  unfolding x3dh_initiate kyber_encapsulate generate_x25519_keypair combined
  initiate-ok sender ik spk sig kyber seed kem_seed ct ss otpk hs hi hk ho hc e = ground (
    arith,
    bytes_to_secret-ok sender,
    bytes_to_public-ok (p.public_of ik),
    bytes_to_public-ok (p.public_of spk),
    p.length-public_of ik,
    p.length-public_of spk,
    initiate_dh4-shared seed otpk ho,
    is_some-public_of? otpk,
  )

  respond-ok :
      (sender ik spk kyber seed ct ss : Bytes) (otpk : Option Bytes) {okm : Bytes}
      → length sender ≡ 32
      → length ik ≡ 32
      → length spk ≡ 32
      → length seed ≡ 32
      → IsKey? otpk
      → p.kem_decapsulate ct kyber ≡ some ss
      → combined sender ik spk seed ss otpk ≡ ok okm
      → x3dh_respond ik spk otpk kyber (p.public_of sender) (p.public_of seed) ct ≡ ok okm
  unfolding x3dh_respond kyber_decapsulate combined
  respond-ok sender ik spk kyber seed ct ss otpk hs hi hk he ho hc e = ground (
    arith,
    bytes_to_secret-ok ik,
    bytes_to_secret-ok spk,
    bytes_to_public-ok (p.public_of sender),
    bytes_to_public-ok (p.public_of seed),
    p.length-public_of sender,
    p.length-public_of seed,
    respond_dh4-shared seed otpk he ho,
    p.diffie_hellman_comm spk sender,
    p.diffie_hellman_comm ik seed,
    p.diffie_hellman_comm spk seed,
  )

  -- With 32-byte keys, and an encapsulation that succeeds, the initiator derives a 32-byte secret
  -- against the published bundle, and the recipient derives the same one from the ephemeral key and
  -- the ciphertext that the initiator sends; the flag says whether a one-time pre-key took part.
  pub x3dh_respond-x3dh_initiate :
      (sender ik spk sig kyber seed kem_seed ct ss : Bytes) (otpk : Option Bytes)
      → length sender ≡ 32
      → length ik ≡ 32
      → length spk ≡ 32
      → length seed ≡ 32
      → IsKey? otpk
      → p.kem_encapsulate (p.kem_public_of kyber) kem_seed ≡ some (ct, ss)
      → (r : X3DhInitResult) × (x3dh_initiate sender
            (p.public_of sender)
            (published ik spk sig otpk kyber)
            seed
            kem_seed
          ≡ ok r)
        × (x3dh_respond ik spk otpk kyber (p.public_of sender) r.ephemeral_public r.kyber_ciphertext
            ≡ ok r.shared_secret)
        × (length r.shared_secret ≡ 32)
        × (r.used_one_time_key ≡ is_some otpk)
  x3dh_respond-x3dh_initiate sender ik spk sig kyber seed kem_seed ct ss otpk hs hi hk he ho hc =
      let (okm, e, l) = combined-ok sender ik spk seed ss otpk in
      (
        record {
          shared_secret = okm;
          ephemeral_public = p.public_of seed;
          kyber_ciphertext = ct;
          used_one_time_key = is_some otpk;
        },
        initiate-ok sender ik spk sig kyber seed kem_seed ct ss otpk hs hi hk ho hc e,
        respond-ok sender ik spk kyber seed ct ss otpk hs hi hk he ho
            (p.kem_correct kyber kem_seed hc) e,
        l,
        refl,
      )
