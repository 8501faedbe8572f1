-- ===== src/Crypto/Keys.antt =====
-- crates/hysj-crypto/src/kdf.rs, keys.rs and postquantum.rs. A key pair is drawn from a random
-- 32-byte seed, which is an argument.
pub mod Laws
use hysj.Base.{
  ℕ, Bool, true, false, Option, none, some, Bytes, ◌∷◌, [], take, drop, length, lit, ◌==◌,
  if◌then◌else◌, leb, ok, panic, ◌>>=◌, or_panic, or_fail,
}
use hysj.Crypto.Errors.{Fallible, post_quantum_error, invalid_key_length}
use hysj.Crypto.Primitives.{Primitives}

-- `dst.copy_from_slice(&src)` into a 32-byte array: panics unless the lengths agree.
unfoldable pub copy_32 : Bytes → Fallible Bytes
copy_32 src = if length src == 32 then ok src else panic

-- `dst.copy_from_slice(&src[..32])`: the slice panics if `src` is shorter.
unfoldable pub copy_first_32 : Bytes → Fallible Bytes
copy_first_32 src = if leb 32 (length src) then ok (take 32 src) else panic

pub record KeyPair : Type 0 where
  pub secret : Bytes
  pub public : Bytes

pub record KyberEncapResult : Type 0 where
  pub ciphertext : Bytes
  pub shared_secret : Bytes

module _ ⦃p : Primitives⦄ where
  unfoldable pub hkdf_derive : Bytes → Bytes → Bytes → ℕ → Fallible Bytes
  hkdf_derive ikm salt info output_len = or_panic (p.hkdf_expand salt ikm info output_len)

  unfoldable pub hmac_sha256 : Bytes → Bytes → Bytes
  hmac_sha256 key text = p.hmac key text

  -- (new_root_key, chain_key)
  unfoldable pub derive_root_key : Bytes → Bytes → Fallible (Bytes × Bytes)
  derive_root_key root_key dh_output = do
    output ← or_panic (p.hkdf_expand root_key dh_output (lit "hysj-ratchet-root") 64)
    ok (take 32 output, drop 32 output)

  -- (new_chain_key, message_key)
  unfoldable pub derive_chain_key : Bytes → Bytes × Bytes
  unfolding hmac_sha256
  derive_chain_key chain_key =
      (hmac_sha256 chain_key (0x02 ∷ []), hmac_sha256 chain_key (0x01 ∷ []))

  unfoldable pub generate_x25519_keypair : Bytes → KeyPair
  generate_x25519_keypair seed = record { secret = seed; public = p.public_of seed }

  -- keys.rs `verify`: a signature of another length than 64 is refused.
  unfoldable pub verify : Bytes → Bytes → Bytes → Bool
  verify public_key message signature =
      if length signature == 64 then p.ed_verify public_key message signature else false

  unfoldable pub kyber_encapsulate : Bytes → Bytes → Fallible KyberEncapResult
  kyber_encapsulate public_key seed = do
    (ct, ss) ← or_fail (p.kem_encapsulate public_key seed) post_quantum_error
    ok (record { ciphertext = ct; shared_secret = ss })

  unfoldable pub kyber_decapsulate : Bytes → Bytes → Fallible Bytes
  kyber_decapsulate ciphertext secret_key =
      or_fail (p.kem_decapsulate ciphertext secret_key) post_quantum_error
