-- ===== src/Crypto/Primitives.antt =====
-- The third-party primitives that crates/hysj-crypto calls (x25519-dalek, hkdf, hmac, sha2,
-- chacha20poly1305, ml-kem, ed25519-dalek, serde_json), as a parameter with their documented laws.
-- Random bytes are arguments of the operations that draw them.
use hysj.Base.{ℕ, ◌+◌, ◌≤◌, ◌≡◌, Bool, true, Option, some, Bytes, length}

-- RFC 5869: at most 255 blocks of 32 bytes.
abbrev pub hkdf_limit : ℕ
hkdf_limit = 8160

-- A bound far below the cipher's own (2^32 - 1 blocks of 64 bytes).
abbrev pub message_limit : ℕ
message_limit = 0x100000000

pub record Primitives : Type 0 where
  -- PublicKey::from(&secret) and secret.diffie_hellman(&public), over 32-byte keys.
  pub public_of : Bytes → Bytes
  pub diffie_hellman : Bytes → Bytes → Bytes
  pub length-public_of : (a : Bytes) → length a ≡ 32 → length (public_of a) ≡ 32
  pub diffie_hellman_comm :
      (a b : Bytes)
      → length a ≡ 32
      → length b ≡ 32
      → diffie_hellman a (public_of b) ≡ diffie_hellman b (public_of a)
  -- Hkdf::<Sha256>::new(Some(salt), ikm).expand(info, okm): salt, ikm, info, okm.len().
  pub hkdf_expand : Bytes → Bytes → Bytes → ℕ → Option Bytes
  pub hkdf_expand-some :
      (salt ikm info : Bytes) (n : ℕ)
      → n ≤ hkdf_limit
      → (okm : Bytes) × (hkdf_expand salt ikm info n ≡ some okm) × (length okm ≡ n)
  -- Hmac<Sha256>: key, data.
  pub hmac : Bytes → Bytes → Bytes
  pub length-hmac : (key text : Bytes) → length (hmac key text) ≡ 32
  -- XChaCha20Poly1305: key, nonce, aad, message.
  pub aead_encrypt : Bytes → Bytes → Bytes → Bytes → Option Bytes
  pub aead_decrypt : Bytes → Bytes → Bytes → Bytes → Option Bytes
  pub aead_encrypt-some :
      (key nonce aad msg : Bytes)
      → length msg ≤ message_limit
      → (c : Bytes) × (aead_encrypt key nonce aad msg ≡ some c) × (length c ≡ length msg + 16)
  pub aead_decrypt-encrypt :
      (key nonce aad msg c : Bytes)
      → aead_encrypt key nonce aad msg ≡ some c
      → aead_decrypt key nonce aad c ≡ some msg
  -- ML-KEM-768. `none` is a key or ciphertext of a wrong length.
  pub kem_public_of : Bytes → Bytes
  pub kem_encapsulate : Bytes → Bytes → Option (Bytes × Bytes)
  pub kem_decapsulate : Bytes → Bytes → Option Bytes
  pub kem_correct :
      (secret seed : Bytes) {ct ss : Bytes}
      → kem_encapsulate (kem_public_of secret) seed ≡ some (ct, ss)
      → kem_decapsulate ct secret ≡ some ss
  -- VerifyingKey::from_bytes succeeds; verify(key, message, signature); sign(secret, message).
  pub ed_is_key : Bytes → Bool
  pub ed_verify : Bytes → Bytes → Bytes → Bool
  pub ed_sign : Bytes → Bytes → Bytes
  pub ed_public_of : Bytes → Bytes
  pub length-ed_sign : (secret msg : Bytes) → length (ed_sign secret msg) ≡ 64
  pub length-ed_public_of : (secret : Bytes) → length (ed_public_of secret) ≡ 32
  pub ed_is_key-public_of : (secret : Bytes) → ed_is_key (ed_public_of secret) ≡ true
  pub ed_verify-sign :
      (secret msg : Bytes) → ed_verify (ed_public_of secret) msg (ed_sign secret msg) ≡ true

-- serde_json at one type: `to_vec` does not fail on the types used here, and reads back.
pub record Json (A : Type 0) : Type 0 where
  pub to_vec : A → Bytes
  pub from_slice : Bytes → Option A
  pub from_slice-to_vec : (a : A) → from_slice (to_vec a) ≡ some a
