-- ===== src/Crypto/Cipher.antt =====
-- crates/hysj-crypto/src/cipher.rs: XChaCha20-Poly1305 with the nonce in front.
pub mod Laws
use hysj.Base.{
  ◌+◌, Bytes, ◌++◌, length, take, drop, leb, not, ltb, if◌then◌else◌, ok, err, ◌>>=◌, or_fail,
}
use hysj.Crypto.Errors.{Fallible, encryption_failed, decryption_failed}
use hysj.Crypto.Primitives.{Primitives}

module _ ⦃p : Primitives⦄ where
  -- The random 24-byte nonce is the last argument.
  unfoldable pub encrypt : Bytes → Bytes → Bytes → Bytes → Fallible Bytes
  encrypt plaintext key aad nonce = do
    ciphertext ← or_fail (p.aead_encrypt key nonce aad plaintext) encryption_failed
    ok (nonce ++ ciphertext)

  unfoldable pub decrypt : Bytes → Bytes → Bytes → Fallible Bytes
  decrypt ciphertext_with_nonce key aad =
      if ltb (length ciphertext_with_nonce) (24 + 16)
      then err decryption_failed
      else or_fail
          (p.aead_decrypt key (take 24 ciphertext_with_nonce) aad (drop 24 ciphertext_with_nonce))
          decryption_failed
