-- ===== src/Crypto/Cipher/Laws.antt =====
-- What `encrypt` produces, `decrypt` opens.
use hysj.Base.{
  ◌+◌, ◌≤◌, ◌≡◌, Bytes, ◌++◌, length, length-append, take-append, drop-append, ok, arith,
}
use hysj.Crypto.Primitives.{Primitives, message_limit}
use hysj.Crypto.Cipher.{encrypt, decrypt}

module _ ⦃p : Primitives⦄ where
  pub encrypt-ok :
      (plaintext key aad nonce : Bytes)
      → length nonce ≡ 24
      → length plaintext ≤ message_limit
      → (ct : Bytes) × (encrypt plaintext key aad nonce ≡ ok ct)
        × (length ct ≡ 24 + length plaintext + 16)
        × (decrypt ct key aad ≡ ok plaintext)
  unfolding encrypt decrypt
  encrypt-ok plaintext key aad nonce n h =
      let (c, e, l) = p.aead_encrypt-some key nonce aad plaintext h in
      (
        nonce ++ c,
        ground arith,
        omega (arith, length-append nonce c),
        ground (
          arith,
          length-append nonce c,
          take-append 24 nonce c n,
          drop-append 24 nonce c n,
          p.aead_decrypt-encrypt key nonce aad plaintext c e,
        ),
      )
