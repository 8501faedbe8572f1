-- ===== src/Crypto/Sealed.antt =====
-- crates/hysj-crypto/src/sealed.rs: sealed sender envelopes.
pub mod Roundtrip
use hysj.Base.{
  ℕ, ◌+◌, Bool, true, false, not, ◌&&◌, Bytes, [], ◌++◌, length, take, drop, lit, ◌==◌, ltb,
  if◌then◌else◌, ok, err, ◌>>=◌, ◌>>◌, guard, or_fail,
}
use hysj.Crypto.Errors.{Fallible, invalid_key_length, sealed_sender_error, deserialization_error}
use hysj.Crypto.Primitives.{Primitives, Json}
use hysj.Crypto.Keys.{copy_32, hkdf_derive, generate_x25519_keypair, verify}
use hysj.Crypto.Cipher.{encrypt, decrypt}

pub record SealedContent : Type 0 where
  pub sender_id : Bytes
  pub sender_certificate : Bytes
  pub plaintext : Bytes

pub record SealedInner : Type 0 where
  pub sender_id : Bytes
  pub sender_cert : Bytes
  pub plaintext : Bytes

abbrev pub sealed_info : Bytes
sealed_info = lit "hysj-sealed-enc"

module _ ⦃p : Primitives⦄ where
  -- Step 6 of `open`.
  unfoldable pub check_certificate : SealedInner → Bytes → Fallible (Unit {0})
  check_certificate inner key =
      if not (length key == 0) && length key == 32
      then (if length inner.sender_cert == 64
          then (if p.ed_is_key key
              then guard (verify key inner.sender_id inner.sender_cert) sealed_sender_error
              else err sealed_sender_error)
          else ok tt)
      else ok tt

  module _ ⦃j : Json SealedInner⦄ where
    -- The seed of the ephemeral key pair and the cipher's nonce come last.
    unfoldable pub seal : Bytes → Bytes → Bytes → Bytes → Bytes → Bytes → Fallible Bytes
    seal plaintext sender_id sender_cert recipient_identity_public seed nonce =
        if not (length recipient_identity_public == 32)
        then err (invalid_key_length 32 (length recipient_identity_public))
        else do
          let ephemeral = generate_x25519_keypair seed
          recipient_public ← copy_32 recipient_identity_public
          let dh_shared = p.diffie_hellman ephemeral.secret recipient_public
          encryption_key ← hkdf_derive dh_shared [] sealed_info 32
          enc_key ← copy_32 encryption_key
          let inner_bytes =
              j.to_vec
                (record { sender_id = sender_id; sender_cert = sender_cert; plaintext = plaintext })
          encrypted_inner ← encrypt inner_bytes enc_key [] nonce
          ok (ephemeral.public ++ encrypted_inner)

    unfoldable pub open_sealed : Bytes → Bytes → Bytes → Fallible SealedContent
    open_sealed sealed_blob my_identity_secret cert_verification_key =
        if ltb (length sealed_blob) (32 + 24 + 16)
        then err sealed_sender_error
        else if not (length my_identity_secret == 32)
        then err (invalid_key_length 32 (length my_identity_secret))
        else do
          let encrypted_inner = drop 32 sealed_blob
          ephemeral_public ← copy_32 (take 32 sealed_blob)
          my_secret ← copy_32 my_identity_secret
          let dh_shared = p.diffie_hellman my_secret ephemeral_public
          encryption_key ← hkdf_derive dh_shared [] sealed_info 32
          enc_key ← copy_32 encryption_key
          inner_bytes ← decrypt encrypted_inner enc_key []
          inner ← or_fail (j.from_slice inner_bytes) deserialization_error
          check_certificate inner cert_verification_key
          ok (record {
            sender_id = inner.sender_id;
            sender_certificate = inner.sender_cert;
            plaintext = inner.plaintext;
          })
