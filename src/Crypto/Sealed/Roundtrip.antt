-- ===== src/Crypto/Sealed/Roundtrip.antt =====
-- What `seal` produces, `open_sealed` reads back, and which certificates it lets through.
use hysj.Base.{
  ◌+◌, ◌≤◌, ◌≡◌, ◌≢◌, false, Bytes, [], ◌++◌, length, take-append, drop-append, length-append, ok,
  err, ◌>>◌, arith,
}
use hysj.Crypto.Errors.{sealed_sender_error}
use hysj.Crypto.Primitives.{Primitives, Json, message_limit}
use hysj.Crypto.Keys.{generate_x25519_keypair, hkdf_derive, verify}
use hysj.Crypto.Keys.Laws.{copy_32-ok, hkdf_derive-ok}
use hysj.Crypto.Cipher.{decrypt}
use hysj.Crypto.Cipher.Laws.{encrypt-ok}
use hysj.Crypto.Sealed.{
  SealedContent, SealedInner, sealed_info, check_certificate, seal, open_sealed,
}

abbrev pub inner_of : Bytes → Bytes → Bytes → SealedInner
inner_of sender_id cert plaintext = record {
  sender_id = sender_id;
  sender_cert = cert;
  plaintext = plaintext;
}

abbrev pub content_of : Bytes → Bytes → Bytes → SealedContent
content_of sender_id cert plaintext = record {
  sender_id = sender_id;
  sender_certificate = cert;
  plaintext = plaintext;
}

module _ ⦃p : Primitives⦄ ⦃j : Json SealedInner⦄ where
  opened :
      (inner : SealedInner) (vk key ct secret seed : Bytes)
      → length secret ≡ 32
      → length seed ≡ 32
      → length key ≡ 32
      → length ct ≡ 24 + length (j.to_vec inner) + 16
      → hkdf_derive (p.diffie_hellman seed (p.public_of secret)) [] sealed_info 32 ≡ ok key
      → decrypt ct key [] ≡ ok (j.to_vec inner)
      → open_sealed (p.public_of seed ++ ct) secret vk ≡ (
          check_certificate inner vk
          >> ok (content_of inner.sender_id inner.sender_cert inner.plaintext))
  unfolding open_sealed
  opened inner vk key ct secret seed hs he hk lc ek dc = ground (
    arith,
    copy_32-ok (p.public_of seed),
    copy_32-ok secret hs,
    copy_32-ok key hk,
    p.length-public_of seed he,
    length-append (p.public_of seed) ct,
    take-append 32 (p.public_of seed) ct,
    drop-append 32 (p.public_of seed) ct,
    p.diffie_hellman_comm secret seed,
    j.from_slice-to_vec inner,
  )

  module _ (plaintext sender_id cert secret seed nonce : Bytes) (hs : length secret ≡ 32)
      (he : length seed ≡ 32) (hn : length nonce ≡ 24)
      (hm : length (j.to_vec (inner_of sender_id cert plaintext)) ≤ message_limit) where
    -- The blob exists, and opening it with the recipient's secret comes down to the certificate.
    sealed_blob :
        (blob : Bytes) × (seal plaintext sender_id cert (p.public_of secret) seed nonce ≡ ok blob)
        × ((vk : Bytes)
            → open_sealed blob secret vk ≡ (
                check_certificate (inner_of sender_id cert plaintext) vk
                >> ok (content_of sender_id cert plaintext)))
    unfolding seal generate_x25519_keypair
    sealed_blob =
        let inner = inner_of sender_id cert plaintext in
        let (key, ek, lk) =
          hkdf_derive-ok (p.diffie_hellman seed (p.public_of secret)) [] sealed_info 32
            (omega arith) in
        let (ct, ec, lc, dc) = encrypt-ok (j.to_vec inner) key [] nonce hn hm in
        (
          p.public_of seed ++ ct,
          ground (
            arith,
            copy_32-ok (p.public_of secret),
            p.length-public_of secret hs,
            copy_32-ok key lk,
          ),
          λ vk. opened inner vk key ct secret seed hs he lk lc ek dc,
        )

    -- With a recipient's secret and a seed of 32 bytes, a nonce of 24 and an inner part within the
    -- cipher's bound: a message sealed with a certificate that is the issuer's signature of the
    -- sender's id opens under the recipient's secret and the issuer's key, to what was sealed.
    pub open_sealed-seal :
        (issuer : Bytes)
        → cert ≡ p.ed_sign issuer sender_id
        → (blob : Bytes) × (seal plaintext sender_id cert (p.public_of secret) seed nonce ≡ ok blob)
          × (open_sealed blob secret (p.ed_public_of issuer)
              ≡ ok (content_of sender_id cert plaintext))
    unfolding check_certificate verify
    open_sealed-seal issuer hc =
        let (blob, e, o) = sealed_blob in
        (
          blob,
          e,
          ground (
            arith,
            o (p.ed_public_of issuer),
            p.length-ed_sign issuer sender_id,
            p.length-ed_public_of issuer,
            p.ed_is_key-public_of issuer,
            p.ed_verify-sign issuer sender_id,
          ),
        )

    -- With a recipient's secret and a seed of 32 bytes, a nonce of 24 and an inner part within the
    -- cipher's bound: a message sealed with a certificate of 64 bytes that the given key of 32 bytes
    -- does not verify as a signature of the sender's id is refused.
    pub open_sealed_forged :
        (vk : Bytes)
        → length vk ≡ 32
        → length cert ≡ 64
        → p.ed_verify vk sender_id cert ≡ false
        → (blob : Bytes) × (seal plaintext sender_id cert (p.public_of secret) seed nonce ≡ ok blob)
          × (open_sealed blob secret vk ≡ err sealed_sender_error)
    unfolding check_certificate verify
    open_sealed_forged vk hv hc hf =
        let (blob, e, o) = sealed_blob in (blob, e, ground (arith, o vk))

    -- With a recipient's secret and a seed of 32 bytes, a nonce of 24 and an inner part within the
    -- cipher's bound: a certificate of any length but 64 is not checked at all. Whatever the
    -- verification key, the message opens under the sender's id that its sealer wrote.
    pub open_sealed_unchecked :
        (vk : Bytes)
        → length cert ≢ 64
        → (blob : Bytes) × (seal plaintext sender_id cert (p.public_of secret) seed nonce ≡ ok blob)
          × (open_sealed blob secret vk ≡ ok (content_of sender_id cert plaintext))
    unfolding check_certificate
    open_sealed_unchecked vk hc = let (blob, e, o) = sealed_blob in (blob, e, ground (arith, o vk))
