-- ===== src/Crypto/Keys/Laws.antt =====
-- Lengths and totality of the key derivations.
use hysj.Base.{
  ℕ, ◌≤◌, ◌≡◌, Bytes, length, take, drop, length-take, length-drop, take_all, lit, ok, arith,
}
use hysj.Crypto.Primitives.{Primitives, hkdf_limit}
use hysj.Crypto.Keys.{copy_32, copy_first_32, hkdf_derive, derive_root_key, derive_chain_key}

pub copy_32-ok : (src : Bytes) → length src ≡ 32 → copy_32 src ≡ ok src
unfolding copy_32
copy_32-ok src h = ground arith

pub copy_first_32-ok : (src : Bytes) → length src ≡ 32 → copy_first_32 src ≡ ok src
unfolding copy_first_32
copy_first_32-ok src h = ground (arith, take_all 32 src h)

module _ ⦃p : Primitives⦄ where
  pub hkdf_derive-ok :
      (ikm salt info : Bytes) (n : ℕ)
      → n ≤ hkdf_limit
      → (okm : Bytes) × (hkdf_derive ikm salt info n ≡ ok okm) × (length okm ≡ n)
  unfolding hkdf_derive
  hkdf_derive-ok ikm salt info n h =
      let (okm, e, l) = p.hkdf_expand-some salt ikm info n h in (okm, ground arith, l)

  -- Both halves of the root derivation are 32 bytes.
  pub derive_root_key-ok :
      (root dh : Bytes)
      → (rk ck : Bytes) × (derive_root_key root dh ≡ ok (rk, ck))
        × (length rk ≡ 32)
        × (length ck ≡ 32)
  unfolding derive_root_key
  derive_root_key-ok root dh =
      let (okm, e, l) = p.hkdf_expand-some root dh (lit "hysj-ratchet-root") 64 (omega arith) in
      (
        take 32 okm,
        drop 32 okm,
        ground arith,
        omega (arith, length-take 32 okm),
        omega (arith, length-drop 32 okm),
      )

  pub derive_chain_key-lengths :
      (ck : Bytes) → (length (derive_chain_key ck).0 ≡ 32) × (length (derive_chain_key ck).1 ≡ 32)
  unfolding derive_chain_key
  derive_chain_key-lengths ck = (p.length-hmac ck _, p.length-hmac ck _)
