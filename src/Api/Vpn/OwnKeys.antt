-- ===== src/Api/Vpn/OwnKeys.antt =====
-- crates/hysj-api/src/routes/vpn.rs: the key pair of a user is made once and read back.
use hysj.Base.{ℕ, ◌≡◌, true, none, some, Bytes, List, [], ◌∷◌, length, ==_refl, lit, ok, arith}
use hysj.Base.Utf8.{is_utf8-ascii}
use hysj.Crypto.Primitives.{Primitives}
use hysj.Crypto.Cipher.Laws.{encrypt-ok}
use hysj.Crypto.Keys.{hkdf_derive, copy_32}
use hysj.Database.{UserVpnKey, Db}
use hysj.Database.Users.{is_user}
use hysj.Database.Vpn.{find_keys, put_keys, get_vpn_keys, store_vpn_keys}
use hysj.Vpn.{Formats, generate_keypair}
use hysj.Api.Vpn.{own_keys, vpn_encryption_key}

pub find_keys-put_keys :
    (k : UserVpnKey) (ks : List UserVpnKey) → find_keys k.user_id (put_keys k ks) ≡ some k
unfolding find_keys put_keys
find_keys-put_keys k [] = ground (arith, ==_refl k.user_id)
find_keys-put_keys k (x ∷ xs) = ground (arith, find_keys-put_keys k xs, ==_refl k.user_id)

module _ ⦃f : Formats⦄ ⦃p : Primitives⦄ where
  pub vpn_encryption_key-ok : (seed : Bytes) → (key : Bytes) × (vpn_encryption_key seed ≡ ok key)
  unfolding vpn_encryption_key hkdf_derive copy_32
  vpn_encryption_key-ok seed =
      let (okm, e, l) =
        p.hkdf_expand-some (lit "hysj-vpn-key-encryption") seed [] 32 (omega arith) in
      (okm, ground arith)

  -- A registered user without a key pair, with a secret of 32 random bytes and a nonce of 24, gets the
  -- new pair, in base64; from then on the user gets that same pair, whatever the random bytes, as it
  -- is read back from what was stored, which is the private key encrypted.
  pub own_keys_twice :
      (u : ℕ) (key secret nonce secret' nonce' : Bytes) (now now' : ℕ) (db : Db)
      → is_user u db.users ≡ true
      → find_keys u db.user_vpn_keys ≡ none
      → length secret ≡ 32
      → length nonce ≡ 24
      → (db' : Db) × (own_keys u key secret nonce now db ≡ (db', ok (generate_keypair secret)))
        × (own_keys u key secret' nonce' now' db' ≡ (db', ok (generate_keypair secret)))
  unfolding own_keys get_vpn_keys store_vpn_keys generate_keypair
  own_keys_twice u key secret nonce secret' nonce' now now' db m n l k =
      let private_key = f.b64 secret in
      let (ct, e, a, d) =
        encrypt-ok private_key key (f.uuid_bytes u) nonce k
          (omega (arith, f.length-b64 secret l)) in
      let row : UserVpnKey = record {
        user_id = u;
        public_key = (generate_keypair secret).1;
        private_key_encrypted = ct;
        created_at = now;
      } in
      let text = is_utf8-ascii private_key (f.is_ascii-b64 secret) in
      (
        record db { user_vpn_keys = put_keys row db.user_vpn_keys },
        ground arith,
        ground (arith, find_keys-put_keys row db.user_vpn_keys),
      )
