-- ===== src/Crypto/X3dh.antt =====
-- crates/hysj-crypto/src/x3dh.rs: the X3DH handshake with an ML-KEM encapsulation.
pub mod Agreement
use hysj.Base.{
  ℕ, Bool, true, false, Option, none, some, Bytes, [], ◌++◌, length, lit, ◌==◌, if◌then◌else◌, ok,
  err, ◌>>=◌, map_err,
}
use hysj.Crypto.Errors.{CryptoError, Fallible, invalid_key_length, x3dh_error}
use hysj.Crypto.Primitives.{Primitives}
use hysj.Crypto.Keys.{hkdf_derive, generate_x25519_keypair, kyber_encapsulate, kyber_decapsulate}

pub record X3DhInitResult : Type 0 where
  pub shared_secret : Bytes
  pub ephemeral_public : Bytes
  pub kyber_ciphertext : Bytes
  pub used_one_time_key : Bool

pub record PreKeyBundle : Type 0 where
  pub identity_public : Bytes
  pub signed_pre_key : Bytes
  pub signed_pre_key_sig : Bytes
  pub one_time_pre_key : Option Bytes
  pub kyber_public : Bytes

-- `bytes_to_secret` and `bytes_to_public` have one body; the array stands for the key.
unfoldable pub bytes_to_secret : Bytes → Fallible Bytes
bytes_to_secret bytes =
    if length bytes == 32 then ok bytes else err (invalid_key_length 32 (length bytes))

unfoldable pub bytes_to_public : Bytes → Fallible Bytes
bytes_to_public bytes =
    if length bytes == 32 then ok bytes else err (invalid_key_length 32 (length bytes))

abbrev pub is_some {ℓ} : {A : Type ℓ} → Option A → Bool
is_some none = false
is_some (some a) = true

-- `if let Some(ref dh4_val) = dh4 { combined.extend(…) }`
abbrev pub or_empty : Option Bytes → Bytes
or_empty none = []
or_empty (some b) = b

module _ ⦃p : Primitives⦄ where
  -- DH4 of the initiator: the ephemeral secret with the one-time pre-key, if the bundle has one.
  unfoldable pub initiate_dh4 : Bytes → Option Bytes → Fallible (Option Bytes)
  initiate_dh4 ephemeral_secret none = ok none
  initiate_dh4 ephemeral_secret (some otpk) = do
    their_otpk ← bytes_to_public otpk
    ok (some (p.diffie_hellman ephemeral_secret their_otpk))

  -- DH4 of the recipient.
  unfoldable pub respond_dh4 : Option Bytes → Bytes → Fallible (Option Bytes)
  respond_dh4 none their_ephemeral = ok none
  respond_dh4 (some otpk_bytes) their_ephemeral = do
    otpk_secret ← bytes_to_secret otpk_bytes
    ok (some (p.diffie_hellman otpk_secret their_ephemeral))

  -- Both sides hash DH1 || DH2 || DH3 || DH4 || KEM secret.
  unfoldable pub combine : Bytes → Bytes → Bytes → Option Bytes → Bytes → Fallible Bytes
  combine dh1 dh2 dh3 dh4 kem =
      hkdf_derive (dh1 ++ (dh2 ++ (dh3 ++ (or_empty dh4 ++ kem)))) (lit "hysj-x3dh-v2") [] 32

  -- The random seeds of the ephemeral key pair and of the encapsulation come last.
  unfoldable pub x3dh_initiate :
      Bytes → Bytes → PreKeyBundle → Bytes → Bytes → Fallible X3DhInitResult
  x3dh_initiate my_identity_secret my_identity_public bundle seed kem_seed = do
    let ephemeral = generate_x25519_keypair seed
    identity_secret ← bytes_to_secret my_identity_secret
    their_identity_public ← bytes_to_public bundle.identity_public
    their_signed_pre_key ← bytes_to_public bundle.signed_pre_key
    let dh1 = p.diffie_hellman identity_secret their_signed_pre_key
    let dh2 = p.diffie_hellman ephemeral.secret their_identity_public
    let dh3 = p.diffie_hellman ephemeral.secret their_signed_pre_key
    dh4 ← initiate_dh4 ephemeral.secret bundle.one_time_pre_key
    kem_result ← map_err (λ _. x3dh_error) (kyber_encapsulate bundle.kyber_public kem_seed)
    shared_secret ← combine dh1 dh2 dh3 dh4 kem_result.shared_secret
    ok (record {
      shared_secret = shared_secret;
      ephemeral_public = ephemeral.public;
      kyber_ciphertext = kem_result.ciphertext;
      used_one_time_key = is_some bundle.one_time_pre_key;
    })

  unfoldable pub x3dh_respond :
      Bytes → Bytes → Option Bytes → Bytes → Bytes → Bytes → Bytes → Fallible Bytes
  x3dh_respond my_identity_secret my_signed_pre_key_secret my_one_time_pre_key_secret
        my_kyber_secret_key their_identity_public their_ephemeral_public kyber_ciphertext =
      do
        identity_secret ← bytes_to_secret my_identity_secret
        signed_pre_key_secret ← bytes_to_secret my_signed_pre_key_secret
        their_identity ← bytes_to_public their_identity_public
        their_ephemeral ← bytes_to_public their_ephemeral_public
        let dh1 = p.diffie_hellman signed_pre_key_secret their_identity
        let dh2 = p.diffie_hellman identity_secret their_ephemeral
        let dh3 = p.diffie_hellman signed_pre_key_secret their_ephemeral
        dh4 ← respond_dh4 my_one_time_pre_key_secret their_ephemeral
        kyber_shared ←
            map_err (λ _. x3dh_error) (kyber_decapsulate kyber_ciphertext my_kyber_secret_key)
        combine dh1 dh2 dh3 dh4 kyber_shared
