-- ===== src/Crypto/Errors.antt =====
-- crates/hysj-crypto/src/lib.rs: the error type. A constructor keeps the data that the code branches
-- on or computes; the free text of a message is left out.
use hysj.Base.{ℕ, Result}

pub data CryptoError : Type 0 where
  encryption_failed decryption_failed invalid_signature kdf_error : CryptoError
  serialization_error deserialization_error invalid_input x3dh_error : CryptoError
  ratchet_error sealed_sender_error onion_error post_quantum_error : CryptoError
  -- expected, actual
  invalid_key_length : ℕ → ℕ → CryptoError

abbrev pub Fallible : Type 0 → Type 0
Fallible A = Result CryptoError A
