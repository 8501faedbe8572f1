-- ===== src/Crypto.antt =====
-- crates/hysj-crypto: the cryptography that the clients run. Primitives are a parameter.
pub mod Errors
pub mod Primitives
pub mod Cipher
pub mod Keys
pub mod X3dh
pub mod Sealed
pub mod Onion
pub mod Ratchet
pub mod Toy
mod Examples
