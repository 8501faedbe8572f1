-- ===== src/Auth.antt =====
-- crates/hysj-auth: passwords, tokens, one-time passwords and sender certificates.
pub mod Libraries
pub mod Jwt
pub mod Certificate
pub mod Window
pub mod Toy
mod Examples
