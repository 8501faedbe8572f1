-- ===== src/Messaging.antt =====
-- crates/hysj-messaging: what the server keeps in Redis for a while. Redis is a parameter.
pub mod Redis
pub mod Queue
pub mod Otp
pub mod MediaStore
pub mod Wipe
pub mod Toy
mod Examples
