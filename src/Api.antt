-- ===== src/Api.antt =====
-- crates/hysj-api: the server.
pub mod RateLimit
pub mod Auth
pub mod Contacts
pub mod Error
pub mod Groups
pub mod Keys
pub mod Otp
pub mod Routes
pub mod Devices
pub mod Wipe
pub mod Vpn
pub mod Ws
mod Examples
