-- ===== src/Api/Ws.antt =====
-- crates/hysj-api/src/ws, with state.rs and the push notification of routes/push.rs.
pub mod Messages
pub mod Sockets
pub mod Connections
pub mod Handler
pub mod Lifecycle
pub mod Delivery
pub mod Pending
pub mod Faults
pub mod Members
pub mod Fanout
pub mod Toy
mod Examples
