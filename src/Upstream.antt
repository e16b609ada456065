-- ===== src/Upstream.antt =====
-- The upstream side, src/upstream.rs: the policies on clients and targets, the choice of an upstream
-- proxy, the handshakes with one, and the connection to a target.
pub mod Cidr
pub mod Policy
pub mod Route
pub mod Handshake
pub mod HttpConnect
pub mod Connect
