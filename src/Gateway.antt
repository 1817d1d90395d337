-- ===== src/Gateway.antt =====
-- crates/ticktape-gateway: the sessions of clients.
pub mod Flow
