-- ===== src/Net.antt =====
-- The networking layer: include/liteim/net and src/net.
pub mod Buffer
pub mod Session
mod Tests
