-- ===== src/Service.antt =====
-- The services: include/liteim/service and src/service.
pub mod Action
pub mod Fields
pub mod SessionManager
pub mod Records
pub mod Interfaces
pub mod MessageRouter
pub mod ChatService
pub mod OfflineMessageService
pub mod OnlineService
pub mod HeartbeatService
pub mod MessagePacketBuilder
pub mod AuthService
mod Tests
