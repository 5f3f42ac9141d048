-- ===== src/Write.antt =====
-- Writes and reads of chunks over the cluster (internal/orchestrators).
pub mod DataPlane
pub mod Payload
pub mod Delivery
pub mod ControlPlane
pub mod Handlers
pub mod Intents
pub mod Files
pub mod Tests
