-- ===== src/Client.antt =====
-- The client library's requests (clients/library).
pub mod Router
pub mod Requests
pub mod AtMostOnce
pub mod Server
pub mod Refusals
pub mod Tests
