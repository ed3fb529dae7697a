-- ===== src/Http.antt =====
-- internal/httpapi: the handlers over the store and the relay.
pub mod Admission
pub mod Messages
pub mod Serve
pub mod Users
pub mod Payments
