-- ===== src/Service.antt =====
-- Services over NATS micro: service.py.
pub mod Endpoint
pub mod Monitor
pub mod Lifecycle
