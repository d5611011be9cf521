-- ===== src/Server.antt =====
-- internal/server: the metrics, and the HTTP side of the responder.
pub mod Metrics
pub mod Handler
pub mod Routes
pub mod Listen
pub mod Lifecycle
