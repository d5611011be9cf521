-- ===== src/Responder.antt =====
-- internal/responder/responder.go
pub mod Cache
pub mod Binding
pub mod Handle
