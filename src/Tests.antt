-- ===== src/Tests.antt =====
-- Small instances of what stands outside the program, and the theorems at concrete inputs.
pub mod Bench
mod Caches
mod Requests
mod Lists
mod Signing
pub mod Answers
pub mod Starting
mod Serving
mod Web
mod Running
