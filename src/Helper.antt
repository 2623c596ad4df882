-- ===== src/Helper.antt =====
-- The privileged helper and the protocol between it and the application.
mod Protocol
mod Validation
pub mod Service
mod Safety
