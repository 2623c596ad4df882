-- ===== src/Profiles.antt =====
-- Connection profiles (profiles/).
pub mod Ipsec
pub mod Model
pub mod Manager
