-- ===== src/Vpn/Safety.antt =====
-- What the backend guarantees.
pub mod Sound
mod Effects
mod Forcings
mod Halted
pub mod Run
pub mod Transitions
pub mod Stop
pub mod Certificate
pub mod Lost
pub mod Shutdown
mod Tests
pub use Effects.*
