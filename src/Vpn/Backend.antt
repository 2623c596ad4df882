-- ===== src/Vpn/Backend.antt =====
-- The connection backend, `VpnBackend` of vpn/backend.py, as functions on its state. The trace
-- `out` of the state lists what a method does outside the object, the newest first: lines of the
-- log, events for the subscribers, calls of the helper, of the browser and of the timers.
pub mod Errors
pub mod Types
pub mod Core
pub mod Session
pub mod Connect
pub mod Stop
pub mod Reconnect
pub mod Shutdown
pub mod Machine
pub mod Exit
pub mod SignIn
pub mod Events
pub mod Failure
pub mod Retry
