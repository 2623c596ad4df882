-- ===== src/Vpn/Safety/Sound.antt =====
-- The invariant of the backend: an idle backend holds no profile and no secret, the automatic
-- attempts stay within their limit, a closing backend starts nothing, and the end of a shutdown is
-- announced at most once.
mod Core
mod Connect
pub mod Stop
mod Events
mod Exit
mod SignIn
pub mod Machine
pub use Core.*
