-- ===== src/Helper/Service.antt =====
-- The privileged helper service (helper/service.py): its state, its methods and the steps that a
-- request line, the process, the worker and the stopping thread make.
pub mod Types
pub mod Output
pub mod Lines
pub mod Teardown
pub mod Openfortivpn
pub mod Connect
pub mod BringUp
pub mod Run
