-- ===== src/Vpn.antt =====
-- The VPN backend of the desktop program (src/fortigate_vpn_gui/vpn).
pub mod State
pub mod Backend
pub mod Safety
pub mod SplitInclude
