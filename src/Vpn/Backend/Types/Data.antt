-- ===== src/Vpn/Backend/Types/Data.antt =====
-- The requests, probe results and certificates of the helper (helper/protocol.py), and the snapshot
-- (vpn/models.py).
use fortigate_vpn_linux_gui.Prelude.{ℕ, String, Bool, Option, List}
use fortigate_vpn_linux_gui.Profiles.Ipsec.{IpsecSettings}
use fortigate_vpn_linux_gui.Vpn.State.{ConnectionState, WaitReason}
use fortigate_vpn_linux_gui.Vpn.Backend.Errors.{VpnErrorCode, Message, HelperCode}

pub data LogLevel : Type 0 where
  debug info warning error : LogLevel

pub data BackendName : Type 0 where
  openfortivpn ipsec : BackendName

pub data AuthMode : Type 0 where
  saml standard : AuthMode

pub record ConnectRequest : Type 0 where
  pub gateway : String
  pub port : ℕ
  pub auth_mode : AuthMode
  pub trusted_certificate_fingerprint : Option String
  pub backend : BackendName
  pub ipsec : Option IpsecSettings

pub record HelperError : Type 0 where
  pub code : HelperCode
  pub message : String

pub record Credentials : Type 0 where
  pub psk : String
  pub username : String
  pub password : String

pub record CertificateInfo : Type 0 where
  pub subject : String
  pub issuer : String
  pub sha256 : String

pub data ProbeStatus : Type 0 where
  ready missing polkit_unavailable version_mismatch startup_failed : ProbeStatus

pub record HelperProbe : Type 0 where
  pub installed : Bool
  pub helper_version : Option String
  pub status : ProbeStatus
  pub version_mismatch : Bool
  pub capabilities : List String

-- `source == "locator"` marks a path that was found without a version probe.
pub record OpenfortivpnCapabilities : Type 0 where
  pub executable_path : String
  pub version : Option String
  pub supports_saml : Bool
  pub supports_cookie_stdin : Bool
  pub from_locator : Bool

pub record ProcessInfo : Type 0 where
  pub pid : Option ℕ
  pub executable : Option String
  pub argv : List String

pub data BrowserStatus : Type 0 where
  idle not_required opening opened browser_failed : BrowserStatus

pub data DisconnectReason : Type 0 where
  user_disconnect connection_lost certificate_trust_cancelled : DisconnectReason

pub record VpnSnapshot : Type 0 where
  pub state : ConnectionState
  pub profile_id : Option String
  pub profile_name : Option String
  pub error_code : Option VpnErrorCode
  pub error_message : Option Message
  pub process : Option ProcessInfo
  pub auth_mode : Option String
  pub browser_status : BrowserStatus
  pub safe_auth_url : Option String
  pub selected_executable : Option String
  pub openfortivpn_version : Option String
  pub supports_saml : Option Bool
  pub supports_cookie_stdin : Option Bool
  pub use_sso : Option Bool
  pub vpn_backend : Option BackendName
  pub failure_reason : Option VpnErrorCode
  pub helper_installed : Option Bool
  pub helper_version : Option String
  pub helper_status : Option ProbeStatus
  pub privileged_pid : Option ℕ
  pub certificate_pinned : Option Bool
  pub certificate_fingerprint : Option String
  pub certificate_subject : Option String
  pub certificate_issuer : Option String
  pub presented_certificate : Option CertificateInfo
  pub helper_probe : Option HelperProbe
  pub wait_reason : WaitReason
  pub attempt_id : ℕ
  pub retry_count : ℕ
  pub last_disconnect_reason : Option DisconnectReason
  pub last_failure_reason : Option VpnErrorCode
  pub shutdown_in_progress : Bool
  pub auto_reconnect_enabled : Bool
  pub reconnect_pending : Bool
  pub reconnect_attempt : ℕ
  pub reconnect_limit : ℕ
  pub manual_reconnect : Bool
