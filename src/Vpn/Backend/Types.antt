-- ===== src/Vpn/Backend/Types.antt =====
-- The data of `VpnBackend`: the events it sends and receives, what it does to its surroundings, its
-- collaborators, and the fields of the object. The data of requests and snapshots is in Data.
use fortigate_vpn_linux_gui.Prelude.{ℕ, ℤ, String, Bool, Option, List}
use fortigate_vpn_linux_gui.Profiles.Ipsec.{IpsecSettings}
use fortigate_vpn_linux_gui.Profiles.Model.{ConnectionProfile}
use fortigate_vpn_linux_gui.Vpn.State.{ConnectionState, WaitReason}
use fortigate_vpn_linux_gui.Vpn.Backend.Errors.{VpnErrorCode, OutputHint, Message, HelperCode}
use fortigate_vpn_linux_gui.Vpn.Backend.Types.Data.{
  LogLevel, ConnectRequest, HelperError, Credentials, CertificateInfo, HelperProbe,
  OpenfortivpnCapabilities, BrowserStatus, DisconnectReason, VpnSnapshot,
}
mod Data
pub use Data.*

pub data VpnEvent : Type 0 where
  state_event : VpnSnapshot → Option CertificateInfo → VpnEvent
  error_event : VpnSnapshot → VpnErrorCode → Message → Option CertificateInfo → VpnEvent

pub data Timer : Type 0 where
  saml_timer reconnect_timer shutdown_timer : Timer

-- What leaves the object. A line with no severity is given one by the log buffer; `forced` is the
-- line "Illegal transition ... forcing." with its two states.
pub data Effect : Type 0 where
  log : String → Option LogLevel → String → Effect
  forced : ConnectionState → ConnectionState → Effect
  notify : VpnEvent → Effect
  start_helper : ConnectRequest → Option Credentials → Effect
  stop_helper : Bool → Effect
  close_helper : Effect
  open_browser : String → Effect
  schedule : Timer → Effect
  cancel : Timer → Effect
  start_saml_worker : ConnectionProfile → Effect
  shutdown_complete : Effect

pub data RequestResult : Type 0 where
  accepted : ConnectRequest → RequestResult
  rejected : HelperError → RequestResult

-- How the unprivileged sign-in of an IPsec SSO session ends: the user id and token that the
-- gateway handed out, or the exception that the worker caught.
pub data SamlOutcome : Type 0 where
  signed_in : String → String → SamlOutcome
  http_unknown http_rejected start_url_error bootstrap_error : String → SamlOutcome
  connect_error : String → Option String → SamlOutcome
  listener_timed_out listener_cancelled listener_malformed : String → SamlOutcome
  browser_launch_error : String → SamlOutcome
  tls_error unsafe_url : SamlOutcome

pub data EventKind : Type 0 where
  hello ack error_kind state_kind log_kind saml_url saml_listener saml_waiting : EventKind
  saml_success saml_failure certificate_kind connected_kind started exit status : EventKind

pub record HelperEvent : Type 0 where
  pub kind : EventKind
  pub line : Option String
  pub url : Option String
  pub certificate : Option CertificateInfo
  pub code : Option HelperCode
  pub message : Option String
  pub exit_code : Option ℤ
  pub argv : List String
  pub selected_executable : Option String
  pub openfortivpn_version : Option String
  pub supports_saml : Option Bool

-- What the backend asks of its collaborators: the request validation (helper/validation.py), the
-- helper client (system/helper_client.py), the choice of an executable, the URL checks, the
-- browser, and the reading of a line of output. An answer of the helper may depend on all that
-- went before.
pub record Ports : Type 0 where
  pub connect_request_from_fields : ConnectRequest → RequestResult
  pub probe : List Effect → HelperProbe
  pub start_error : List Effect → Option HelperError
  pub running_after_start : List Effect → Bool
  pub running_after_stop : List Effect → Bool
  pub running_after_close : List Effect → Bool
  pub pid : List Effect → Option ℕ
  pub argv : List Effect → List String
  pub selector : Bool → Option OpenfortivpnCapabilities
  pub locator : Option String
  pub validate_auth_url : String → Option String
  pub safe_url_for_display : String → String
  pub browser_error : List Effect → Option String
  pub redact_log_line : String → String
  pub is_benign_charon_noise : String → Bool
  pub classify_output : String → OutputHint
  pub format_sha256_fingerprint : String → String

-- The flags that let each line of a session be logged once.
pub record Logged : Type 0 where
  pub cert_sha : Option String
  pub cert_error_emitted : Bool
  pub tunnel_established : Bool
  pub gateway_connected : Bool
  pub ike_established : Bool
  pub ike_sa_init : Bool
  pub eap_progress : Bool
  pub child_sa : Bool
  pub listener : Bool
  pub disconnect : Bool
  pub saml_waiting : Bool

pub record Closing : Type 0 where
  pub shutting_down : Bool
  pub finished : Bool
  pub has_callback : Bool
  pub logged : Bool
  pub timer : Bool

pub record Reconnect : Type 0 where
  pub auto_enabled : Bool
  pub max_attempts : ℕ
  pub attempt : ℕ
  pub pending : Bool
  pub timer : Bool
  pub was : Bool
  pub manual : Bool
  pub manual_profile : Option ConnectionProfile
  pub skip_start_log : Bool

-- The fields of the object. `saml_timer`, `closing.timer` and `retry.timer` say that a timer is
-- held; a cancel event of a sign-in worker is named by the attempt that made it, and `set_events`
-- lists those that are set; `running` is what `helper.is_running()` answers.
pub record Backend : Type 0 where
  pub state : ConnectionState
  pub profile : Option ConnectionProfile
  pub last_profile : Option ConnectionProfile
  pub error_code : Option VpnErrorCode
  pub error_message : Option Message
  pub output_hint : OutputHint
  pub argv : List String
  pub use_sso : Bool
  pub capabilities : Option OpenfortivpnCapabilities
  pub browser_status : BrowserStatus
  pub safe_auth_url : Option String
  pub browser_opened : Bool
  pub saml_timer : Bool
  pub helper_probe : Option HelperProbe
  pub presented_certificate : Option CertificateInfo
  pub certificate_subject : Option String
  pub certificate_issuer : Option String
  pub attempt_id : ℕ
  pub retry_count : ℕ
  pub failing : Bool
  pub user_disconnect : Bool
  pub last_disconnect_reason : Option DisconnectReason
  pub last_failure_reason : Option VpnErrorCode
  pub ipsec_saml_cancel : Option ℕ
  pub set_events : List ℕ
  pub ipsec_saml_active : Bool
  pub ipsec_tunnel_psk : String
  pub logged : Logged
  pub closing : Closing
  pub retry : Reconnect
  pub running : Bool
  pub out : List Effect
