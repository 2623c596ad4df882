-- ===== src/Helper/Service/Types.antt =====
-- The state of the privileged helper service, what it reports and does, and what it asks of the
-- system and of the parsers of lines (helper/service.py). `began`, `armed` and `torn_down` mark in
-- the trace where a session's fields were reset, where a teardown became due and where one ran;
-- `too_deep` marks a nesting of output lines beyond the depth given, and `overtaken` a report of a
-- thread whose test of a flag another thread's setting of it has overtaken.
use fortigate_vpn_linux_gui.Prelude.{ℕ, ℤ, String, Bool, false, Option, none, List, [], Result}
use fortigate_vpn_linux_gui.Profiles.Ipsec.{IpsecSettings}
use fortigate_vpn_linux_gui.Vpn.Backend.Types.{
  CertificateInfo, ConnectRequest, Credentials, OpenfortivpnCapabilities,
}
use fortigate_vpn_linux_gui.Vpn.SplitInclude.{SplitIncludeInfo}
use fortigate_vpn_linux_gui.Helper.Protocol.{HelperEvent, HelperError}

pub record SwanctlCommandResult : Type 0 where
  pub returncode : ℕ
  pub stdout : List String
  pub stderr : List String

-- The paths of one attempt; `identity` tells the objects of two attempts apart, as `is` does.
pub record IpsecRuntimeFiles : Type 0 where
  pub identity : ℕ
  pub runtime_dir : String
  pub strongswan_conf : String
  pub swanctl_conf : String
  pub swanctl_client_conf : String
  pub dns_state : String
  pub license_info : Option String
  pub gateway_route : Option String

pub record GatewayHostRoute : Type 0 where
  pub destination : String
  pub via : Option String
  pub device : String

pub record LinkDns : Type 0 where
  pub servers : List String
  pub domains : List String

pub record DnsState : Type 0 where
  pub pre_vpn : Option LinkDns
  pub nm_managed : Bool

pub record Restored : Type 0 where
  pub verified : Bool
  pub detail : String
  pub status_text : List String

pub data SamlEvent : Type 0 where
  auth_url : Option String → SamlEvent
  listener_ready saml_waits saml_succeeded saml_failed saml_nothing : SamlEvent

pub data Effect : Type 0 where
  event : HelperEvent → Effect
  spawned : List String → Effect
  terminated killed stopped_leftovers recovered_leftovers worker_started : Effect
  swanctl : List String → Effect
  wrote_runtime wiped_credentials : Effect
  wrote_route : String → GatewayHostRoute → Effect
  applied_dns : String → List String → List String → Bool → Effect
  restored_dns : String → Effect
  restored_route : GatewayHostRoute → Effect
  wiped : Option IpsecRuntimeFiles → Effect
  wiped_dir : String → Effect
  route_failed : Effect
  began armed torn_down too_deep overtaken : Effect

-- The flags that say what a session has reported.
pub record Reported : Type 0 where
  pub cert_sha : Option String
  pub connected : Bool
  pub saml_url : Bool
  pub start_error : Bool
  pub cli_error : Bool

pub record Dns : Type 0 where
  pub servers : List String
  pub domains : List String
  pub vip : Option String
  pub applied : Bool
  pub split : Option SplitIncludeInfo

-- The fields of the object. `alive` says that `poll()` of the held process answers `None`;
-- `cert_lines` are the lines that the certificate parser was fed since it was reset, newest first;
-- `processes` counts the processes started, and `attempts` the attempts that wrote files.
pub record Service : Type 0 where
  pub process : Option ℕ
  pub alive : Bool
  pub processes : ℕ
  pub attempts : ℕ
  pub argv : List String
  pub capabilities : Option OpenfortivpnCapabilities
  pub cert_lines : List String
  pub saml : Bool
  pub reported : Reported
  pub pending_ipsec : Option ConnectRequest
  pub ipsec_runtime : Option String
  pub ipsec_files : Option IpsecRuntimeFiles
  pub ipsec_swanctl : Option String
  pub ipsec_cancel : Bool
  pub startup_logs : List String
  pub dns : Dns
  pub gateway_route : Option GatewayHostRoute
  pub teardown_done : Bool
  pub out : List Effect

abbrev pub nothing_reported : Reported
nothing_reported = record {
  cert_sha = none;
  connected = false;
  saml_url = false;
  start_error = false;
  cli_error = false;
}

abbrev pub no_dns : Dns
no_dns = record { servers = []; domains = []; vip = none; applied = false; split = none }

abbrev pub new_service : Service
new_service = record {
  process = none;
  alive = false;
  processes = 0;
  attempts = 0;
  argv = [];
  capabilities = none;
  cert_lines = [];
  saml = false;
  reported = nothing_reported;
  pending_ipsec = none;
  ipsec_runtime = none;
  ipsec_files = none;
  ipsec_swanctl = none;
  ipsec_cancel = false;
  startup_logs = [];
  dns = no_dns;
  gateway_route = none;
  teardown_done = false;
  out = [];
}

-- What the service asks of the operating system and of the modules that read lines. An answer of
-- the system may depend on the whole trace.
pub record Host : Type 0 where
  pub redact : String → String
  pub is_noise : String → Bool
  pub cert_feed : List String → Option CertificateInfo
  pub cert_snapshot : List String → Option CertificateInfo
  pub is_certificate_failure : String → Bool
  pub is_connected_line : String → Bool
  pub saml_line : String → SamlEvent
  pub safe_url : String → Option String
  pub dns_line : String → Option String
  pub vip_line : String → Option String
  pub split_line : String → Option SplitIncludeInfo
  pub is_wildcard : String → Bool
  pub is_usage_line : String → Bool
  pub is_cli_error_line : String → Bool
  pub interface_of : List Effect → String → Option String
  pub apply_dns : List Effect → String → List String → List String → Bool → Result String DnsState
  pub restore_dns : List Effect → String → Option Restored
  pub has_leftover : List Effect → Bool
  pub select : List Effect → Bool → Option OpenfortivpnCapabilities
  pub is_approved : String → Bool
  pub helper_argv : String → ConnectRequest → Result HelperError (List String)
  pub unsupported_message : Option String → String
  pub starts : List Effect → List String → Bool
  pub pid : ℕ → Option ℤ
  pub support_summary : IpsecSettings → String
  pub discover : List Effect → Option (String × String)
  pub is_approved_ipsec : String → String → Bool
  pub port_conflict : List Effect → Option (List String)
  pub runtime_dir : List Effect → String
  pub emits_vids : IpsecSettings → Bool
  pub gateway_snapshot : List Effect → String → Result String GatewayHostRoute
  pub write_runtime :
      List Effect → ConnectRequest → IpsecSettings → Credentials → Option IpsecRuntimeFiles
  pub writes_route : List Effect → String → GatewayHostRoute → Bool
  pub plugin_missing : List Effect → String → Bool
  pub license_length : List Effect → IpsecRuntimeFiles → Option ℕ
  pub charon_argv : String → IpsecRuntimeFiles → Result String (List String)
  pub read_route : List Effect → String → Option GatewayHostRoute
  pub restore_route : List Effect → GatewayHostRoute → Restored
  pub swanctl_argv : String → String → Option (List String)
  pub swanctl_load_argv : String → String → Result String (List String × List String)
  pub initiate_report : List String → String × String
