-- ===== src/Helper/Service/Openfortivpn.antt =====
-- `_connect_openfortivpn`, and what both kinds of start share (helper/service.py). A method that raises
-- leaves the object as it was at that point: it returns the object with what was raised.
use fortigate_vpn_linux_gui.Prelude.{
  suc, String, Bool, true, false, not, Option, none, some, List, [], ◌∷◌, Result, ok, raised, ◌▷◌,
  if◌then◌else◌,
}
use fortigate_vpn_linux_gui.Vpn.Backend.Types.{
  started, ConnectRequest, OpenfortivpnCapabilities, AuthMode, saml, standard, BackendName,
  openfortivpn, ipsec,
}
use fortigate_vpn_linux_gui.Helper.Protocol.{HelperEvent, HelperError}
use fortigate_vpn_linux_gui.Helper.Service.Types.{event, spawned, began, Service, Host}
use fortigate_vpn_linux_gui.Helper.Service.Output.{bare, effect}

-- A `HelperError` with its code and message, or an exception of another kind.
pub data Failure : Type 0 where
  helper_error : String → String → Failure
  internal_error : Failure

abbrev pub Outcome : Type 0
Outcome = Service × Option Failure

abbrev pub fails : String → String → Service → Outcome
fails code message s = (s, some (helper_error code message))

abbrev pub is_saml : AuthMode → Bool
is_saml saml = true
is_saml standard = false

abbrev pub is_ipsec : BackendName → Bool
is_ipsec openfortivpn = false
is_ipsec ipsec = true

abbrev pub no_executable : String
no_executable = "Refusing to execute a binary that is not an approved openfortivpn path."

-- The fields that both kinds of session reset; `start_error` and `cli_error` only an IPsec one.
unfoldable pub begin_openfortivpn :
    Bool → List String → OpenfortivpnCapabilities → Service → Service
begin_openfortivpn use_saml argv c s = record s {
  cert_lines = [];
  saml = use_saml;
  reported = record s.reported { cert_sha = none; connected = false; saml_url = false };
  argv = argv;
  capabilities = some c;
  out = began ∷ s.out;
}

-- `process.start()` succeeded and the object holds the process.
unfoldable pub own_process : Service → Service
own_process s = record s { process = some s.processes; alive = true; processes = suc s.processes }

module _ (h : Host) (output : String → Service → Service) where
  abbrev pub started_event : Service → HelperEvent
  started_event s = record (bare started) {
    pid = h.pid s.processes;
    argv = s.argv;
    state = some "starting";
  }

  abbrev pub missing : Option OpenfortivpnCapabilities → Service → Outcome
  missing none s = fails "OPENFORTIVPN_MISSING" "openfortivpn executable was not found." s
  missing (some c) s = fails "SSO_NOT_SUPPORTED" (h.unsupported_message c.version) s

  -- From the reset of the fields to the report that the process runs.
  unfoldable pub spawn_openfortivpn :
      Bool → List String → OpenfortivpnCapabilities → Service → Outcome
  unfolding begin_openfortivpn own_process
  spawn_openfortivpn use_saml argv c s =
      let s' = begin_openfortivpn use_saml argv c s ▷ effect (spawned argv) in
      let e = record (started_event s') {
        selected_executable = some c.executable_path;
        openfortivpn_version = c.version;
        supports_saml = some c.supports_saml;
        backend = some "openfortivpn";
      } in
      if h.starts s'.out argv
      then (own_process s' ▷ effect (event e), none)
      else fails "FAILED_TO_START" "openfortivpn failed to start." s'

  abbrev pub with_argv :
      Bool → Result HelperError (List String) → OpenfortivpnCapabilities → Service → Outcome
  with_argv use_saml (raised e) c s = fails e.code e.message s
  with_argv use_saml (ok argv) c s = spawn_openfortivpn use_saml argv c s

  abbrev pub with_executable : ConnectRequest → Option OpenfortivpnCapabilities → Service → Outcome
  with_executable r none s = missing (if is_saml r.auth_mode then h.select s.out false else none) s
  with_executable r (some c) s =
      if not (h.is_approved c.executable_path)
      then fails "INVALID_EXECUTABLE" no_executable s
      else with_argv (is_saml r.auth_mode) (h.helper_argv c.executable_path r) c s

  unfoldable pub connect_openfortivpn : ConnectRequest → Service → Outcome
  unfolding spawn_openfortivpn
  connect_openfortivpn r s = with_executable r (h.select s.out (is_saml r.auth_mode)) s
