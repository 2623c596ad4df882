-- ===== src/Vpn/Backend/Machine.antt =====
-- The backend as a machine: `_on_helper_event`, the object that `__init__` makes, and one step for
-- each call of a method, callback of a timer, event of the helper and end of a worker thread. The
-- steps of a run follow one another; `helper_runs` is the helper client changing its answer to
-- `is_running()` between two of them.
use fortigate_vpn_linux_gui.Prelude.{
  ℕ, ℤ, pos, String, Bool, true, false, not, Option, none, some, List, [], ◌∷◌, str_eq,
  if◌then◌else◌,
}
use fortigate_vpn_linux_gui.Profiles.Model.{ConnectionProfile}
use fortigate_vpn_linux_gui.Vpn.State.{disconnected}
use fortigate_vpn_linux_gui.Vpn.Backend.Errors
use fortigate_vpn_linux_gui.Vpn.Backend.Errors.{no_hint}
use fortigate_vpn_linux_gui.Vpn.Backend.Types.{
  idle, Credentials, OpenfortivpnCapabilities, EventKind, log_kind, started, saml_url,
  saml_listener, saml_waiting, saml_success, saml_failure, certificate_kind, connected_kind, exit,
  error_kind, HelperEvent, SamlOutcome, Backend, Ports,
}
use fortigate_vpn_linux_gui.Vpn.Backend.Core.{app_log_unless, fail_saml_session}
use fortigate_vpn_linux_gui.Vpn.Backend.Session.{unlogged}
use fortigate_vpn_linux_gui.Vpn.Backend.Connect.{connect}
use fortigate_vpn_linux_gui.Vpn.Backend.Stop.{disconnect}
use fortigate_vpn_linux_gui.Vpn.Backend.Reconnect.{reconnect, set_auto_reconnect}
use fortigate_vpn_linux_gui.Vpn.Backend.Events.{
  on_connected, handle_log_line, handle_certificate, enter_waiting_for_auth, handle_saml_success,
  handle_helper_error, maybe_open_browser, on_saml_timeout,
}
use fortigate_vpn_linux_gui.Vpn.Backend.Retry.{on_reconnect_timer}
use fortigate_vpn_linux_gui.Vpn.Backend.Exit.{on_exit}
use fortigate_vpn_linux_gui.Vpn.Backend.SignIn.{on_ipsec_saml_waiting, finish_sign_in}
use fortigate_vpn_linux_gui.Vpn.Backend.Shutdown.{begin_shutdown, on_shutdown_timeout, shutdown}

abbrev is_text : Option String → Bool
is_text none = false
is_text (some t) = not (str_eq t "")

abbrev bool_or : Option Bool → Bool → Bool
bool_or none d = d
bool_or (some v) d = v

-- The capabilities after the helper has named the executable that it started.
abbrev started_capabilities :
    HelperEvent → Option OpenfortivpnCapabilities → Option OpenfortivpnCapabilities
started_capabilities e none = none
started_capabilities e (some c) = elim e.selected_executable [
  | none ↦ some c
  | some path ↦
      if str_eq path ""
      then some c
      else some (record c {
        executable_path = path;
        version = if is_text e.openfortivpn_version then e.openfortivpn_version else c.version;
        supports_saml = bool_or e.supports_saml c.supports_saml;
      })
]

abbrev exit_code_of : HelperEvent → ℤ
exit_code_of e = elim e.exit_code [ none ↦ pos 1 | some code ↦ code ]

module _ (p : Ports) (seconds : String) where
  unfoldable pub with_text : Option String → (String → Backend → Backend) → Backend → Backend
  with_text none handle b = b
  with_text (some t) handle b = if str_eq t "" then b else handle t b

  unfoldable pub dispatch : EventKind → HelperEvent → Backend → Backend
  dispatch log_kind e b = with_text e.line (handle_log_line p) b
  dispatch started e b = record b {
    argv = e.argv;
    capabilities = started_capabilities e b.capabilities;
  }
  dispatch saml_url e b = with_text e.url (maybe_open_browser p) b
  dispatch saml_listener e b =
      app_log_unless b.logged.listener "SAML callback listener ready."
        (record b { logged = record (b.logged) { listener = true } })
  dispatch saml_waiting e b = enter_waiting_for_auth p b
  dispatch saml_success e b = handle_saml_success p b
  dispatch saml_failure e b = fail_saml_session p Errors.saml_failed Errors.saml_auth_message b
  dispatch certificate_kind e b = elim e.certificate [
    | none ↦ b
    | some info ↦ handle_certificate p info b
  ]
  dispatch connected_kind e b = on_connected p b
  dispatch exit e b = on_exit p seconds (exit_code_of e) b
  dispatch error_kind e b = handle_helper_error p e.code e.message b
  dispatch _ e b = b

  unfoldable pub on_helper_event : HelperEvent → Backend → Backend
  on_helper_event e b = dispatch e.kind e b

-- `VpnBackend(auto_reconnect=..., reconnect_max_attempts=...)`
abbrev pub initial : Bool → ℕ → Backend
initial auto_reconnect max_attempts = record {
  state = disconnected;
  profile = none;
  last_profile = none;
  error_code = none;
  error_message = none;
  output_hint = no_hint;
  argv = [];
  use_sso = false;
  capabilities = none;
  browser_status = idle;
  safe_auth_url = none;
  browser_opened = false;
  saml_timer = false;
  helper_probe = none;
  presented_certificate = none;
  certificate_subject = none;
  certificate_issuer = none;
  attempt_id = 0;
  retry_count = 0;
  failing = false;
  user_disconnect = false;
  last_disconnect_reason = none;
  last_failure_reason = none;
  ipsec_saml_cancel = none;
  set_events = [];
  ipsec_saml_active = false;
  ipsec_tunnel_psk = "";
  logged = unlogged;
  closing = record {
    shutting_down = false;
    finished = false;
    has_callback = false;
    logged = false;
    timer = false;
  };
  retry = record {
    auto_enabled = auto_reconnect;
    max_attempts = max_attempts;
    attempt = 0;
    pending = false;
    timer = false;
    was = false;
    manual = false;
    manual_profile = none;
    skip_start_log = false;
  };
  running = false;
  out = [];
}

pub data Action : Type 0 where
  call_connect : Option ConnectionProfile → Bool → Option Credentials → Action
  call_disconnect : Bool → Action
  call_reconnect : Option ConnectionProfile → Action
  call_set_auto_reconnect : Bool → Action
  call_begin_shutdown : Bool → Action
  call_shutdown : Action
  shutdown_timer_fires saml_timer_fires reconnect_timer_fires : Action
  helper_event : HelperEvent → Action
  worker_waits : String → Action
  worker_ends : ConnectionProfile → ℕ → SamlOutcome → Action
  helper_runs : Bool → Action

module _ (p : Ports) (seconds : String) where
  unfoldable pub step : Action → Backend → Backend
  step (call_connect q after_trust credentials) = connect p q after_trust credentials
  step (call_disconnect wait) = disconnect p wait false
  step (call_reconnect q) = reconnect p q
  step (call_set_auto_reconnect enabled) = set_auto_reconnect enabled
  step (call_begin_shutdown has_callback) = begin_shutdown p has_callback
  step call_shutdown = shutdown p
  step shutdown_timer_fires = on_shutdown_timeout p
  step saml_timer_fires = on_saml_timeout p
  step reconnect_timer_fires = on_reconnect_timer p
  step (helper_event e) = on_helper_event p seconds e
  step (worker_waits url) = on_ipsec_saml_waiting p url
  step (worker_ends q attempt outcome) = finish_sign_in p q attempt outcome
  step (helper_runs running) = λ b. record b { running = running }

  unfoldable pub run : List Action → Backend → Backend
  run [] b = b
  run (a ∷ as') b = run as' (step a b)
