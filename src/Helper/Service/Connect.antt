-- ===== src/Helper/Service/Connect.antt =====
-- `connect` and `_connect_ipsec` (helper/service.py).
use fortigate_vpn_linux_gui.Prelude.{
  ℕ, suc, String, Bool, false, not, ◌&&◌, Option, none, some, List, [], ◌∷◌, ◌<>◌, Result, ok,
  raised, is_some, ◌▷◌, if◌then◌else◌, decimal,
}
use fortigate_vpn_linux_gui.Profiles.Ipsec.{IpsecSettings, default_ipsec_settings, is_supported}
use fortigate_vpn_linux_gui.Vpn.Backend.Types.{ConnectRequest, Credentials}
use fortigate_vpn_linux_gui.Helper.Service.Types.{
  IpsecRuntimeFiles, GatewayHostRoute, event, spawned, recovered_leftovers, worker_started,
  wrote_runtime, wiped_credentials, wrote_route, route_failed, wiped_dir, began, armed,
  nothing_reported, no_dns, Service, Host,
}
use fortigate_vpn_linux_gui.Helper.Service.Output.{effect}
use fortigate_vpn_linux_gui.Helper.Service.Teardown.{
  endpoint_text, finalize_ipsec_teardown, log_lines, drop_ipsec,
}
use fortigate_vpn_linux_gui.Helper.Service.Openfortivpn.{
  internal_error, Outcome, fails, is_ipsec, own_process, started_event, connect_openfortivpn,
}

abbrev pub build_failed : String
build_failed =
    "FortiClient compatibility license-info could not be built for the private IKEv2 SSO runtime."

unfoldable pub begin_ipsec : List String → String → String → IpsecRuntimeFiles → Service → Service
begin_ipsec argv runtime swanctl files s = record s {
  cert_lines = [];
  saml = false;
  reported = nothing_reported;
  ipsec_cancel = false;
  argv = argv;
  ipsec_runtime = some runtime;
  ipsec_files = some files;
  ipsec_swanctl = some swanctl;
  startup_logs = [];
  dns = no_dns;
  teardown_done = false;
  out = armed ∷ began ∷ s.out;
}

module _ (h : Host) (output : String → Service → Service) where
  -- From the reset of the fields to the start of the worker.
  unfoldable pub spawn_ipsec :
      String → String → String → IpsecRuntimeFiles → List String → Service → Outcome
  unfolding begin_ipsec own_process finalize_ipsec_teardown drop_ipsec
  spawn_ipsec charon swanctl runtime files argv s =
      let s' = begin_ipsec argv runtime swanctl files s ▷ effect (spawned argv) in
      let e = record (started_event h output s') {
        selected_executable = some charon;
        backend = some "ipsec";
      } in
      if h.starts s'.out argv
      then (own_process s' ▷ effect (event e) ▷ effect worker_started, none)
      else fails "IPSEC_DAEMON_START_FAILED" "The IPsec daemon failed to start."
          (drop_ipsec (finalize_ipsec_teardown h output (some files) s'))

  abbrev pub with_charon :
      String → String → String → IpsecRuntimeFiles → Result String (List String) → Service → Outcome
  with_charon charon swanctl runtime files (raised reason) s =
      fails "INVALID_EXECUTABLE" reason (finalize_ipsec_teardown h output (some files) s)
  with_charon charon swanctl runtime files (ok argv) s =
      spawn_ipsec charon swanctl runtime files argv s

  abbrev pub vid_lines : ℕ → List String
  vid_lines length =
      "FortiClient compatibility Vendor IDs enabled for private IKEv2 SSO runtime"
      ∷ "3 Vendor IDs configured for IKE_SA_INIT"
      ∷ "FortiClient compatibility: first IKE_AUTH will omit EAP_ONLY"
      ∷ "FortiClient compatibility: first IKE_AUTH will omit MSG_ID_SYN_SUP"
      ∷ "FortiClient compatibility: first IKE_AUTH will add INITIAL_CONTACT"
      ∷ "FortiClient compatibility: first IKE_AUTH will add private Notify 0xF100"
      ∷ ("FortiClient compatibility: license-info payload length: " <> decimal length)
      ∷ "FortiClient compatibility: first IKE_AUTH will reposition Notify 0xF100 before CFG_REQUEST"
      ∷ "FortiClient compatibility: first IKE_AUTH will omit initiator AUTH"
      ∷ "FortiClient compatibility: EAP-only local authentication; CHILD_SA deferred until EAP completes"
      ∷ "FortiClient compatibility: first IKE_AUTH will rewrite CP request attributes"
      ∷ "FortiClient compatibility: CFG_REPLY split-include will narrow CHILD_SA remote TS"
      ∷ []

  -- The checks of a runtime that emits the vendor IDs: what fails, or the service with its lines.
  unfoldable pub vid_checks : String → IpsecRuntimeFiles → Option ℕ → Service → Outcome
  unfolding finalize_ipsec_teardown
  vid_checks runtime files none s =
      fails "IPSEC_DAEMON_START_FAILED"
        (if h.plugin_missing s.out runtime
          then "FortiClient compatibility plugin was not found for the private IKEv2 SSO runtime."
          else build_failed)
        (finalize_ipsec_teardown h output (some files) s)
  vid_checks runtime files (some length) s =
      if h.plugin_missing s.out runtime
      then fails "IPSEC_DAEMON_START_FAILED"
          "FortiClient compatibility plugin was not found for the private IKEv2 SSO runtime."
          (finalize_ipsec_teardown h output (some files) s)
      else (log_lines h output (vid_lines length) s, none)

  abbrev pub then_charon : String → String → String → IpsecRuntimeFiles → Outcome → Outcome
  then_charon charon swanctl runtime files (s, some failure) = (s, some failure)
  then_charon charon swanctl runtime files (s, none) =
      with_charon charon swanctl runtime files (h.charon_argv charon files) s

  unfoldable pub persist_gateway_host_route :
      Option GatewayHostRoute → Option String → Service → Outcome
  persist_gateway_host_route none path s = (s, none)
  persist_gateway_host_route (some route) none s = (s, none)
  persist_gateway_host_route (some route) (some path) s =
      if h.writes_route s.out path route
      then (effect (wrote_route path route) s, none)
      else (effect route_failed s, some internal_error)

  -- What follows the writing of the route's state, which nothing guards.
  abbrev pub then_checks : String → String → String → Bool → IpsecRuntimeFiles → Outcome → Outcome
  then_checks charon swanctl runtime sso files (s, some failure) = (s, some failure)
  then_checks charon swanctl runtime sso files (s, none) =
      then_charon charon swanctl runtime files
        (if sso then vid_checks runtime files (h.license_length s.out files) s else (s, none))

  -- The writing of the files may fail when some of them, secrets included, are written.
  abbrev pub with_files :
      String → String → String → Bool → Option IpsecRuntimeFiles → Service → Outcome
  with_files charon swanctl runtime sso none s =
      let s' =
        s
        ▷ effect wrote_runtime
        ▷ finalize_ipsec_teardown h output none
        ▷ effect (wiped_dir runtime) in
      if sso then fails "IPSEC_DAEMON_START_FAILED" build_failed s' else (s', some internal_error)
  with_files charon swanctl runtime sso (some written) s =
      let files = record written { identity = s.attempts } in
      record s { attempts = suc s.attempts }
      ▷ effect wrote_runtime
      ▷ effect wiped_credentials
      ▷ persist_gateway_host_route s.gateway_route files.gateway_route
      ▷ then_checks charon swanctl runtime sso files

  abbrev pub captured : Result String GatewayHostRoute → Service → Service
  captured (raised reason) s =
      output ("Gateway route snapshot unavailable: " <> reason) (record s { gateway_route = none })
  captured (ok route) s =
      output ("Gateway route snapshot captured: " <> endpoint_text route)
        (record s { gateway_route = some route })

  unfoldable pub capture_gateway_host_route : String → Service → Service
  capture_gateway_host_route gateway s =
      captured (h.gateway_snapshot s.out gateway)
        (effect armed (record s { teardown_done = false }))

  -- With the conflicting ports' lines, where an unrelated IKE daemon holds them.
  abbrev pub with_ports :
      ConnectRequest
      → IpsecSettings
      → Credentials
      → String
      → String
      → Option (List String)
      → Service
      → Outcome
  with_ports r settings credentials charon swanctl (some lines) s =
      fails "IKE_PORT_IN_USE"
        "IPsec cannot start because another IKE service is using UDP ports 500/4500. See Diagnostics for details."
        (log_lines h output lines s)
  with_ports r settings credentials charon swanctl none s =
      let runtime = h.runtime_dir s.out in
      let s' = capture_gateway_host_route r.gateway s in
      with_files charon swanctl runtime (h.emits_vids settings)
        (h.write_runtime s'.out r settings credentials) s'

  abbrev pub with_daemon :
      ConnectRequest → IpsecSettings → Credentials → Option (String × String) → Service → Outcome
  with_daemon r settings credentials none s =
      fails "IPSEC_BACKEND_MISSING"
        "strongSwan (charon/swanctl) was not found. Install the distribution strongSwan packages; they are not bundled with this application."
        s
  with_daemon r settings credentials (some (charon, swanctl)) s =
      if not (h.is_approved_ipsec charon swanctl)
      then fails "INVALID_EXECUTABLE"
          "Refusing to execute a binary that is not an approved IPsec path." s
      else with_ports r settings credentials charon swanctl (h.port_conflict s.out) s

  abbrev pub settings_from_request : Option IpsecSettings → IpsecSettings
  settings_from_request none = default_ipsec_settings
  settings_from_request (some settings) = settings

  unfoldable pub connect_ipsec : ConnectRequest → Option Credentials → Service → Outcome
  unfolding spawn_ipsec vid_checks persist_gateway_host_route capture_gateway_host_route
      is_supported
  connect_ipsec r none s =
      fails "INVALID_CREDENTIALS" "IPsec connect requires a pre-shared key and user credentials." s
  connect_ipsec r (some credentials) s =
      let settings = settings_from_request r.ipsec in
      if not (is_supported settings)
      then fails "UNSUPPORTED_IPSEC" (h.support_summary settings) s
      else with_daemon r settings credentials (h.discover s.out) s

  unfoldable pub connect : ConnectRequest → Option Credentials → Service → Outcome
  unfolding connect_ipsec connect_openfortivpn
  connect r credentials s =
      let found = h.has_leftover s.out in
      let s' = effect recovered_leftovers s in
      let s'' =
        if found
        then output "Found leftover application-owned IPsec state before connect." s'
        else s' in
      if is_some s.process && s.alive
      then fails "ALREADY_CONNECTED" "A privileged VPN process is already running." s
      else if is_ipsec r.backend
      then connect_ipsec r credentials s''
      else connect_openfortivpn h output r s''
