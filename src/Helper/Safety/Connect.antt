-- ===== src/Helper/Safety/Connect.antt =====
-- Starting a session keeps the invariant (helper/service.py).
use fortigate_vpn_linux_gui.Prelude.{
  ℕ, suc, String, Bool, false, not, ◌&&◌, Option, none, some, List, ◌∷◌, Result, ok, raised,
  is_some, if◌then◌else◌, arith,
}
use fortigate_vpn_linux_gui.Profiles.Ipsec.{IpsecSettings, is_supported}
use fortigate_vpn_linux_gui.Vpn.Backend.Types.{
  ConnectRequest, Credentials, OpenfortivpnCapabilities,
}
use fortigate_vpn_linux_gui.Helper.Protocol.{HelperError}
use fortigate_vpn_linux_gui.Helper.Service.Types.{
  IpsecRuntimeFiles, GatewayHostRoute, spawned, recovered_leftovers, wrote_runtime,
  wiped_credentials, armed, began, Service, Host,
}
use fortigate_vpn_linux_gui.Helper.Service.Output.{effect}
use fortigate_vpn_linux_gui.Helper.Service.Teardown.{drop_ipsec}
use fortigate_vpn_linux_gui.Helper.Service.Connect.{
  begin_ipsec, spawn_ipsec, with_charon, vid_lines, vid_checks, then_charon,
  persist_gateway_host_route, then_checks, with_files, captured, capture_gateway_host_route,
  with_daemon, with_ports, settings_from_request, connect_ipsec, connect,
}
use fortigate_vpn_linux_gui.Helper.Service.Openfortivpn.{
  Outcome, is_saml, is_ipsec, missing, with_argv, with_executable, begin_openfortivpn, own_process,
  spawn_openfortivpn, connect_openfortivpn,
}
use fortigate_vpn_linux_gui.Helper.Safety.Sound.{OnFrame, Sound, Keeps, if_either}
use fortigate_vpn_linux_gui.Helper.Safety.Teardown.{Once, finalize-Keeps, log_lines-Keeps}

abbrev pub Safe : Service → Type 0
Safe = Sound 1 Once

abbrev pub SafeOutcome : Outcome → Type 0
SafeOutcome (s, failure) = Safe s

module _ (k : Host) (output : String → Service → Service)
    (keeps : (T : OnFrame) (line : String) → Keeps T (output line)) where
  missing-Safe :
      (o : Option OpenfortivpnCapabilities) (s : Service)
      → Safe s
      → SafeOutcome (missing k output o s)
  missing-Safe none s h = h
  missing-Safe (some c) s h = h

  spawn_openfortivpn-Safe :
      (use_saml : Bool) (argv : List String) (c : OpenfortivpnCapabilities) (s : Service)
      → Safe s
      → SafeOutcome (spawn_openfortivpn k output use_saml argv c s)
  unfolding spawn_openfortivpn begin_openfortivpn own_process
  spawn_openfortivpn-Safe use_saml argv c s h =
      if_either SafeOutcome (k.starts (spawned argv ∷ began ∷ s.out) argv) _ _
        (λ e. (h.0, omega arith, omega arith, h.3)) (λ e. (h.0, omega arith, omega arith, h.3))

  with_argv-Safe :
      (use_saml : Bool) (r : Result HelperError (List String)) (c : OpenfortivpnCapabilities)
      (s : Service)
      → Safe s
      → SafeOutcome (with_argv k output use_saml r c s)
  with_argv-Safe use_saml (raised e) c s h = h
  with_argv-Safe use_saml (ok argv) c s h = spawn_openfortivpn-Safe use_saml argv c s h

  with_executable-Safe :
      (r : ConnectRequest) (o : Option OpenfortivpnCapabilities) (s : Service)
      → Safe s
      → SafeOutcome (with_executable k output r o s)
  with_executable-Safe r none s h =
      missing-Safe (if is_saml r.auth_mode then k.select s.out false else none) s h
  with_executable-Safe r (some c) s h =
      if_either SafeOutcome (not (k.is_approved c.executable_path)) _ _ (λ e. h)
        (λ e. with_argv-Safe (is_saml r.auth_mode) (k.helper_argv c.executable_path r) c s h)

  connect_openfortivpn-Safe :
      (r : ConnectRequest) (s : Service) → Safe s → SafeOutcome (connect_openfortivpn k output r s)
  unfolding connect_openfortivpn
  connect_openfortivpn-Safe r s h =
      with_executable-Safe r (k.select s.out (is_saml r.auth_mode)) s h

  persist-Safe :
      (route : Option GatewayHostRoute) (path : Option String) (s : Service)
      → Safe s
      → SafeOutcome (persist_gateway_host_route k output route path s)
  unfolding persist_gateway_host_route
  persist-Safe none path s h = h
  persist-Safe (some route) none s h = h
  persist-Safe (some route) (some path) s h =
      if_either SafeOutcome (k.writes_route s.out path route) _ _ (λ e. h) (λ e. h)

  module _ (charon swanctl runtime : String) where
    spawn_ipsec-Safe :
        (files : IpsecRuntimeFiles) (argv : List String) (s : Service)
        → Safe s
        → SafeOutcome (spawn_ipsec k output charon swanctl runtime files argv s)
    unfolding spawn_ipsec begin_ipsec own_process drop_ipsec
    spawn_ipsec-Safe files argv s h =
        let s' = effect (spawned argv) (begin_ipsec argv runtime swanctl files s) in
        let h' : Safe s' = (omega arith, omega arith, omega arith, omega arith) in
        if_either SafeOutcome (k.starts s'.out argv) _ _ (λ e. h')
          (λ e. finalize-Keeps k output keeps (some files) 1 s' h')

    with_charon-Safe :
        (files : IpsecRuntimeFiles) (r : Result String (List String)) (s : Service)
        → Safe s
        → SafeOutcome (with_charon k output charon swanctl runtime files r s)
    with_charon-Safe files (raised reason) s h = finalize-Keeps k output keeps (some files) 1 s h
    with_charon-Safe files (ok argv) s h = spawn_ipsec-Safe files argv s h

    vid_checks-Safe :
        (files : IpsecRuntimeFiles) (length : Option ℕ) (s : Service)
        → Safe s
        → SafeOutcome (vid_checks k output runtime files length s)
    unfolding vid_checks
    vid_checks-Safe files none s h = finalize-Keeps k output keeps (some files) 1 s h
    vid_checks-Safe files (some length) s h =
        if_either SafeOutcome (k.plugin_missing s.out runtime) _ _
          (λ e. finalize-Keeps k output keeps (some files) 1 s h)
          (λ e. log_lines-Keeps k output Once (keeps Once) (vid_lines k output length) 1 s h)

    then_charon-Safe :
        (files : IpsecRuntimeFiles) (o : Outcome)
        → SafeOutcome o
        → SafeOutcome (then_charon k output charon swanctl runtime files o)
    then_charon-Safe files (s, none) h = with_charon-Safe files (k.charon_argv charon files) s h
    then_charon-Safe files (s, some failure) h = h

    then_checks-Safe :
        (sso : Bool) (files : IpsecRuntimeFiles) (o : Outcome)
        → SafeOutcome o
        → SafeOutcome (then_checks k output charon swanctl runtime sso files o)
    then_checks-Safe sso files (s, some failure) h = h
    then_checks-Safe sso files (s, none) h = then_charon-Safe files _ (
        if_either SafeOutcome sso _ _
          (λ e. vid_checks-Safe files (k.license_length s.out files) s h) (λ e. h))

    with_files-Safe :
        (sso : Bool) (written : Option IpsecRuntimeFiles) (s : Service)
        → Safe s
        → SafeOutcome (with_files k output charon swanctl runtime sso written s)
    with_files-Safe sso none s h =
        let h' = finalize-Keeps k output keeps none 1 (effect wrote_runtime s) h in
        if_either SafeOutcome sso _ _ (λ e. h') (λ e. h')
    with_files-Safe sso (some written) s h =
        let files = record written { identity = s.attempts } in
        let s0 =
          effect wiped_credentials
            (effect wrote_runtime (record s { attempts = suc s.attempts })) in
        then_checks-Safe sso files
          (persist_gateway_host_route k output s.gateway_route files.gateway_route s0)
          (persist-Safe s.gateway_route files.gateway_route s0 h)

  captured-Safe :
      (r : Result String GatewayHostRoute) (s : Service) → Safe s → Safe (captured k output r s)
  captured-Safe (raised reason) s h = keeps Once _ 1 (record s { gateway_route = none }) h
  captured-Safe (ok route) s h = keeps Once _ 1 (record s { gateway_route = some route }) h

  capture-Safe :
      (gateway : String) (s : Service)
      → Safe s
      → Safe (capture_gateway_host_route k output gateway s)
  unfolding capture_gateway_host_route
  capture-Safe gateway s h =
      captured-Safe (k.gateway_snapshot s.out gateway)
        (effect armed (record s { teardown_done = false })) (h.0, h.1, h.2, omega arith)

  with_ports-Safe :
      (r : ConnectRequest) (settings : IpsecSettings) (credentials : Credentials)
      (charon swanctl : String) (conflict : Option (List String)) (s : Service)
      → Safe s
      → SafeOutcome (with_ports k output r settings credentials charon swanctl conflict s)
  with_ports-Safe r settings credentials charon swanctl (some lines) s h =
      log_lines-Keeps k output Once (keeps Once) lines 1 s h
  with_ports-Safe r settings credentials charon swanctl none s h =
      let s' = capture_gateway_host_route k output r.gateway s in
      with_files-Safe charon swanctl (k.runtime_dir s.out) (k.emits_vids settings)
        (k.write_runtime s'.out r settings credentials) s' (capture-Safe r.gateway s h)

  with_daemon-Safe :
      (r : ConnectRequest) (settings : IpsecSettings) (credentials : Credentials)
      (found : Option (String × String)) (s : Service)
      → Safe s
      → SafeOutcome (with_daemon k output r settings credentials found s)
  with_daemon-Safe r settings credentials none s h = h
  with_daemon-Safe r settings credentials (some (charon, swanctl)) s h =
      if_either SafeOutcome (not (k.is_approved_ipsec charon swanctl)) _ _ (λ e. h)
        (λ e. with_ports-Safe r settings credentials charon swanctl (k.port_conflict s.out) s h)

  connect_ipsec-Safe :
      (r : ConnectRequest) (credentials : Option Credentials) (s : Service)
      → Safe s
      → SafeOutcome (connect_ipsec k output r credentials s)
  unfolding connect_ipsec
  connect_ipsec-Safe r none s h = h
  connect_ipsec-Safe r (some credentials) s h =
      let settings = settings_from_request k output r.ipsec in
      if_either SafeOutcome (not (is_supported settings)) _ _ (λ e. h)
        (λ e. with_daemon-Safe r settings credentials (k.discover s.out) s h)

  pub connect-Safe :
      (r : ConnectRequest) (credentials : Option Credentials) (s : Service)
      → Safe s
      → SafeOutcome (connect k output r credentials s)
  unfolding connect
  connect-Safe r credentials s h =
      let s' = effect recovered_leftovers s in
      let s'' =
        if k.has_leftover s.out
        then output "Found leftover application-owned IPsec state before connect." s'
        else s' in
      let h'' = if_either Safe (k.has_leftover s.out) _ _ (λ e. keeps Once _ 1 s' h) (λ e. h) in
      if_either SafeOutcome (is_some s.process && s.alive) _ _ (λ e. h)
        (λ e.
          if_either SafeOutcome (is_ipsec r.backend) _ _
            (λ e'. connect_ipsec-Safe r credentials s'' h'')
            (λ e'. connect_openfortivpn-Safe r s'' h''))
