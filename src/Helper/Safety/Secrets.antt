-- ===== src/Helper/Safety/Secrets.antt =====
-- A start that fails leaves no written secrets behind (helper/service.py).
use fortigate_vpn_linux_gui.Prelude.{
  ℕ, suc, String, Bool, true, false, inl, inr, ◌⊎◌, not, ◌&&◌, Option, none, some, List, ◌∷◌,
  Result, ok, raised, is_some, if◌then◌else◌, ◌≡◌, refl,
}
use fortigate_vpn_linux_gui.Profiles.Ipsec.{IpsecSettings, is_supported}
use fortigate_vpn_linux_gui.Vpn.Backend.Types.{
  ConnectRequest, Credentials, OpenfortivpnCapabilities,
}
use fortigate_vpn_linux_gui.Helper.Protocol.{HelperError}
use fortigate_vpn_linux_gui.Helper.Service.Types.{
  IpsecRuntimeFiles, GatewayHostRoute, Effect, spawned, began, armed, recovered_leftovers,
  route_failed, wrote_runtime, wiped_credentials, Service, Host, new_service,
}
use fortigate_vpn_linux_gui.Helper.Service.Output.{effect}
use fortigate_vpn_linux_gui.Helper.Service.Teardown.{log_lines, drop_ipsec}
use fortigate_vpn_linux_gui.Helper.Service.Connect.{
  begin_ipsec, spawn_ipsec, with_charon, vid_lines, vid_checks, then_charon,
  persist_gateway_host_route, then_checks, with_files, captured, capture_gateway_host_route,
  with_daemon, with_ports, settings_from_request, connect_ipsec, connect,
}
use fortigate_vpn_linux_gui.Helper.Service.Openfortivpn.{
  Outcome, Failure, is_saml, is_ipsec, missing, with_argv, with_executable, begin_openfortivpn,
  spawn_openfortivpn, connect_openfortivpn,
}
use fortigate_vpn_linux_gui.Helper.Service.Run.{Action, run}
use fortigate_vpn_linux_gui.Helper.Safety.Sound.{OnFrame, Sound, Keeps, if_either, are_secrets_left}
use fortigate_vpn_linux_gui.Helper.Safety.Teardown.{log_lines-Keeps}
use fortigate_vpn_linux_gui.Helper.Safety.Finalize.{finalize-wiped}
use fortigate_vpn_linux_gui.Helper.Safety.Run.{out_of, on_output-Keeps, run_new-Safe}

abbrev IsClean : OnFrame
IsClean f = f.secrets_left ≡ false

abbrev IsDue : OnFrame
IsDue f = f.teardown_done ≡ false

-- The last thing done was an attempt to write the state of the gateway's route, which failed.
abbrev pub ends_in_route_failure : List Effect → Bool
ends_in_route_failure (route_failed ∷ rest) = true
ends_in_route_failure _ = false

abbrev pub IsCleanOrUnwritten : List Effect → Type 0
IsCleanOrUnwritten out =
    (are_secrets_left out ≡ false)
    ⊎ ((ends_in_route_failure out ≡ true) × (are_secrets_left out ≡ true))

abbrev Cleaned : Outcome → Type 0
Cleaned (s, none) = Unit
Cleaned (s, some failure) = IsCleanOrUnwritten s.out

module _ (k : Host) (output : String → Service → Service)
    (keeps : (T : OnFrame) (line : String) → Keeps T (output line)) where
  missing-Cleaned :
      (o : Option OpenfortivpnCapabilities) (s : Service)
      → Sound 1 IsClean s
      → Cleaned (missing k output o s)
  missing-Cleaned none s h = inl h.3
  missing-Cleaned (some c) s h = inl h.3

  with_argv-Cleaned :
      (use_saml : Bool) (r : Result HelperError (List String)) (c : OpenfortivpnCapabilities)
      (s : Service)
      → Sound 1 IsClean s
      → Cleaned (with_argv k output use_saml r c s)
  unfolding spawn_openfortivpn begin_openfortivpn
  with_argv-Cleaned use_saml (raised e) c s h = inl h.3
  with_argv-Cleaned use_saml (ok argv) c s h =
      if_either Cleaned (k.starts (spawned argv ∷ began ∷ s.out) argv) _ _ (λ e. tt) (λ e. inl h.3)

  with_executable-Cleaned :
      (r : ConnectRequest) (o : Option OpenfortivpnCapabilities) (s : Service)
      → Sound 1 IsClean s
      → Cleaned (with_executable k output r o s)
  with_executable-Cleaned r none s h =
      missing-Cleaned (if is_saml r.auth_mode then k.select s.out false else none) s h
  with_executable-Cleaned r (some c) s h =
      if_either Cleaned (not (k.is_approved c.executable_path)) _ _ (λ e. inl h.3)
        (λ e. with_argv-Cleaned (is_saml r.auth_mode) (k.helper_argv c.executable_path r) c s h)

  module _ (charon swanctl runtime : String) (files : IpsecRuntimeFiles) where
    with_charon-Cleaned :
        (r : Result String (List String)) (s : Service)
        → Sound 1 IsDue s
        → Cleaned (with_charon k output charon swanctl runtime files r s)
    unfolding spawn_ipsec begin_ipsec drop_ipsec
    with_charon-Cleaned (raised reason) s h = inl (finalize-wiped k output keeps files s h.3)
    with_charon-Cleaned (ok argv) s h =
        let s' = effect (spawned argv) (begin_ipsec argv runtime swanctl files s) in
        if_either Cleaned (k.starts s'.out argv) _ _ (λ e. tt)
          (λ e. inl (finalize-wiped k output keeps files s' refl))

    then_charon-Cleaned :
        (s : Service)
        → Sound 1 IsDue s
        → Cleaned (then_charon k output charon swanctl runtime files (s, none))
    then_charon-Cleaned s h = with_charon-Cleaned (k.charon_argv charon files) s h

    vids-Cleaned :
        (length : Option ℕ) (s : Service)
        → Sound 1 IsDue s
        → Cleaned (
            then_charon k output charon swanctl runtime files
              (vid_checks k output runtime files length s))
    unfolding vid_checks
    vids-Cleaned none s h = inl (finalize-wiped k output keeps files s h.3)
    vids-Cleaned (some length) s h =
        if_either (λ (o : Outcome). Cleaned (then_charon k output charon swanctl runtime files o))
          (k.plugin_missing s.out runtime) _ _
          (λ e. inl (finalize-wiped k output keeps files s h.3))
          (λ e.
            then_charon-Cleaned (log_lines k output (vid_lines k output length) s)
              (log_lines-Keeps k output IsDue (keeps IsDue) (vid_lines k output length) 1 s h))

  abbrev IsDueAndClean : OnFrame
  IsDueAndClean f = (f.teardown_done ≡ false) × (f.secrets_left ≡ false)

  abbrev Persisted : Outcome → Type 0
  Persisted (s, none) = Sound 1 IsDue s
  Persisted (s, some failure) = IsCleanOrUnwritten s.out

  persist-Persisted :
      (route : Option GatewayHostRoute) (path : Option String) (s : Service)
      → Sound 1 IsDue s
      → are_secrets_left s.out ≡ true
      → Persisted (persist_gateway_host_route k output route path s)
  unfolding persist_gateway_host_route
  persist-Persisted none path s h left = h
  persist-Persisted (some route) none s h left = h
  persist-Persisted (some route) (some path) s h left =
      if_either Persisted (k.writes_route s.out path route) _ _ (λ e. h) (λ e. inr (refl, left))

  then_checks-Cleaned :
      (charon swanctl runtime : String) (sso : Bool) (files : IpsecRuntimeFiles) (o : Outcome)
      → Persisted o
      → Cleaned (then_checks k output charon swanctl runtime sso files o)
  then_checks-Cleaned charon swanctl runtime sso files (s, some failure) h = h
  then_checks-Cleaned charon swanctl runtime sso files (s, none) h =
      if_either (λ (o : Outcome). Cleaned (then_charon k output charon swanctl runtime files o)) sso
        _ _ (λ e. vids-Cleaned charon swanctl runtime files (k.license_length s.out files) s h)
        (λ e. then_charon-Cleaned charon swanctl runtime files s h)

  with_files-Cleaned :
      (charon swanctl runtime : String) (sso : Bool) (written : Option IpsecRuntimeFiles)
      (s : Service)
      → Sound 1 IsDueAndClean s
      → Cleaned (with_files k output charon swanctl runtime sso written s)
  with_files-Cleaned charon swanctl runtime sso none s h =
      if_either Cleaned sso _ _ (λ e. inl refl) (λ e. inl refl)
  with_files-Cleaned charon swanctl runtime sso (some written) s h =
      let files = record written { identity = s.attempts } in
      let s0 =
        effect wiped_credentials (effect wrote_runtime (record s { attempts = suc s.attempts })) in
      then_checks-Cleaned charon swanctl runtime sso files
        (persist_gateway_host_route k output s.gateway_route files.gateway_route s0)
        (persist-Persisted s.gateway_route files.gateway_route s0 (h.0, h.1, h.2, h.3.0) refl)

  capture-IsDueAndClean :
      (r : Result String GatewayHostRoute) (s : Service)
      → Sound 1 IsDueAndClean s
      → Sound 1 IsDueAndClean (captured k output r s)
  capture-IsDueAndClean (raised reason) s h =
      keeps IsDueAndClean _ 1 (record s { gateway_route = none }) h
  capture-IsDueAndClean (ok route) s h =
      keeps IsDueAndClean _ 1 (record s { gateway_route = some route }) h

  with_ports-Cleaned :
      (r : ConnectRequest) (settings : IpsecSettings) (credentials : Credentials)
      (charon swanctl : String) (conflict : Option (List String)) (s : Service)
      → Sound 1 IsClean s
      → Cleaned (with_ports k output r settings credentials charon swanctl conflict s)
  unfolding capture_gateway_host_route
  with_ports-Cleaned r settings credentials charon swanctl (some lines) s h =
      inl (log_lines-Keeps k output IsClean (keeps IsClean) lines 1 s h).3
  with_ports-Cleaned r settings credentials charon swanctl none s h =
      let s' = capture_gateway_host_route k output r.gateway s in
      with_files-Cleaned charon swanctl (k.runtime_dir s.out) (k.emits_vids settings)
        (k.write_runtime s'.out r settings credentials) s'
        (capture-IsDueAndClean (k.gateway_snapshot s.out r.gateway)
          (effect armed (record s { teardown_done = false })) (h.0, h.1, h.2, (refl, h.3)))

  with_daemon-Cleaned :
      (r : ConnectRequest) (settings : IpsecSettings) (credentials : Credentials)
      (found : Option (String × String)) (s : Service)
      → Sound 1 IsClean s
      → Cleaned (with_daemon k output r settings credentials found s)
  with_daemon-Cleaned r settings credentials none s h = inl h.3
  with_daemon-Cleaned r settings credentials (some (charon, swanctl)) s h =
      if_either Cleaned (not (k.is_approved_ipsec charon swanctl)) _ _ (λ e. inl h.3)
        (λ e. with_ports-Cleaned r settings credentials charon swanctl (k.port_conflict s.out) s h)

  connect_ipsec-Cleaned :
      (r : ConnectRequest) (credentials : Option Credentials) (s : Service)
      → Sound 1 IsClean s
      → Cleaned (connect_ipsec k output r credentials s)
  unfolding connect_ipsec
  connect_ipsec-Cleaned r none s h = inl h.3
  connect_ipsec-Cleaned r (some credentials) s h =
      let settings = settings_from_request k output r.ipsec in
      if_either Cleaned (not (is_supported settings)) _ _ (λ e. inl h.3)
        (λ e. with_daemon-Cleaned r settings credentials (k.discover s.out) s h)

  connect-Cleaned :
      (r : ConnectRequest) (credentials : Option Credentials) (s : Service)
      → Sound 1 IsClean s
      → Cleaned (connect k output r credentials s)
  unfolding connect connect_openfortivpn
  connect-Cleaned r credentials s h =
      let line : String = "Found leftover application-owned IPsec state before connect." in
      let s' = effect recovered_leftovers s in
      let s'' = if k.has_leftover s.out then output line s' else s' in
      let h'' =
        if_either (Sound 1 IsClean) (k.has_leftover s.out) _ _ (λ e. keeps IsClean line 1 s' h)
          (λ e. h) in
      if_either Cleaned (is_some s.process && s.alive) _ _ (λ e. inl h.3)
        (λ e.
          if_either Cleaned (is_ipsec r.backend) _ _
            (λ e'. connect_ipsec-Cleaned r credentials s'' h'')
            (λ e'. with_executable-Cleaned r (k.select s''.out (is_saml r.auth_mode)) s'' h''))

Cleaned-failed :
    (o : Outcome) (failure : Failure) → Cleaned o → o.1 ≡ some failure → IsCleanOrUnwritten o.0.out
Cleaned-failed (s, none) failure h e = cc
Cleaned-failed (s, some f) failure h e = h

module _ (k : Host) (detail : List String → String) (depth : ℕ) where
  -- Whatever a new helper service went through, if it has left no written secrets: a request to
  -- connect that fails with no other thread acting in between leaves none either, wherever it
  -- fails but at one place: where the state of the gateway's route cannot be written, nothing more
  -- is done and the written secrets stay.
  pub connect-failed :
      (actions : List Action) (r : ConnectRequest) (credentials : Option Credentials)
      (failure : Failure)
      → are_secrets_left (run k detail depth actions new_service).out ≡ false
      → (connect k (out_of k detail depth) r credentials (run k detail depth actions new_service)).1
        ≡ some failure
      → IsCleanOrUnwritten
          (connect k
            (out_of k detail depth)
            r
            credentials
            (run k detail depth actions new_service)).0.out
  connect-failed actions r credentials failure clean failed =
      let s = run k detail depth actions new_service in
      let h = run_new-Safe k detail depth actions in
      Cleaned-failed (connect k (out_of k detail depth) r credentials s) failure
        (connect-Cleaned k (out_of k detail depth) (on_output-Keeps k detail depth) r credentials s
          (h.0, h.1, h.2, clean))
        failed
