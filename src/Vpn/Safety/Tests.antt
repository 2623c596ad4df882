-- ===== src/Vpn/Safety/Tests.antt =====
-- The theorems about the backend at concrete sessions of an SSL profile with a pinned certificate.
use fortigate_vpn_linux_gui.Prelude.{
  pos, true, false, none, some, List, [], ◌∷◌, ◌≡◌, ◌≤◌, refl, arith,
}
use fortigate_vpn_linux_gui.Profiles.Model.{ConnectionProfile, ssl}
use fortigate_vpn_linux_gui.Vpn.State.{
  disconnected, starting, connected, failed, disconnecting, waiting_for_certificate_trust, among,
}
use fortigate_vpn_linux_gui.Vpn.Backend.Errors.{
  no_hint, certificate, certificate_changed, connection_lost,
}
use fortigate_vpn_linux_gui.Vpn.Backend.Types.{
  Ports, Backend, CertificateInfo, HelperEvent, ready, accepted, signed_in, certificate_kind,
  log_kind,
}
use fortigate_vpn_linux_gui.Vpn.Backend.Connect.{
  connect, connect_idle, connect_ssl, start_validated, start_request, begin_session, open_session,
  settle_session, session_authorized, connect_resolved,
}
use fortigate_vpn_linux_gui.Vpn.Backend.Core.{transition}
use fortigate_vpn_linux_gui.Vpn.Backend.Session.{probe_helper, resolve_executable}
use fortigate_vpn_linux_gui.Vpn.Backend.Stop.{disconnect, stop_locked}
use fortigate_vpn_linux_gui.Vpn.Backend.SignIn.{finish_sign_in}
use fortigate_vpn_linux_gui.Vpn.Backend.Retry.{on_reconnect_timer}
use fortigate_vpn_linux_gui.Vpn.Backend.Exit.{exit_locked, on_exit}
use fortigate_vpn_linux_gui.Vpn.Backend.Events.{handle_certificate}
use fortigate_vpn_linux_gui.Vpn.Backend.Shutdown.{
  begin_shutdown, on_shutdown_timeout, shutdown, enter_closing, await_cleanup, finish_shutdown,
  close_down,
}
use fortigate_vpn_linux_gui.Vpn.Backend.Machine.{
  initial, Action, call_connect, call_disconnect, call_begin_shutdown, call_reconnect,
  reconnect_timer_fires, worker_ends, helper_event, shutdown_timer_fires, step, run,
  on_helper_event,
}
use fortigate_vpn_linux_gui.Vpn.Safety.Effects.{forcings, stops, starts}
use fortigate_vpn_linux_gui.Vpn.Safety.Sound.{closing_states, completions}
use fortigate_vpn_linux_gui.Vpn.Safety.Run.{run-idle, run-attempts, run-closing, run-completions}
use fortigate_vpn_linux_gui.Vpn.Safety.Stop.{
  disconnect-unstarted, disconnect-running, finish_sign_in-disconnect,
  on_reconnect_timer-disconnect,
}
use fortigate_vpn_linux_gui.Vpn.Safety.Transitions.{on_helper_event-forcings, exit_locked-forcings}
use fortigate_vpn_linux_gui.Vpn.Safety.Certificate.{
  handle_certificate-waits, handle_certificate-repeated,
}
use fortigate_vpn_linux_gui.Vpn.Safety.Lost.{on_exit-lost, on_exit-disconnect}
use fortigate_vpn_linux_gui.Vpn.Safety.Shutdown.{
  on_shutdown_timeout-begin_shutdown, shutdown-state, run-begin_shutdown, begin_shutdown-repeated,
}

-- A helper that starts every session and does not say that it runs before its first event.
abbrev ports : Ports
ports = record {
  connect_request_from_fields = accepted;
  probe = λ trace. record {
    installed = true;
    helper_version = some "0.9";
    status = ready;
    version_mismatch = false;
    capabilities = [];
  };
  start_error = λ trace. none;
  running_after_start = λ trace. false;
  running_after_stop = λ trace. false;
  running_after_close = λ trace. false;
  pid = λ trace. none;
  argv = λ trace. [];
  selector = λ require_saml. none;
  locator = some "/usr/bin/openfortivpn";
  validate_auth_url = some;
  safe_url_for_display = λ url. url;
  browser_error = λ trace. none;
  redact_log_line = λ line. line;
  is_benign_charon_noise = λ line. false;
  classify_output = λ line. no_hint;
  format_sha256_fingerprint = λ sha. sha;
}

abbrev office : ConnectionProfile
office = record {
  id = "a1";
  name = "Office";
  gateway = "vpn.example.org";
  port = 443;
  description = "";
  username_hint = "";
  use_sso = false;
  trusted_cert_sha256 = some "aa";
  vpn_type = ssl;
  ipsec = none;
}

abbrev other_certificate : CertificateInfo
other_certificate = record { subject = "CN=gw"; issuer = "CN=ca"; sha256 = "bb" }

abbrev new_backend : Backend
new_backend = initial true 3

-- The session after the helper was asked to start, as `_begin_session` leaves it.
abbrev session : Backend
session = record new_backend {
  state = starting;
  profile = some office;
  last_profile = some office;
  use_sso = false;
  attempt_id = 1;
}

abbrev tunnel : Backend
tunnel = record session { state = connected; running = true }

abbrev certificate_event : HelperEvent
certificate_event = record {
  kind = certificate_kind;
  line = none;
  url = none;
  certificate = some other_certificate;
  code = none;
  message = none;
  exit_code = none;
  argv = [];
  selected_executable = none;
  openfortivpn_version = none;
  supports_saml = none;
}

abbrev connect_then_cancel : List Action
connect_then_cancel = call_connect (some office) false none ∷ call_disconnect false ∷ []

abbrev connect_then_close : List Action
connect_then_close =
    call_connect (some office) false none ∷ call_begin_shutdown true ∷ shutdown_timer_fires ∷ []

-- The sign-in is under way when the user cancels.
run-idle_example :
    (run ports "1" connect_then_cancel (initial true 3)).profile ≡ none
    × (run ports "1" connect_then_cancel (initial true 3)).ipsec_tunnel_psk ≡ ""
    × (run ports "1" connect_then_cancel (initial true 3)).ipsec_saml_active ≡ false
unfolding run step connect connect_idle connect_ssl start_validated start_request begin_session
    open_session settle_session session_authorized connect_resolved probe_helper resolve_executable
    transition disconnect stop_locked
run-idle_example = run-idle ports "1" connect_then_cancel true 3 refl

run-attempts_example :
    (run ports "1" connect_then_cancel (initial true 3)).retry.attempt
    ≤ (run ports "1" connect_then_cancel (initial true 3)).retry.max_attempts
run-attempts_example = run-attempts ports "1" connect_then_cancel true 3

run-closing_example :
    among (run ports "1" connect_then_close (initial true 3)).state closing_states ≡ true
unfolding run step connect connect_idle connect_ssl start_validated start_request begin_session
    open_session settle_session session_authorized connect_resolved probe_helper resolve_executable
    transition begin_shutdown enter_closing await_cleanup finish_shutdown on_shutdown_timeout
run-closing_example = run-closing ports "1" connect_then_close true 3 refl

run-completions_example : completions (run ports "1" connect_then_close (initial true 3)).out ≤ 1
run-completions_example = run-completions ports "1" connect_then_close true 3

disconnect-unstarted_example :
    (disconnect ports false false session).state ≡ disconnected
    × forcings (disconnect ports false false session).out ≡ 1
    × stops (disconnect ports false false session).out ≡ 0
disconnect-unstarted_example = disconnect-unstarted ports false false session refl refl refl

disconnect-running_example :
    (disconnect ports false false tunnel).state ≡ disconnecting
    × forcings (disconnect ports false false tunnel).out ≡ 0
    × stops (disconnect ports false false tunnel).out ≡ 1
disconnect-running_example = disconnect-running ports false false tunnel refl refl

finish_sign_in-disconnect_example :
    finish_sign_in ports office 1 (signed_in "user" "token") (disconnect ports false false session)
    ≡ disconnect ports false false session
finish_sign_in-disconnect_example =
    finish_sign_in-disconnect ports false false session office 1 (signed_in "user" "token")

on_reconnect_timer-disconnect_example :
    on_reconnect_timer ports (disconnect ports false false session)
    ≡ disconnect ports false false session
on_reconnect_timer-disconnect_example = on_reconnect_timer-disconnect ports false false session

on_helper_event-forcings_example :
    forcings (on_helper_event ports "1" certificate_event session).out ≡ 0
on_helper_event-forcings_example = on_helper_event-forcings ports "1" certificate_event session refl

exit_locked-forcings_example : forcings (exit_locked (pos 1) tunnel).backend.out ≡ 0
exit_locked-forcings_example = exit_locked-forcings (pos 1) tunnel

handle_certificate-waits_example :
    (handle_certificate ports other_certificate session).state ≡ waiting_for_certificate_trust
    × (handle_certificate ports other_certificate session).error_code ≡ some certificate_changed
    × (handle_certificate ports other_certificate session).presented_certificate
      ≡ some other_certificate
    × (handle_certificate ports other_certificate session).saml_timer ≡ false
handle_certificate-waits_example =
    handle_certificate-waits ports other_certificate session refl refl

handle_certificate-repeated_example :
    handle_certificate ports other_certificate (handle_certificate ports other_certificate session)
    ≡ handle_certificate ports other_certificate session
handle_certificate-repeated_example = handle_certificate-repeated ports other_certificate session

-- A gateway whose certificate the helper's output says cannot be validated.
abbrev wary_ports : Ports
wary_ports = record ports { classify_output = λ line. certificate }

abbrev log_event : HelperEvent
log_event = record certificate_event {
  kind = log_kind;
  line = some "certificate verification failed";
  certificate = none;
}

abbrev told_of_certificate : Backend
told_of_certificate =
    run wary_ports "1" (call_connect (some office) false none ∷ helper_event log_event ∷ [])
      (initial true 3)

on_exit-lost_example :
    (on_exit ports "1" (pos 1) tunnel).state ≡ failed
    × (on_exit ports "1" (pos 1) tunnel).error_code ≡ some connection_lost
    × (on_exit ports "1" (pos 1) tunnel).retry.attempt ≡ 1
    × (on_exit ports "1" (pos 1) tunnel).retry.pending ≡ true
    × (on_exit ports "1" (pos 1) tunnel).retry.timer ≡ true
on_exit-lost_example =
    on_exit-lost ports "1" (pos 1) tunnel refl refl refl refl refl refl (ground arith)

on_exit-disconnect_example :
    ((on_exit ports "1" (pos 0) (disconnect ports false false tunnel)).state ≡ disconnected)
    × ((on_exit ports "1" (pos 0) (disconnect ports false false tunnel)).error_code ≡ none)
    × ((on_exit ports "1" (pos 0) (disconnect ports false false tunnel)).retry.pending ≡ false)
    × ((on_exit ports "1" (pos 0) (disconnect ports false false tunnel)).retry.timer ≡ false)
    × (starts (on_exit ports "1" (pos 0) (disconnect ports false false tunnel)).out
        ≡ starts (disconnect ports false false tunnel).out)
on_exit-disconnect_example = on_exit-disconnect ports "1" (pos 0) false tunnel refl refl

on_shutdown_timeout-begin_shutdown_example :
    completions (on_shutdown_timeout ports (begin_shutdown ports true tunnel)).out ≡ 1
on_shutdown_timeout-begin_shutdown_example =
    on_shutdown_timeout-begin_shutdown ports tunnel refl refl

shutdown-state_example :
    among (shutdown ports tunnel).state (disconnected ∷ failed ∷ []) ≡ true
    × (shutdown ports tunnel).closing.shutting_down ≡ true
shutdown-state_example = shutdown-state ports tunnel

abbrev late_starters : List Action
late_starters =
    call_connect (some office) false none
    ∷ call_reconnect (some office)
    ∷ reconnect_timer_fires
    ∷ worker_ends office 1 (signed_in "user" "token")
    ∷ []

run-begin_shutdown_example :
    ((run ports "1" late_starters (begin_shutdown ports true tunnel)).closing.shutting_down ≡ true)
    × (starts (run ports "1" late_starters (begin_shutdown ports true tunnel)).out
        ≡ starts (begin_shutdown ports true tunnel).out)
run-begin_shutdown_example = run-begin_shutdown ports tunnel "1" true late_starters

begin_shutdown-repeated_example :
    completions (on_shutdown_timeout ports (begin_shutdown ports true (shutdown ports tunnel))).out
    ≡ 0
unfolding shutdown close_down transition begin_shutdown enter_closing await_cleanup finish_shutdown
begin_shutdown-repeated_example = begin_shutdown-repeated ports (shutdown ports tunnel) refl refl
