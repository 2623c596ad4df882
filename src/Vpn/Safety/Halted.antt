-- ===== src/Vpn/Safety/Halted.antt =====
-- Once the application is closing, no step starts a helper or a sign-in worker.
use fortigate_vpn_linux_gui.Prelude.{
  ℕ, ℤ, String, Bool, true, false, Option, none, some, List, [], ◌∷◌, ◌≡◌, arith,
}
use fortigate_vpn_linux_gui.Profiles.Model.{ConnectionProfile}
use fortigate_vpn_linux_gui.Vpn.State.{
  ConnectionState, disconnecting, closing, connected, starting, connecting, waiting_for_auth,
}
use fortigate_vpn_linux_gui.Vpn.Backend.Errors
use fortigate_vpn_linux_gui.Vpn.Backend.Errors.{OutputHint, VpnErrorCode, Message, HelperCode}
use fortigate_vpn_linux_gui.Vpn.Backend.Types.{
  Backend, Ports, Credentials, CertificateInfo, VpnSnapshot, SamlOutcome, EventKind, HelperEvent,
  RequestResult, accepted, rejected, signed_in, http_unknown, http_rejected, start_url_error,
  bootstrap_error, connect_error, listener_timed_out, listener_cancelled, listener_malformed,
  browser_launch_error, tls_error, unsafe_url, log_kind, started, saml_url, saml_listener,
  saml_waiting, saml_success, saml_failure, certificate_kind, connected_kind, exit, error_kind,
}
use fortigate_vpn_linux_gui.Vpn.Backend.Core.{
  cancel_timeout, transition, fail_saml_session, fail_without_process, fail_and_clear,
}
use fortigate_vpn_linux_gui.Vpn.Backend.Connect.{connect}
use fortigate_vpn_linux_gui.Vpn.Backend.Stop.{disconnect, stop_locked, prepare_stop}
use fortigate_vpn_linux_gui.Vpn.Backend.Reconnect.{
  reconnect, reconnect_to, set_auto_reconnect, start_pending_reconnect,
}
use fortigate_vpn_linux_gui.Vpn.Backend.Retry.{
  on_reconnect_timer, maybe_schedule_reconnect, wants_reconnect,
}
use fortigate_vpn_linux_gui.Vpn.Backend.Shutdown.{
  begin_shutdown, shutdown_again, on_shutdown_timeout, finish_shutdown, shutdown, close_down,
}
use fortigate_vpn_linux_gui.Vpn.Backend.Exit.{
  Exited, log_exit, exit_from, exit_early, exit_connected, exit_stopped, exit_locked, report_exit,
  follow_exit, on_exit,
}
use fortigate_vpn_linux_gui.Vpn.Backend.Session.{connect_request}
use fortigate_vpn_linux_gui.Vpn.Backend.Events.{
  log_tunnel, leave_waiting, mark_connected, notify_states, on_connected, handle_hint,
  handle_log_line, handle_certificate, open_sign_in, browser_answered, open_validated,
  maybe_open_browser, handle_helper_error, on_saml_timeout, interrupt, report_certificate,
  first_report, child_sa_seen, enter_waiting_for_auth, handle_saml_success,
}
use fortigate_vpn_linux_gui.Vpn.Backend.SignIn.{
  on_ipsec_saml_waiting, continue_ipsec_after_saml, request_after_saml, start_ipsec_after_saml,
  fail_logged, handle_outcome, finish_sign_in,
}
use fortigate_vpn_linux_gui.Vpn.Backend.Machine.{
  with_text, dispatch, on_helper_event, Action, step, run, call_connect, call_disconnect,
  call_reconnect, call_set_auto_reconnect, call_begin_shutdown, call_shutdown, shutdown_timer_fires,
  saml_timer_fires, reconnect_timer_fires, helper_event, worker_waits, worker_ends, helper_runs,
}
use fortigate_vpn_linux_gui.Vpn.Safety.Effects.{starts}

abbrev pub Halted : ℕ → Backend → Type 0
Halted n b = (b.closing.shutting_down ≡ true) × (starts b.out ≡ n)

module _ (n : ℕ) where
  transition-Halted :
      (new : ConnectionState) (b : Backend) → Halted n b → Halted n (transition new b)
  unfolding transition
  transition-Halted new b h = ground arith

  module _ (p : Ports) where
    fail_saml_session-Halted :
        (code : VpnErrorCode) (m : Message) (b : Backend)
        → Halted n b
        → Halted n (fail_saml_session p code m b)
    unfolding fail_saml_session transition
    fail_saml_session-Halted code m b h = ground arith

    fail_without_process-Halted :
        (code : VpnErrorCode) (m : Message) (b : Backend)
        → Halted n b
        → Halted n (fail_without_process p code m b)
    unfolding fail_without_process transition
    fail_without_process-Halted code m b h = ground arith

    fail_and_clear-Halted :
        (code : VpnErrorCode) (m : Message) (b : Backend)
        → Halted n b
        → Halted n (fail_and_clear p code m b)
    unfolding fail_and_clear transition
    fail_and_clear-Halted code m b h = ground arith

    connect-Halted :
        (q : Option ConnectionProfile) (t : Bool) (k : Option Credentials) (b : Backend)
        → Halted n b
        → Halted n (connect p q t k b)
    unfolding connect
    connect-Halted none t k b h = fail_without_process-Halted _ _ b h
    connect-Halted (some q) t k b h = rw h.0 (ground arith)

    stop_locked-Halted : (b : Backend) → Halted n b → Halted n (stop_locked b).backend
    unfolding stop_locked transition
    stop_locked-Halted b h = ground arith

    disconnect-Halted :
        (wait r : Bool) (b : Backend) → Halted n b → Halted n (disconnect p wait r b)
    unfolding disconnect
    disconnect-Halted wait r b h =
        ground (arith, stop_locked-Halted (prepare_stop r b) (ground arith))

    reconnect-Halted :
        (q : Option ConnectionProfile) (b : Backend) → Halted n b → Halted n (reconnect p q b)
    unfolding reconnect reconnect_to fail_without_process transition
    reconnect-Halted q b h = ground arith

    set_auto_reconnect-Halted :
        (e : Bool) (b : Backend) → Halted n b → Halted n (set_auto_reconnect e b)
    unfolding set_auto_reconnect
    set_auto_reconnect-Halted e b h = ground arith

    finish_shutdown-Halted : (b : Backend) → Halted n b → Halted n (finish_shutdown p b)
    unfolding finish_shutdown
    finish_shutdown-Halted b h = ground arith

    begin_shutdown-Halted : (c : Bool) (b : Backend) → Halted n b → Halted n (begin_shutdown p c b)
    unfolding begin_shutdown shutdown_again
    begin_shutdown-Halted c b h = rw h.0 (ground arith)

    on_shutdown_timeout-Halted : (b : Backend) → Halted n b → Halted n (on_shutdown_timeout p b)
    unfolding on_shutdown_timeout
    on_shutdown_timeout-Halted b h = grind (arith, finish_shutdown-Halted)

    shutdown-Halted : (b : Backend) → Halted n b → Halted n (shutdown p b)
    unfolding shutdown close_down transition
    shutdown-Halted b h = let c = begin_shutdown-Halted false b h in ground (arith, c)

    on_reconnect_timer-Halted : (b : Backend) → Halted n b → Halted n (on_reconnect_timer p b)
    unfolding on_reconnect_timer
    on_reconnect_timer-Halted b h = ground arith

    exit_from-Halted :
        (s : ConnectionState) (code : ℤ) (b : Backend)
        → Halted n b
        → Halted n (exit_from s code b).backend
    unfolding exit_early exit_connected exit_stopped transition
    exit_from-Halted disconnecting code b h = ground arith
    exit_from-Halted closing code b h = h
    exit_from-Halted connected code b h = ground arith
    exit_from-Halted starting code b h = ground arith
    exit_from-Halted connecting code b h = ground arith
    exit_from-Halted waiting_for_auth code b h = ground arith
    exit_from-Halted _ code b h = h

    exit_locked-Halted :
        (code : ℤ) (b : Backend) → Halted n b → Halted n (exit_locked code b).backend
    unfolding exit_locked
    exit_locked-Halted code b h = exit_from-Halted b.state code (record b { argv = [] }) h

    report_exit-Halted : (e : Exited) → Halted n e.backend → Halted n (report_exit p e)
    unfolding report_exit
    report_exit-Halted e h = ground arith

    follow_exit-Halted :
        (seconds : String) (e : Exited) (b : Backend)
        → Halted n b
        → Halted n (follow_exit p seconds e b)
    unfolding follow_exit maybe_schedule_reconnect start_pending_reconnect wants_reconnect
    follow_exit-Halted seconds e b h = ground (arith, finish_shutdown-Halted b h)

    on_exit-Halted :
        (seconds : String) (code : ℤ) (b : Backend)
        → Halted n b
        → Halted n (on_exit p seconds code b)
    unfolding on_exit
    on_exit-Halted seconds code b h = follow_exit-Halted seconds _ _ (
        report_exit-Halted _
          (exit_locked-Halted code (log_exit p code (cancel_timeout b)) (ground arith)))

    notify_states-Halted :
        (l : List VpnSnapshot) (b : Backend) → Halted n b → Halted n (notify_states p l b)
    unfolding notify_states
    notify_states-Halted [] b h = h
    notify_states-Halted (s ∷ l) b h = notify_states-Halted l _ h

    mark_connected-Halted : (b : Backend) → Halted n b → Halted n (mark_connected p b).1
    unfolding mark_connected leave_waiting log_tunnel transition
    mark_connected-Halted b h = ground arith

    on_connected-Halted : (b : Backend) → Halted n b → Halted n (on_connected p b)
    unfolding on_connected
    on_connected-Halted b h = notify_states-Halted _ _ (mark_connected-Halted b h)

    handle_hint-Halted :
        (t : OutputHint) (i : Bool) (b : Backend) → Halted n b → Halted n (handle_hint p t i b)
    unfolding handle_hint
    handle_hint-Halted OutputHint.tunnel_connected i b h =
        notify_states-Halted _ _ (ground (arith, mark_connected-Halted (child_sa_seen i b) h))
    handle_hint-Halted OutputHint.gateway_connected i b h = ground arith
    handle_hint-Halted OutputHint.ike_sa_init i b h = ground arith
    handle_hint-Halted OutputHint.ike_established i b h = ground arith
    handle_hint-Halted OutputHint.eap_in_progress i b h = ground arith
    handle_hint-Halted _ i b h = h

    handle_log_line-Halted :
        (line : String) (b : Backend) → Halted n b → Halted n (handle_log_line p line b)
    unfolding handle_log_line
    handle_log_line-Halted line b h = grind (arith, handle_hint-Halted)

    interrupt-Halted : (b : Backend) → Halted n b → Halted n (interrupt p b)
    unfolding interrupt transition
    interrupt-Halted b h = ground arith

    report_certificate-Halted :
        (i : CertificateInfo) (b : Backend) → Halted n b → Halted n (report_certificate p i b)
    unfolding report_certificate
    report_certificate-Halted i b h = ground arith

    handle_certificate-Halted :
        (i : CertificateInfo) (b : Backend) → Halted n b → Halted n (handle_certificate p i b)
    unfolding handle_certificate
    handle_certificate-Halted i b h =
        let shown : Halted n (first_report i b) = ground arith in
        let g =
          report_certificate-Halted i (interrupt p (first_report i b))
            (interrupt-Halted (first_report i b) shown) in
        ground (arith, g)

    enter_waiting_for_auth-Halted :
        (b : Backend) → Halted n b → Halted n (enter_waiting_for_auth p b)
    unfolding enter_waiting_for_auth transition
    enter_waiting_for_auth-Halted b h = ground arith

    handle_saml_success-Halted : (b : Backend) → Halted n b → Halted n (handle_saml_success p b)
    unfolding handle_saml_success transition
    handle_saml_success-Halted b h = ground arith

    open_sign_in-Halted :
        (url : String) (b : Backend) → Halted n b → Halted n (open_sign_in p url b)
    unfolding open_sign_in transition
    open_sign_in-Halted url b h = ground arith

    browser_answered-Halted :
        (e : Option String) (b : Backend) → Halted n b → Halted n (browser_answered p e b)
    unfolding browser_answered
    browser_answered-Halted none b h = h
    browser_answered-Halted (some e) b h = fail_saml_session-Halted _ _ _ h

    open_validated-Halted :
        (u : Option String) (b : Backend) → Halted n b → Halted n (open_validated p u b)
    unfolding open_validated
    open_validated-Halted none b h = fail_saml_session-Halted _ _ _ h
    open_validated-Halted (some u) b h = browser_answered-Halted _ _ (open_sign_in-Halted u b h)

    maybe_open_browser-Halted :
        (url : String) (b : Backend) → Halted n b → Halted n (maybe_open_browser p url b)
    unfolding maybe_open_browser
    maybe_open_browser-Halted url b h =
        let g =
          open_validated-Halted (p.validate_auth_url url) (record b { browser_opened = true }) h in
        ground (arith, g)

    handle_helper_error-Halted :
        (c : Option HelperCode) (m : Option String) (b : Backend)
        → Halted n b
        → Halted n (handle_helper_error p c m b)
    unfolding handle_helper_error
    handle_helper_error-Halted c m b h = fail_saml_session-Halted _ _ b h

    on_saml_timeout-Halted : (b : Backend) → Halted n b → Halted n (on_saml_timeout p b)
    unfolding on_saml_timeout
    on_saml_timeout-Halted b h = grind (arith, fail_saml_session-Halted)

    on_ipsec_saml_waiting-Halted :
        (url : String) (b : Backend) → Halted n b → Halted n (on_ipsec_saml_waiting p url b)
    unfolding on_ipsec_saml_waiting transition
    on_ipsec_saml_waiting-Halted url b h = ground arith

    request_after_saml-Halted :
        (q : ConnectionProfile) (c : Credentials) (r : RequestResult) (b : Backend)
        → Halted n b
        → Halted n (request_after_saml p q c r b)
    unfolding request_after_saml continue_ipsec_after_saml
    request_after_saml-Halted q c (rejected e) b h = fail_and_clear-Halted _ _ _ (ground arith)
    request_after_saml-Halted q c (accepted r) b h = ground arith

    start_ipsec_after_saml-Halted :
        (q : ConnectionProfile) (uid tokenid : String) (b : Backend)
        → Halted n b
        → Halted n (start_ipsec_after_saml p q uid tokenid b)
    unfolding start_ipsec_after_saml
    start_ipsec_after_saml-Halted q uid tokenid b h =
        let c = record b { ipsec_tunnel_psk = "" } in
        let missing =
          fail_and_clear-Halted Errors.ipsec_credentials_required Errors.ipsec_sso_psk_message c
            h in
        let malformed =
          fail_and_clear-Halted Errors.saml_failed Errors.ipsec_saml_callback_message c h in
        let asked =
          request_after_saml-Halted q
            (record { psk = b.ipsec_tunnel_psk; username = uid; password = tokenid })
            (p.connect_request_from_fields (connect_request q)) c h in
        ground (arith, missing, malformed, asked)

    fail_logged-Halted :
        (text : String) (code : VpnErrorCode) (m : Message) (b : Backend)
        → Halted n b
        → Halted n (fail_logged p text code m b)
    unfolding fail_logged
    fail_logged-Halted text code m b h = fail_and_clear-Halted _ _ _ (ground arith)

    handle_outcome-Halted :
        (q : ConnectionProfile) (outcome : SamlOutcome) (b : Backend)
        → Halted n b
        → Halted n (handle_outcome p q outcome b)
    unfolding handle_outcome
    handle_outcome-Halted q (signed_in uid tokenid) b h =
        start_ipsec_after_saml-Halted q uid tokenid b h
    handle_outcome-Halted q (connect_error text none) b h = fail_logged-Halted _ _ _ b h
    handle_outcome-Halted q (connect_error text (some cause)) b h =
        fail_logged-Halted _ _ _ _ (ground arith)
    handle_outcome-Halted q (listener_cancelled text) b h = h
    handle_outcome-Halted q unsafe_url b h = fail_and_clear-Halted _ _ b h
    handle_outcome-Halted q (http_unknown text) b h = fail_logged-Halted _ _ _ b h
    handle_outcome-Halted q (http_rejected text) b h = fail_logged-Halted _ _ _ b h
    handle_outcome-Halted q (start_url_error text) b h = fail_logged-Halted _ _ _ b h
    handle_outcome-Halted q (listener_timed_out text) b h = fail_logged-Halted _ _ _ b h
    handle_outcome-Halted q (listener_malformed text) b h = fail_logged-Halted _ _ _ b h
    handle_outcome-Halted q (browser_launch_error text) b h = fail_logged-Halted _ _ _ b h
    handle_outcome-Halted q tls_error b h = fail_logged-Halted _ _ _ b h
    handle_outcome-Halted q (bootstrap_error text) b h = fail_logged-Halted _ _ _ b h

    finish_sign_in-Halted :
        (q : ConnectionProfile) (attempt : ℕ) (outcome : SamlOutcome) (b : Backend)
        → Halted n b
        → Halted n (finish_sign_in p q attempt outcome b)
    unfolding finish_sign_in
    finish_sign_in-Halted q attempt outcome b h = grind (arith, handle_outcome-Halted)

    module _ (seconds : String) where
      with_text-Halted :
          (t : Option String) (handle : String → Backend → Backend) (b : Backend)
          → ((line : String) (c : Backend) → Halted n c → Halted n (handle line c))
          → Halted n b
          → Halted n (with_text p seconds t handle b)
      unfolding with_text
      with_text-Halted none handle b keeps h = h
      with_text-Halted (some t) handle b keeps h = let g = keeps t b h in ground (arith, g)

      dispatch-Halted :
          (k : EventKind) (e : HelperEvent) (b : Backend)
          → Halted n b
          → Halted n (dispatch p seconds k e b)
      unfolding dispatch
      dispatch-Halted log_kind e b h = with_text-Halted _ _ b handle_log_line-Halted h
      dispatch-Halted started e b h = h
      dispatch-Halted saml_url e b h = with_text-Halted _ _ b maybe_open_browser-Halted h
      dispatch-Halted saml_listener e b h = ground arith
      dispatch-Halted saml_waiting e b h = enter_waiting_for_auth-Halted b h
      dispatch-Halted saml_success e b h = handle_saml_success-Halted b h
      dispatch-Halted saml_failure e b h = fail_saml_session-Halted _ _ b h
      dispatch-Halted certificate_kind e b h = grind (arith, handle_certificate-Halted)
      dispatch-Halted connected_kind e b h = on_connected-Halted b h
      dispatch-Halted exit e b h = on_exit-Halted seconds _ b h
      dispatch-Halted error_kind e b h = handle_helper_error-Halted _ _ b h
      dispatch-Halted _ e b h = h

      step-Halted : (a : Action) (b : Backend) → Halted n b → Halted n (step p seconds a b)
      unfolding step on_helper_event
      step-Halted (call_connect q t c) b h = connect-Halted q t c b h
      step-Halted (call_disconnect wait) b h = disconnect-Halted wait false b h
      step-Halted (call_reconnect q) b h = reconnect-Halted q b h
      step-Halted (call_set_auto_reconnect e) b h = set_auto_reconnect-Halted e b h
      step-Halted (call_begin_shutdown c) b h = begin_shutdown-Halted c b h
      step-Halted call_shutdown b h = shutdown-Halted b h
      step-Halted shutdown_timer_fires b h = on_shutdown_timeout-Halted b h
      step-Halted saml_timer_fires b h = on_saml_timeout-Halted b h
      step-Halted reconnect_timer_fires b h = on_reconnect_timer-Halted b h
      step-Halted (helper_event e) b h = dispatch-Halted e.kind e b h
      step-Halted (worker_waits url) b h = on_ipsec_saml_waiting-Halted url b h
      step-Halted (worker_ends q a o) b h = finish_sign_in-Halted q a o b h
      step-Halted (helper_runs r) b h = h

      pub run-Halted : (l : List Action) (b : Backend) → Halted n b → Halted n (run p seconds l b)
      unfolding run
      run-Halted [] b h = h
      run-Halted (a ∷ l) b h = run-Halted l _ (step-Halted a b h)
