-- ===== src/Vpn/Safety/Sound/Machine.antt =====
-- Every step of the machine keeps the invariant, and a new backend has it.
use fortigate_vpn_linux_gui.Prelude.{
  ℕ, String, Bool, false, Option, none, some, List, [], ◌∷◌, arith,
}
use fortigate_vpn_linux_gui.Vpn.Backend.Types.{
  Backend, Ports, EventKind, HelperEvent, log_kind, started, saml_url, saml_listener, saml_waiting,
  saml_success, saml_failure, certificate_kind, connected_kind, exit, error_kind,
}
use fortigate_vpn_linux_gui.Vpn.Backend.Machine.{
  with_text, dispatch, on_helper_event, initial, Action, step, run, call_connect, call_disconnect,
  call_reconnect, call_set_auto_reconnect, call_begin_shutdown, call_shutdown, shutdown_timer_fires,
  saml_timer_fires, reconnect_timer_fires, helper_event, worker_waits, worker_ends, helper_runs,
}
use fortigate_vpn_linux_gui.Vpn.Safety.Sound.Core.{IsSound, fail_saml_session-IsSound}
use fortigate_vpn_linux_gui.Vpn.Safety.Sound.Connect.{connect-IsSound}
use fortigate_vpn_linux_gui.Vpn.Safety.Sound.Stop.{
  disconnect-IsSound, reconnect-IsSound, set_auto_reconnect-IsSound, begin_shutdown-IsSound,
  shutdown-IsSound, on_shutdown_timeout-IsSound,
}
use fortigate_vpn_linux_gui.Vpn.Safety.Sound.Events.{
  on_connected-IsSound, handle_log_line-IsSound, handle_certificate-IsSound,
  enter_waiting_for_auth-IsSound, handle_saml_success-IsSound, handle_helper_error-IsSound,
  maybe_open_browser-IsSound, on_saml_timeout-IsSound,
}
use fortigate_vpn_linux_gui.Vpn.Safety.Sound.Exit.{on_exit-IsSound, on_reconnect_timer-IsSound}
use fortigate_vpn_linux_gui.Vpn.Safety.Sound.SignIn.{
  on_ipsec_saml_waiting-IsSound, finish_sign_in-IsSound,
}

module _ (p : Ports) (seconds : String) where
  with_text-IsSound :
      (t : Option String) (handle : String → Backend → Backend) (b : Backend)
      → ((line : String) (c : Backend) → IsSound c → IsSound (handle line c))
      → IsSound b
      → IsSound (with_text p seconds t handle b)
  unfolding with_text
  with_text-IsSound none handle b keeps h = h
  with_text-IsSound (some t) handle b keeps h = grind (arith, keeps)

  dispatch-IsSound :
      (k : EventKind) (e : HelperEvent) (b : Backend)
      → IsSound b
      → IsSound (dispatch p seconds k e b)
  unfolding dispatch
  dispatch-IsSound log_kind e b h = with_text-IsSound _ _ b (handle_log_line-IsSound p) h
  dispatch-IsSound started e b h = ground arith
  dispatch-IsSound saml_url e b h = with_text-IsSound _ _ b (maybe_open_browser-IsSound p) h
  dispatch-IsSound saml_listener e b h = ground arith
  dispatch-IsSound saml_waiting e b h = enter_waiting_for_auth-IsSound p b h
  dispatch-IsSound saml_success e b h = handle_saml_success-IsSound p b h
  dispatch-IsSound saml_failure e b h = fail_saml_session-IsSound p _ _ b h
  dispatch-IsSound certificate_kind e b h = grind (arith, handle_certificate-IsSound p)
  dispatch-IsSound connected_kind e b h = on_connected-IsSound p b h
  dispatch-IsSound exit e b h = on_exit-IsSound p seconds _ b h
  dispatch-IsSound error_kind e b h = handle_helper_error-IsSound p _ _ b h
  dispatch-IsSound _ e b h = h

  step-IsSound : (a : Action) (b : Backend) → IsSound b → IsSound (step p seconds a b)
  unfolding step on_helper_event
  step-IsSound (call_connect q t c) b h = connect-IsSound p q t c b h
  step-IsSound (call_disconnect wait) b h = disconnect-IsSound p wait false b h
  step-IsSound (call_reconnect q) b h = reconnect-IsSound p q b h
  step-IsSound (call_set_auto_reconnect e) b h = set_auto_reconnect-IsSound p e b h
  step-IsSound (call_begin_shutdown c) b h = begin_shutdown-IsSound p c b h
  step-IsSound call_shutdown b h = shutdown-IsSound p b h
  step-IsSound shutdown_timer_fires b h = on_shutdown_timeout-IsSound p b h
  step-IsSound saml_timer_fires b h = on_saml_timeout-IsSound p b h
  step-IsSound reconnect_timer_fires b h = on_reconnect_timer-IsSound p b h
  step-IsSound (helper_event e) b h = dispatch-IsSound e.kind e b h
  step-IsSound (worker_waits url) b h = on_ipsec_saml_waiting-IsSound p url b h
  step-IsSound (worker_ends q n o) b h = finish_sign_in-IsSound p q n o b h
  step-IsSound (helper_runs r) b h = ground arith

  pub run-IsSound : (l : List Action) (b : Backend) → IsSound b → IsSound (run p seconds l b)
  unfolding run
  run-IsSound [] b h = h
  run-IsSound (a ∷ l) b h = run-IsSound l _ (step-IsSound a b h)

  pub initial-IsSound : (r : Bool) (n : ℕ) → IsSound (initial r n)
  initial-IsSound r n = ground arith
