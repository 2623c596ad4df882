-- ===== src/Vpn/Safety/Transitions.antt =====
-- Which changes of state follow the table of allowed transitions.
use fortigate_vpn_linux_gui.Prelude.{
  ℤ, String, Bool, true, false, Option, none, some, [], ◌≡◌, refl, arith,
}
use fortigate_vpn_linux_gui.Vpn.State.{
  ConnectionState, connecting, connected, disconnecting, closing, starting, waiting_for_auth,
}
use fortigate_vpn_linux_gui.Vpn.Backend.Types.{
  Backend, Ports, HelperEvent, EventKind, log_kind, started, saml_url, saml_listener, saml_waiting,
  saml_success, saml_failure, certificate_kind, connected_kind, exit, error_kind,
}
use fortigate_vpn_linux_gui.Vpn.Backend.Machine.{with_text, dispatch, on_helper_event}
use fortigate_vpn_linux_gui.Vpn.Backend.Core.{transition}
use fortigate_vpn_linux_gui.Vpn.Backend.Exit.{
  exit_locked, exit_from, exit_early, exit_connected, exit_stopped,
}
use fortigate_vpn_linux_gui.Vpn.Safety.Effects.{forcings}
use fortigate_vpn_linux_gui.Vpn.Safety.Forcings.{
  on_connected-forcings, handle_certificate-forcings, fail_saml_session-forcings,
  handle_log_line-forcings, enter_waiting_for_auth-forcings, handle_saml_success-forcings,
  maybe_open_browser-forcings, handle_helper_error-forcings,
}

abbrev pub is_exit : EventKind → Bool
is_exit exit = true
is_exit _ = false

module _ (p : Ports) (seconds : String) where
  with_text-forcings :
      (t : Option String) (handle : String → Backend → Backend) (b : Backend)
      → ((line : String) (c : Backend) → forcings (handle line c).out ≡ forcings c.out)
      → forcings (with_text p seconds t handle b).out ≡ forcings b.out
  unfolding with_text
  with_text-forcings none handle b keeps = refl
  with_text-forcings (some t) handle b keeps = grind (arith, keeps)

  dispatch-forcings :
      (k : EventKind) (e : HelperEvent) (b : Backend)
      → is_exit k ≡ false
      → forcings (dispatch p seconds k e b).out ≡ forcings b.out
  unfolding dispatch
  dispatch-forcings log_kind e b n = with_text-forcings _ _ b (handle_log_line-forcings p)
  dispatch-forcings started e b n = refl
  dispatch-forcings saml_url e b n = with_text-forcings _ _ b (maybe_open_browser-forcings p)
  dispatch-forcings saml_listener e b n = ground arith
  dispatch-forcings saml_waiting e b n = enter_waiting_for_auth-forcings p b
  dispatch-forcings saml_success e b n = handle_saml_success-forcings p b
  dispatch-forcings saml_failure e b n = fail_saml_session-forcings p _ _ b
  dispatch-forcings certificate_kind e b n = grind (arith, handle_certificate-forcings p)
  dispatch-forcings connected_kind e b n = on_connected-forcings p b
  dispatch-forcings exit e b n = ground arith
  dispatch-forcings error_kind e b n = handle_helper_error-forcings p _ _ b
  dispatch-forcings _ e b n = refl

  -- An event of the helper other than the end of its process changes the state only along the
  -- table of allowed transitions: it logs no forced one.
  pub on_helper_event-forcings :
      (e : HelperEvent) (b : Backend)
      → is_exit e.kind ≡ false
      → forcings (on_helper_event p seconds e b).out ≡ forcings b.out
  unfolding on_helper_event
  on_helper_event-forcings e b n = dispatch-forcings e.kind e b n

exit_from-forcings :
    (s : ConnectionState) (code : ℤ) (b : Backend)
    → b.state ≡ s
    → forcings (exit_from s code b).backend.out ≡ forcings b.out
unfolding exit_early exit_connected exit_stopped transition
exit_from-forcings disconnecting code b e = ground arith
exit_from-forcings closing code b e = refl
exit_from-forcings connected code b e = ground arith
exit_from-forcings starting code b e = ground arith
exit_from-forcings connecting code b e = ground arith
exit_from-forcings waiting_for_auth code b e = ground arith
exit_from-forcings _ code b e = refl

-- The end of the process, in whatever state it finds the backend, changes the state only along the
-- table of allowed transitions.
pub exit_locked-forcings :
    (code : ℤ) (b : Backend) → forcings (exit_locked code b).backend.out ≡ forcings b.out
unfolding exit_locked
exit_locked-forcings code b = exit_from-forcings b.state code (record b { argv = [] }) refl
