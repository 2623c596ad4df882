-- ===== src/Vpn/Safety/Sound/Events.antt =====
-- The events of the helper keep the invariant.
use fortigate_vpn_linux_gui.Prelude.{
  true, false, refl, ltb, ◌||◌, String, Bool, Option, none, some, List, [], ◌∷◌, arith, inl, inr,
  Bool-cases,
}
use fortigate_vpn_linux_gui.Vpn.State.{waiting_for_auth, connecting, connected, is}
use fortigate_vpn_linux_gui.Vpn.Backend.Errors.{OutputHint, HelperCode}
use fortigate_vpn_linux_gui.Vpn.Backend.Types.{Logged, Backend, Ports, VpnSnapshot, CertificateInfo}
use fortigate_vpn_linux_gui.Vpn.Backend.Core.{cancel_timeout, transition}
use fortigate_vpn_linux_gui.Vpn.Backend.Events.{
  log_tunnel, leave_waiting, mark_connected, notify_states, on_connected, handle_hint,
  handle_log_line, handle_certificate, interrupt, report_certificate, open_sign_in,
  browser_answered, open_validated, child_sa_seen, seen_before, first_report,
  enter_waiting_for_auth, handle_saml_success, handle_helper_error, maybe_open_browser,
  on_saml_timeout,
}
use fortigate_vpn_linux_gui.Vpn.Safety.Sound.Core.{
  IsSound, kept-IsSound, cancel_timeout-IsSound, transition-IsSound, fail_saml_session-IsSound,
}

module _ (p : Ports) where
  reset-IsSound :
      (l : Logged) (b : Backend)
      → IsSound b
      → IsSound (record b {
        logged = l;
        retry = record (b.retry) { attempt = 0; pending = false; was = false };
      })
  reset-IsSound l b h = ground arith

  log_tunnel-IsSound : (b : Backend) → IsSound b → IsSound (log_tunnel p b)
  unfolding log_tunnel
  log_tunnel-IsSound b h =
      let l = record (b.logged) { tunnel_established = true } in
      elim (Bool-cases b.logged.tunnel_established) [
        | inl s ↦ simp s h
        | inr s ↦ elim (Bool-cases (ltb 0 b.retry.attempt || b.retry.was)) [
          | inl t ↦ simp s (simp t (kept-IsSound _ _ refl (reset-IsSound l b h)))
          | inr t ↦ simp s (simp t (kept-IsSound _ _ refl (reset-IsSound l b h)))
        ]
      ]

  leave_waiting-IsSound : (b : Backend) → IsSound b → IsSound (leave_waiting p b)
  unfolding leave_waiting
  leave_waiting-IsSound b h = elim (Bool-cases (is waiting_for_auth b.state)) [
    | inl s ↦ simp s (
        transition-IsSound connecting (cancel_timeout b) (cancel_timeout-IsSound b h)
          (λ e. ground (arith, h.halted e)))
    | inr s ↦ simp s h
  ]

  mark_connected-IsSound : (b : Backend) → IsSound b → IsSound (mark_connected p b).1
  unfolding mark_connected
  mark_connected-IsSound b h =
      let hc = leave_waiting-IsSound b h in
      elim (Bool-cases (is connecting (leave_waiting p b).state)) [
        | inl s ↦ simp s (
            log_tunnel-IsSound (transition connected (leave_waiting p b)) (
              transition-IsSound connected (leave_waiting p b) hc
                (λ e. ground (arith, hc.halted e))))
        | inr s ↦ simp s hc
      ]

  notify_states-IsSound :
      (l : List VpnSnapshot) (b : Backend) → IsSound b → IsSound (notify_states p l b)
  unfolding notify_states
  notify_states-IsSound [] b h = h
  notify_states-IsSound (s ∷ l) b h = notify_states-IsSound l _ (ground arith)

  pub on_connected-IsSound : (b : Backend) → IsSound b → IsSound (on_connected p b)
  unfolding on_connected
  on_connected-IsSound b h = notify_states-IsSound _ _ (mark_connected-IsSound b h)

  handle_hint-IsSound :
      (t : OutputHint) (i : Bool) (b : Backend) → IsSound b → IsSound (handle_hint p t i b)
  unfolding handle_hint
  handle_hint-IsSound OutputHint.tunnel_connected i b h =
      notify_states-IsSound _ _
        (ground (arith, mark_connected-IsSound (child_sa_seen i b) (ground arith)))
  handle_hint-IsSound OutputHint.gateway_connected i b h = ground arith
  handle_hint-IsSound OutputHint.ike_sa_init i b h = ground arith
  handle_hint-IsSound OutputHint.ike_established i b h = ground arith
  handle_hint-IsSound OutputHint.eap_in_progress i b h = ground arith
  handle_hint-IsSound _ i b h = ground arith

  pub handle_log_line-IsSound :
      (line : String) (b : Backend) → IsSound b → IsSound (handle_log_line p line b)
  unfolding handle_log_line
  handle_log_line-IsSound line b h = grind (arith, handle_hint-IsSound)

  interrupt-IsSound : (b : Backend) → IsSound b → IsSound (interrupt p b)
  unfolding interrupt transition
  interrupt-IsSound b h = ground arith

  report_certificate-IsSound :
      (i : CertificateInfo) (b : Backend) → IsSound b → IsSound (report_certificate p i b)
  unfolding report_certificate
  report_certificate-IsSound i b h = ground arith

  pub handle_certificate-IsSound :
      (i : CertificateInfo) (b : Backend) → IsSound b → IsSound (handle_certificate p i b)
  unfolding handle_certificate
  handle_certificate-IsSound i b h = elim (Bool-cases (seen_before b.logged.cert_sha i.sha256)) [
    | inl old ↦ rw old (ground arith)
    | inr new ↦
        rw new
          (report_certificate-IsSound i _ (interrupt-IsSound (first_report i b) (ground arith)))
  ]

  pub enter_waiting_for_auth-IsSound :
      (b : Backend) → IsSound b → IsSound (enter_waiting_for_auth p b)
  unfolding enter_waiting_for_auth transition
  enter_waiting_for_auth-IsSound b h = ground arith

  pub handle_saml_success-IsSound : (b : Backend) → IsSound b → IsSound (handle_saml_success p b)
  unfolding handle_saml_success transition
  handle_saml_success-IsSound b h = ground arith

  pub handle_helper_error-IsSound :
      (c : Option HelperCode) (m : Option String) (b : Backend)
      → IsSound b
      → IsSound (handle_helper_error p c m b)
  unfolding handle_helper_error
  handle_helper_error-IsSound c m b h = fail_saml_session-IsSound p _ _ b h

  open_sign_in-IsSound : (u : String) (b : Backend) → IsSound b → IsSound (open_sign_in p u b)
  unfolding open_sign_in transition
  open_sign_in-IsSound u b h = ground arith

  browser_answered-IsSound :
      (e : Option String) (b : Backend) → IsSound b → IsSound (browser_answered p e b)
  unfolding browser_answered
  browser_answered-IsSound none b h = ground arith
  browser_answered-IsSound (some e) b h = fail_saml_session-IsSound p _ _ _ (ground arith)

  open_validated-IsSound :
      (u : Option String) (b : Backend) → IsSound b → IsSound (open_validated p u b)
  unfolding open_validated
  open_validated-IsSound none b h = grind (arith, fail_saml_session-IsSound p)
  open_validated-IsSound (some u) b h = browser_answered-IsSound _ _ (open_sign_in-IsSound u b h)

  pub maybe_open_browser-IsSound :
      (u : String) (b : Backend) → IsSound b → IsSound (maybe_open_browser p u b)
  unfolding maybe_open_browser
  maybe_open_browser-IsSound u b h = grind (arith, open_validated-IsSound)

  pub on_saml_timeout-IsSound : (b : Backend) → IsSound b → IsSound (on_saml_timeout p b)
  unfolding on_saml_timeout
  on_saml_timeout-IsSound b h = grind (arith, fail_saml_session-IsSound p)
