-- ===== src/Vpn/Safety/Forcings.antt =====
-- The forced transitions that each handler of a helper event logs.
use fortigate_vpn_linux_gui.Prelude.{
  String, Bool, true, Option, none, some, List, [], ◌∷◌, ◌≡◌, inl, inr, Bool-cases, refl, arith,
  suc, ◌||◌, ◌∙◌, if◌then◌else◌,
}
use fortigate_vpn_linux_gui.Vpn.State.{
  ConnectionState, connecting, connected, waiting_for_auth, allows, is,
}
use fortigate_vpn_linux_gui.Vpn.Backend.Errors.{OutputHint, VpnErrorCode, Message, HelperCode}
use fortigate_vpn_linux_gui.Vpn.Backend.Types.{Backend, Ports, CertificateInfo, VpnSnapshot}
use fortigate_vpn_linux_gui.Vpn.Backend.Core.{cancel_timeout, transition, fail_saml_session}
use fortigate_vpn_linux_gui.Vpn.Backend.Events.{
  log_tunnel, leave_waiting, mark_connected, notify_states, on_connected, handle_hint,
  handle_log_line, handle_certificate, open_sign_in, browser_answered, open_validated,
  maybe_open_browser, handle_helper_error, on_saml_timeout, interrupt, report_certificate,
  first_report, child_sa_seen, enter_waiting_for_auth, handle_saml_success,
}
use fortigate_vpn_linux_gui.Vpn.Safety.Effects.{forcings}

-- A state change that the table allows, or that stays, logs no forced transition; any other logs one.
pub transition-forcings :
    (new : ConnectionState) (b : Backend)
    → forcings (transition new b).out
      ≡ (if is new b.state || allows b.state new then forcings b.out else suc (forcings b.out))
unfolding transition
transition-forcings new b = ground arith

pub transition-allowed :
    (new : ConnectionState) (b : Backend)
    → is new b.state || allows b.state new ≡ true
    → forcings (transition new b).out ≡ forcings b.out
transition-allowed new b allowed = transition-forcings new b ∙ simp allowed refl

module _ (p : Ports) where
  pub notify_states-forcings :
      (l : List VpnSnapshot) (b : Backend) → forcings (notify_states p l b).out ≡ forcings b.out
  unfolding notify_states
  notify_states-forcings [] b = refl
  notify_states-forcings (s ∷ l) b = notify_states-forcings l _

  pub log_tunnel-forcings : (b : Backend) → forcings (log_tunnel p b).out ≡ forcings b.out
  unfolding log_tunnel
  log_tunnel-forcings b = ground arith

  pub leave_waiting-forcings : (b : Backend) → forcings (leave_waiting p b).out ≡ forcings b.out
  unfolding leave_waiting
  leave_waiting-forcings b = elim (Bool-cases (is waiting_for_auth b.state)) [
    | inl s ↦
        simp s (ground (arith, transition-allowed connecting (cancel_timeout b) (ground arith)))
    | inr s ↦ simp s refl
  ]

  pub mark_connected-forcings : (b : Backend) → forcings (mark_connected p b).1.out ≡ forcings b.out
  unfolding mark_connected
  mark_connected-forcings b = elim (Bool-cases (is connecting (leave_waiting p b).state)) [
    | inl s ↦ simp s (
        log_tunnel-forcings (transition connected (leave_waiting p b))
        ∙ transition-allowed connected (leave_waiting p b) (ground arith)
        ∙ leave_waiting-forcings b)
    | inr s ↦ simp s (leave_waiting-forcings b)
  ]

  pub on_connected-forcings : (b : Backend) → forcings (on_connected p b).out ≡ forcings b.out
  unfolding on_connected
  on_connected-forcings b = notify_states-forcings _ _ ∙ mark_connected-forcings b

  pub interrupt-forcings : (b : Backend) → forcings (interrupt p b).out ≡ forcings b.out
  unfolding interrupt transition
  interrupt-forcings b = ground arith

  pub report_certificate-forcings :
      (i : CertificateInfo) (b : Backend) → forcings (report_certificate p i b).out ≡ forcings b.out
  unfolding report_certificate
  report_certificate-forcings i b = ground arith

  pub first_report-forcings :
      (i : CertificateInfo) (b : Backend) → forcings (first_report i b).out ≡ forcings b.out
  first_report-forcings i b = ground arith

  pub handle_certificate-forcings :
      (i : CertificateInfo) (b : Backend) → forcings (handle_certificate p i b).out ≡ forcings b.out
  unfolding handle_certificate
  handle_certificate-forcings i b = ground (
    arith,
    report_certificate-forcings i (interrupt p (first_report i b)),
    interrupt-forcings (first_report i b),
    first_report-forcings i b,
  )

  pub fail_saml_session-forcings :
      (code : VpnErrorCode) (m : Message) (b : Backend)
      → forcings (fail_saml_session p code m b).out ≡ forcings b.out
  unfolding fail_saml_session transition
  fail_saml_session-forcings code m b = ground arith

  pub handle_hint-forcings :
      (t : OutputHint) (i : Bool) (b : Backend)
      → forcings (handle_hint p t i b).out ≡ forcings b.out
  unfolding handle_hint
  handle_hint-forcings OutputHint.tunnel_connected i b =
      notify_states-forcings _ _ ∙ ground (arith, mark_connected-forcings (child_sa_seen i b))
  handle_hint-forcings OutputHint.gateway_connected i b = ground arith
  handle_hint-forcings OutputHint.ike_sa_init i b = ground arith
  handle_hint-forcings OutputHint.ike_established i b = ground arith
  handle_hint-forcings OutputHint.eap_in_progress i b = ground arith
  handle_hint-forcings _ i b = refl

  pub handle_log_line-forcings :
      (line : String) (b : Backend) → forcings (handle_log_line p line b).out ≡ forcings b.out
  unfolding handle_log_line
  handle_log_line-forcings line b = grind (arith, handle_hint-forcings)

  pub enter_waiting_for_auth-forcings :
      (b : Backend) → forcings (enter_waiting_for_auth p b).out ≡ forcings b.out
  unfolding enter_waiting_for_auth transition
  enter_waiting_for_auth-forcings b = ground arith

  pub handle_saml_success-forcings :
      (b : Backend) → forcings (handle_saml_success p b).out ≡ forcings b.out
  unfolding handle_saml_success transition
  handle_saml_success-forcings b = ground arith

  pub open_sign_in-forcings :
      (url : String) (b : Backend) → forcings (open_sign_in p url b).out ≡ forcings b.out
  unfolding open_sign_in transition
  open_sign_in-forcings url b = ground arith

  pub browser_answered-forcings :
      (e : Option String) (b : Backend) → forcings (browser_answered p e b).out ≡ forcings b.out
  unfolding browser_answered
  browser_answered-forcings none b = refl
  browser_answered-forcings (some e) b = fail_saml_session-forcings _ _ _

  pub open_validated-forcings :
      (u : Option String) (b : Backend) → forcings (open_validated p u b).out ≡ forcings b.out
  unfolding open_validated
  open_validated-forcings none b = fail_saml_session-forcings _ _ _
  open_validated-forcings (some u) b = browser_answered-forcings _ _ ∙ open_sign_in-forcings u b

  pub maybe_open_browser-forcings :
      (url : String) (b : Backend) → forcings (maybe_open_browser p url b).out ≡ forcings b.out
  unfolding maybe_open_browser
  maybe_open_browser-forcings url b = ground (
    arith,
    open_validated-forcings (p.validate_auth_url url) (record b { browser_opened = true }),
  )

  pub handle_helper_error-forcings :
      (c : Option HelperCode) (m : Option String) (b : Backend)
      → forcings (handle_helper_error p c m b).out ≡ forcings b.out
  unfolding handle_helper_error
  handle_helper_error-forcings c m b = fail_saml_session-forcings _ _ b

  pub on_saml_timeout-forcings : (b : Backend) → forcings (on_saml_timeout p b).out ≡ forcings b.out
  unfolding on_saml_timeout
  on_saml_timeout-forcings b = grind (arith, fail_saml_session-forcings)
