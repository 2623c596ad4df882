-- ===== src/Vpn/Safety/Sound/Connect.antt =====
-- `connect` keeps the invariant: the probe, the choice of an executable, the start of a session.
use fortigate_vpn_linux_gui.Prelude.{
  String, Bool, false, Option, none, some, List, ◌≡◌, refl, arith, inl, inr, Bool-cases,
}
use fortigate_vpn_linux_gui.Profiles.Model.{ConnectionProfile}
use fortigate_vpn_linux_gui.Vpn.Backend.Errors
use fortigate_vpn_linux_gui.Vpn.Backend.Errors.{VpnErrorCode, Message}
use fortigate_vpn_linux_gui.Vpn.Backend.Types.{
  Backend, Ports, Credentials, ConnectRequest, HelperError, OpenfortivpnCapabilities, RequestResult,
  accepted, rejected,
}
use fortigate_vpn_linux_gui.Vpn.Backend.Core.{
  vpn_log, transition, wait_helper_idle, fail_without_process,
}
use fortigate_vpn_linux_gui.Vpn.Backend.Session.{
  has_capabilities, is_missing, is_polkit_unavailable, version_of, probe_helper, resolve_executable,
}
use fortigate_vpn_linux_gui.Vpn.Backend.Connect.{
  open_session, session_authorized, start_failed, settle_session, begin_session,
  begin_ipsec_saml_preauth, start_request, start_validated, connect_resolved, connect_ssl,
  connect_sso, connect_ipsec, connect_idle, connect,
}
use fortigate_vpn_linux_gui.Vpn.Safety.Sound.Core.{
  IsSound, kept-IsSound, fail_without_process-IsSound, fail_and_clear-IsSound,
}

module _ (p : Ports) where
  abbrev IsOpen : Backend → Type 0
  IsOpen b = b.closing.shutting_down ≡ false

  fail_logged-IsSound :
      (text : String) (code : VpnErrorCode) (m : Message) (b : Backend)
      → IsSound b
      → IsSound (fail_without_process p code m (vpn_log text b))
  fail_logged-IsSound text code m b h =
      fail_without_process-IsSound p code m (vpn_log text b) (kept-IsSound b _ refl h)

  probe_helper-IsSound :
      (required : List String) (b : Backend) → IsSound b → IsSound (probe_helper p required b).1
  unfolding probe_helper
  probe_helper-IsSound required b h =
      let probe = p.probe b.out in
      let c = record b { helper_probe = some probe } in
      let hc = kept-IsSound b c refl h in
      elim (Bool-cases (is_missing probe.status)) [
        | inl s ↦ simp s (fail_logged-IsSound _ _ _ c hc)
        | inr s ↦ elim (Bool-cases (is_polkit_unavailable probe.status)) [
          | inl t ↦ simp s (simp t (fail_logged-IsSound _ _ _ c hc))
          | inr t ↦ elim (Bool-cases probe.version_mismatch) [
            | inl u ↦ simp s (simp t (simp u (fail_logged-IsSound _ _ _ c hc)))
            | inr u ↦ elim (Bool-cases (has_capabilities probe.capabilities required)) [
              | inl v ↦ simp s (simp t (simp u (simp v hc)))
              | inr v ↦ simp s (simp t (simp u (simp v (fail_logged-IsSound _ _ _ c hc))))
            ]
          ]
        ]
      ]

  probe_helper-closing :
      (required : List String) (b : Backend) → (probe_helper p required b).1.closing ≡ b.closing
  unfolding probe_helper fail_without_process
  probe_helper-closing required b = ground arith

  resolve_executable-IsSound :
      (q : ConnectionProfile) (b : Backend) → IsSound b → IsSound (resolve_executable p q b).1
  unfolding resolve_executable
  resolve_executable-IsSound q b h = ground (
    arith,
    fail_logged-IsSound "No SAML-capable openfortivpn (--saml-login) was found."
        Errors.sso_not_supported (Errors.saml_unsupported (version_of (p.selector false))) b h,
    fail_logged-IsSound "openfortivpn executable was not found." Errors.openfortivpn_missing
        Errors.missing_message b h,
  )

  resolve_executable-closing :
      (q : ConnectionProfile) (b : Backend) → (resolve_executable p q b).1.closing ≡ b.closing
  unfolding resolve_executable fail_without_process
  resolve_executable-closing q b = ground arith

  module _ (q : ConnectionProfile) (b : Backend) (h : IsSound b)
      (idle : b.closing.shutting_down ≡ false) where
    open_session-IsSound :
        (c : Option OpenfortivpnCapabilities) (r : ConnectRequest) (t : Bool)
        (k : Option Credentials)
        → IsSound (open_session p q c r t k b)
    unfolding open_session transition
    open_session-IsSound c r t k = ground arith

    begin_ipsec_saml_preauth-IsSound : (psk : String) → IsSound (begin_ipsec_saml_preauth p q psk b)
    unfolding begin_ipsec_saml_preauth transition
    begin_ipsec_saml_preauth-IsSound psk = ground arith

    session_authorized-IsSound : IsSound (session_authorized p q b)
    unfolding session_authorized transition
    session_authorized-IsSound = ground arith

  open_session-closing :
      (q : ConnectionProfile) (c : Option OpenfortivpnCapabilities) (r : ConnectRequest) (t : Bool)
      (k : Option Credentials) (b : Backend)
      → (open_session p q c r t k b).closing ≡ b.closing
  unfolding open_session transition
  open_session-closing q c r t k b = refl

  pub start_failed-IsSound :
      (e : HelperError) (b : Backend) → IsSound b → IsSound (start_failed p e b)
  unfolding start_failed
  start_failed-IsSound e b h = fail_and_clear-IsSound p _ _ _ (ground arith)

  settle_session-IsSound :
      (q : ConnectionProfile) (e : Option HelperError) (b : Backend)
      → IsSound b
      → b.closing.shutting_down ≡ false
      → IsSound (settle_session p q e b)
  unfolding settle_session
  settle_session-IsSound q none b h idle = session_authorized-IsSound q b h idle
  settle_session-IsSound q (some e) b h idle = start_failed-IsSound e b h

  module _ (q : ConnectionProfile) (t : Bool) where
    begin_session-IsSound :
        (c : Option OpenfortivpnCapabilities) (r : ConnectRequest) (k : Option Credentials)
        (b : Backend)
        → IsSound b
        → b.closing.shutting_down ≡ false
        → IsSound (begin_session p q c r t k b)
    unfolding begin_session
    begin_session-IsSound c r k b h idle = grind (
      arith,
      open_session-closing q c r t k b,
      open_session-IsSound q b h idle c r t k,
      settle_session-IsSound,
    )

    start_request-IsSound :
        (c : Option OpenfortivpnCapabilities) (k : Option Credentials) (r : RequestResult)
        (b : Backend)
        → IsSound b
        → b.closing.shutting_down ≡ false
        → IsSound (start_request p q c t k r b)
    unfolding start_request
    start_request-IsSound c k (rejected e) b h idle =
        fail_without_process-IsSound p _ _ _ (ground arith)
    start_request-IsSound c k (accepted r) b h idle = begin_session-IsSound c r k b h idle

    start_validated-IsSound :
        (c : Option OpenfortivpnCapabilities) (k : Option Credentials) (b : Backend)
        → IsSound b
        → b.closing.shutting_down ≡ false
        → IsSound (start_validated p q c t k b)
    unfolding start_validated
    start_validated-IsSound c k b h idle =
        grind (arith, probe_helper-IsSound, probe_helper-closing, start_request-IsSound)

    connect_resolved-IsSound :
        (c : Option OpenfortivpnCapabilities) (b : Backend)
        → IsSound b
        → b.closing.shutting_down ≡ false
        → IsSound (connect_resolved p q t c b)
    unfolding connect_resolved
    connect_resolved-IsSound none b h idle = h
    connect_resolved-IsSound (some c) b h idle = start_validated-IsSound (some c) none b h idle

    connect_ssl-IsSound :
        (b : Backend) → IsSound b → b.closing.shutting_down ≡ false → IsSound (connect_ssl p q t b)
    unfolding connect_ssl
    connect_ssl-IsSound b h idle =
        grind
          (arith, resolve_executable-IsSound, resolve_executable-closing, connect_resolved-IsSound)

    connect_sso-IsSound :
        (k : Option Credentials) (b : Backend)
        → IsSound b
        → b.closing.shutting_down ≡ false
        → IsSound (connect_sso p q k b)
    unfolding connect_sso
    connect_sso-IsSound k b h idle = grind (
      arith,
      fail_without_process-IsSound p,
      probe_helper-IsSound,
      probe_helper-closing,
      begin_ipsec_saml_preauth-IsSound,
    )

    connect_ipsec-IsSound :
        (k : Option Credentials) (b : Backend)
        → IsSound b
        → b.closing.shutting_down ≡ false
        → IsSound (connect_ipsec p q t k b)
    unfolding connect_ipsec
    connect_ipsec-IsSound k b h idle =
        grind (arith, fail_without_process-IsSound p, start_validated-IsSound)

    connect_idle-IsSound :
        (k : Option Credentials) (b : Backend)
        → IsSound b
        → b.closing.shutting_down ≡ false
        → IsSound (connect_idle p q t k b)
    unfolding connect_idle
    connect_idle-IsSound k b h idle =
        grind (arith, connect_sso-IsSound, connect_ipsec-IsSound, connect_ssl-IsSound)

    wait_helper_idle-IsSound : (b : Backend) → IsSound b → IsSound (wait_helper_idle p b)
    wait_helper_idle-IsSound b h = ground arith

    wait_helper_idle-closing : (b : Backend) → (wait_helper_idle p b).closing ≡ b.closing
    wait_helper_idle-closing b = ground arith

  pub connect-IsSound :
      (q : Option ConnectionProfile) (t : Bool) (k : Option Credentials) (b : Backend)
      → IsSound b
      → IsSound (connect p q t k b)
  unfolding connect
  connect-IsSound none t k b h = fail_without_process-IsSound p _ _ _ h
  connect-IsSound (some q) t k b h = elim (Bool-cases b.closing.shutting_down) [
    | inl shut ↦ rw shut (ground arith)
    | inr idle ↦ grind (
      arith,
      connect_idle-IsSound q t k (wait_helper_idle p b) (wait_helper_idle-IsSound q t b h)
          (rw (wait_helper_idle-closing q t b) idle),
    )
  ]
