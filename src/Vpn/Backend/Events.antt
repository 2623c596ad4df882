-- ===== src/Vpn/Backend/Events.antt =====
-- The events of the helper and of the timers (vpn/backend.py): log lines, certificates, the steps
-- of a SAML sign-in and the CONNECTED event.
use fortigate_vpn_linux_gui.Prelude.{
  String, Bool, true, false, not, ◌||◌, ◌<>◌, Option, none, some, List, [], ◌∷◌, str_eq, ltb, ◌▷◌,
  if◌then◌else◌,
}
use fortigate_vpn_linux_gui.Profiles.Model.{is_ipsec}
use fortigate_vpn_linux_gui.Vpn.State.{
  ConnectionState, starting, connecting, connected, waiting_for_auth, waiting_for_certificate_trust,
  is, among,
}
use fortigate_vpn_linux_gui.Vpn.Backend.Errors
use fortigate_vpn_linux_gui.Vpn.Backend.Errors.{
  VpnErrorCode, OutputHint, Message, plain, code_map, HelperCode,
}
use fortigate_vpn_linux_gui.Vpn.Backend.Types.{
  debug, error, warning, CertificateInfo, opening, opened, browser_failed, VpnSnapshot, state_event,
  error_event, saml_timer, log, notify, schedule, open_browser, Backend, Ports,
}
use fortigate_vpn_linux_gui.Vpn.Backend.Core.{
  emit, emit_if, vpn_log, vpn_log_at, app_log, app_log_unless, notify_state, snapshot, transition,
  cancel_timeout, set_error, fail_saml_session,
}
use fortigate_vpn_linux_gui.Vpn.Backend.Failure.{certificate_error, pin_differs, profile_is}
mod Saml
unfoldable pub use Saml.*

-- The flags of the lines that a hint may log once: each is the hint's own.
abbrev note_hint : OutputHint → Backend → Backend
note_hint OutputHint.no_hint b = b
note_hint OutputHint.ike_sa_init b = b
note_hint OutputHint.eap_in_progress b = b
note_hint hint b = record b { output_hint = hint }

-- The certificate is kept whether or not it was reported before.
abbrev pub note_certificate : CertificateInfo → Backend → Backend
note_certificate info b = record b {
  presented_certificate = some info;
  certificate_subject = some info.subject;
  certificate_issuer = some info.issuer;
  output_hint = OutputHint.certificate;
}

-- The first report of a certificate stops the sign-in timer.
abbrev pub first_report : CertificateInfo → Backend → Backend
first_report info b =
    record (note_certificate info b) { logged = record (b.logged) { cert_sha = some info.sha256 } }
    ▷ cancel_timeout

-- The tunnel of an IPsec session has been reported.
abbrev pub child_sa_seen : Bool → Backend → Backend
child_sa_seen ipsec b = record (note_hint OutputHint.tunnel_connected b) {
  logged = record (b.logged) { child_sa = if ipsec then true else b.logged.child_sa };
}

abbrev pub pinned_of : Backend → Option String
pinned_of b = elim b.profile [ none ↦ none | some q ↦ q.trusted_cert_sha256 ]

abbrev pub seen_before : Option String → String → Bool
seen_before none sha = false
seen_before (some old) sha = str_eq old sha

-- The states in which a certificate interrupts the session.
abbrev awaits_gateway : List ConnectionState
awaits_gateway = starting ∷ waiting_for_auth ∷ connecting ∷ []

-- `_mark_connected_locked`, with the snapshots to be sent.
module _ (p : Ports) where
  -- The tunnel is up for the first time in the session.
  unfoldable pub log_tunnel : Backend → Backend
  log_tunnel b =
      if b.logged.tunnel_established
      then b
      else (let reconnected = ltb 0 b.retry.attempt || b.retry.was in
          let c =
            record b { logged = record (b.logged) { tunnel_established = true } }
            ▷ app_log "VPN connected." in
          let d = record c {
            retry = record (c.retry) { attempt = 0; pending = false; was = false };
          } in
          if reconnected then app_log "VPN reconnected successfully." d else d)

  -- The sign-in is over.
  unfoldable pub leave_waiting : Backend → Backend
  leave_waiting b =
      if is waiting_for_auth b.state then transition connecting (cancel_timeout b) else b

  unfoldable pub mark_connected : Backend → List VpnSnapshot × Backend
  mark_connected b =
      let is_waiting = is waiting_for_auth b.state in
      let c = leave_waiting b in
      let before = if is_waiting then snapshot p c ∷ [] else [] in
      if is connecting c.state
      then (let d = transition connected c in
          (
            if is_waiting then snapshot p c ∷ snapshot p d ∷ [] else snapshot p d ∷ [],
            log_tunnel d,
          ))
      else (before, c)

  unfoldable pub notify_states : List VpnSnapshot → Backend → Backend
  notify_states [] b = b
  notify_states (s ∷ ss) b = notify_states ss (emit (notify (state_event s none)) b)

  unfoldable pub on_connected : Backend → Backend
  on_connected b = let (shown, c) = mark_connected b in notify_states shown c

  unfoldable pub handle_hint : OutputHint → Bool → Backend → Backend
  handle_hint OutputHint.gateway_connected ipsec b =
      note_hint OutputHint.gateway_connected
        (record b { logged = record (b.logged) { gateway_connected = true } })
      ▷ app_log_unless b.logged.gateway_connected "Connected to gateway."
  handle_hint OutputHint.ike_sa_init ipsec b =
      record b { logged = record (b.logged) { ike_sa_init = true } }
      ▷ app_log_unless b.logged.ike_sa_init "IKE_SA_INIT started."
  handle_hint OutputHint.ike_established ipsec b =
      note_hint OutputHint.ike_established
        (record b { logged = record (b.logged) { ike_established = true } })
      ▷ app_log_unless b.logged.ike_established "IKE established."
  handle_hint OutputHint.eap_in_progress ipsec b =
      record b { logged = record (b.logged) { eap_progress = true } }
      ▷ app_log_unless b.logged.eap_progress "EAP authentication in progress."
  handle_hint OutputHint.tunnel_connected ipsec b =
      let (shown, c) = mark_connected (child_sa_seen ipsec b) in
      c
      ▷ app_log_unless (not ipsec || b.logged.child_sa) "CHILD_SA established."
      ▷ notify_states shown
  handle_hint hint ipsec b = note_hint hint b

  unfoldable pub handle_log_line : String → Backend → Backend
  handle_log_line line b =
      let text = p.redact_log_line line in
      if p.is_benign_charon_noise text
      then b
      else (let ipsec = profile_is is_ipsec b.profile in
          emit (log (if ipsec then "ipsec" else "openfortivpn") none text) b
          ▷ handle_hint (p.classify_output text) ipsec)

  -- A session under way waits for the decision.
  unfoldable pub interrupt : Backend → Backend
  interrupt b =
      if among b.state awaits_gateway then transition waiting_for_certificate_trust b else b

  -- What a certificate that was not reported yet leads to, once the session waits.
  unfoldable pub report_certificate : CertificateInfo → Backend → Backend
  report_certificate info waiting =
      let shown = snapshot p waiting in
      let failure = certificate_error (pinned_of waiting) (some info) in
      record (set_error failure.0 failure.1 waiting) {
        logged = record (waiting.logged) { cert_error_emitted = true };
      }
      ▷ vpn_log_at error "Gateway certificate requires explicit trust."
      ▷ app_log "Waiting for certificate trust decision."
      ▷ app_log ("Certificate fingerprint: " <> p.format_sha256_fingerprint info.sha256)
      ▷ emit_if (pin_differs (pinned_of waiting) info.sha256)
          (log "vpn" (some warning) "The gateway certificate has changed.")
      ▷ emit (notify (state_event shown (some info)))
      ▷ emit_if (not waiting.logged.cert_error_emitted)
          (notify (error_event shown failure.0 failure.1 (some info)))

  unfoldable pub handle_certificate : CertificateInfo → Backend → Backend
  handle_certificate info b =
      if seen_before b.logged.cert_sha info.sha256
      then note_certificate info b
      else first_report info b ▷ interrupt ▷ report_certificate info
