-- ===== src/Vpn/Backend/Connect.antt =====
-- `connect`, the start of a session and the start of an IPsec sign-in (vpn/backend.py).
use fortigate_vpn_linux_gui.Prelude.{
  String, Bool, true, false, not, ◌&&◌, ◌||◌, ◌+◌, ◌<>◌, Option, none, some, ◌▷◌, if◌then◌else◌,
}
use fortigate_vpn_linux_gui.Profiles.Ipsec.{is_supported}
use fortigate_vpn_linux_gui.Profiles.Model.{ConnectionProfile, is_ipsec, is_ipsec_saml_preauth}
use fortigate_vpn_linux_gui.Vpn.State.{starting, connecting, closing, is, among, connectable_states}
use fortigate_vpn_linux_gui.Vpn.Backend.Errors.{
  invalid_profile, ipsec_unsupported, ipsec_credentials_required, invalid_profile_message,
  ipsec_unsupported_message, ipsec_credentials_message, ipsec_sso_psk_message, helper_error_to_vpn,
}
use fortigate_vpn_linux_gui.Vpn.Backend.Types.{
  debug, error, ConnectRequest, Credentials, HelperError, OpenfortivpnCapabilities, idle,
  not_required, start_helper, start_saml_worker, RequestResult, accepted, rejected, Backend, Ports,
}
use fortigate_vpn_linux_gui.Vpn.Backend.Core.{
  emit, vpn_log, vpn_log_at, app_log, app_log_unless, notify_state, transition, wait_helper_idle,
  fail_without_process, fail_and_clear,
}
use fortigate_vpn_linux_gui.Vpn.Backend.Session.{
  may_start, psk_of, is_blank, lacks_secret, needed_capabilities, fresh_session, target_text,
  connect_request, probe_helper, resolve_executable,
}

-- `profile.ipsec` is present and can be started.
abbrev has_supported_settings : ConnectionProfile → Bool
has_supported_settings q = elim q.ipsec [ none ↦ false | some s ↦ is_supported s ]

-- The lines of `_begin_session` before the helper is called.
abbrev announce_session : Bool → ConnectionProfile → Backend → Backend
announce_session after_trust q b =
    let retried =
      b
      ▷ app_log_unless (not after_trust) ("Certificate trusted for profile \"" <> q.name <> "\".")
      ▷ app_log_unless (not after_trust) "Retrying VPN connection." in
    record retried { retry = record (retried.retry) { skip_start_log = false } }
    ▷ app_log_unless b.retry.skip_start_log "Starting connection."
    ▷ vpn_log_at debug (
        if is_ipsec q
        then "Starting privileged IPsec for " <> target_text q <> "."
        else "Starting privileged openfortivpn for "
          <> target_text q
          <> " mode="
          <> (if q.use_sso then "SAML/SSO" else "standard")
          <> ".")

module _ (p : Ports) where
  -- The fields of the new session, its first lines, and the call of the helper.
  unfoldable pub open_session :
      ConnectionProfile
      → Option OpenfortivpnCapabilities
      → ConnectRequest
      → Bool
      → Option Credentials
      → Backend
      → Backend
  open_session q capabilities request after_trust credentials b =
      record (fresh_session q b) {
        retry_count = if after_trust then b.retry_count + 1 else 0;
        capabilities = capabilities;
        use_sso = q.use_sso;
        browser_status = if q.use_sso then idle else not_required;
      }
      ▷ transition starting
      ▷ notify_state p
      ▷ announce_session after_trust q
      ▷ emit (start_helper request credentials)

  -- The helper took the request. Without a sign-in the tunnel is being set up at once.
  unfoldable pub session_authorized : ConnectionProfile → Backend → Backend
  session_authorized q b =
      let c =
        record b { running = p.running_after_start b.out }
        ▷ app_log "Privileged helper authorized." in
      (if not q.use_sso && is starting c.state then transition connecting c else c) ▷ notify_state p

  -- The helper raised an error.
  unfoldable pub start_failed : HelperError → Backend → Backend
  start_failed e b =
      let failure = helper_error_to_vpn e.code e.message in
      vpn_log_at error e.message b ▷ fail_and_clear p failure.0 failure.1

  unfoldable pub settle_session : ConnectionProfile → Option HelperError → Backend → Backend
  settle_session q (some e) b = start_failed e b
  settle_session q none b = session_authorized q b

  unfoldable pub begin_session :
      ConnectionProfile
      → Option OpenfortivpnCapabilities
      → ConnectRequest
      → Bool
      → Option Credentials
      → Backend
      → Backend
  begin_session q capabilities request after_trust credentials b =
      if not (may_start after_trust b.state)
      then vpn_log "Ignoring connect after cleanup; session is busy." b
      else (let asked = open_session q capabilities request after_trust credentials b in
          settle_session q (p.start_error asked.out) asked)

  unfoldable pub begin_ipsec_saml_preauth : ConnectionProfile → String → Backend → Backend
  begin_ipsec_saml_preauth q tunnel_psk b =
      if b.closing.shutting_down || is closing b.state
      then vpn_log "Ignoring connect; application is closing." b
      else if not (among b.state connectable_states)
      then vpn_log "Ignoring repeated connect; session is busy." b
      else record (fresh_session q b) {
        retry_count = 0;
        capabilities = none;
        use_sso = true;
        browser_status = idle;
        ipsec_tunnel_psk = tunnel_psk;
        ipsec_saml_active = true;
        ipsec_saml_cancel = some (b.attempt_id + 1);
      }
        ▷ transition starting
        ▷ notify_state p
        ▷ app_log "Starting connection."
        ▷ app_log "Starting IPsec SAML pre-authentication."
        ▷ vpn_log_at debug ("Starting IPsec SAML pre-auth for " <> target_text q <> ".")
        ▷ emit (start_saml_worker q)

  unfoldable pub start_request :
      ConnectionProfile
      → Option OpenfortivpnCapabilities
      → Bool
      → Option Credentials
      → RequestResult
      → Backend
      → Backend
  start_request q capabilities after_trust credentials (rejected e) b =
      b
      ▷ vpn_log ("Rejected connect request: " <> e.message)
      ▷ fail_without_process p invalid_profile invalid_profile_message
  start_request q capabilities after_trust credentials (accepted request) b =
      begin_session q capabilities request after_trust credentials b

  -- The end of `connect`, once there is an executable or there are credentials.
  unfoldable pub start_validated :
      ConnectionProfile
      → Option OpenfortivpnCapabilities
      → Bool
      → Option Credentials
      → Backend
      → Backend
  start_validated q capabilities after_trust credentials b =
      let (is_ready, c) = probe_helper p (needed_capabilities q) b in
      if is_ready
      then start_request q capabilities after_trust credentials
          (p.connect_request_from_fields (connect_request q)) c
      else c

  -- An SSL session needs an executable.
  unfoldable pub connect_resolved :
      ConnectionProfile → Bool → Option OpenfortivpnCapabilities → Backend → Backend
  connect_resolved q after_trust none b = b
  connect_resolved q after_trust (some capabilities) b =
      start_validated q (some capabilities) after_trust none b

  unfoldable pub connect_ssl : ConnectionProfile → Bool → Backend → Backend
  connect_ssl q after_trust b =
      let (found, c) = resolve_executable p q b in connect_resolved q after_trust found c

  unfoldable pub connect_sso : ConnectionProfile → Option Credentials → Backend → Backend
  connect_sso q credentials b =
      if is_blank (psk_of credentials)
      then fail_without_process p ipsec_credentials_required ipsec_sso_psk_message b
      else (let (is_ready, c) = probe_helper p (needed_capabilities q) b in
          if is_ready then begin_ipsec_saml_preauth q (psk_of credentials) c else c)

  unfoldable pub connect_ipsec : ConnectionProfile → Bool → Option Credentials → Backend → Backend
  connect_ipsec q after_trust credentials b =
      if not (has_supported_settings q)
      then fail_without_process p ipsec_unsupported ipsec_unsupported_message b
      else if lacks_secret credentials
      then fail_without_process p ipsec_credentials_required ipsec_credentials_message b
      else start_validated q none after_trust credentials b

  unfoldable pub connect_idle : ConnectionProfile → Bool → Option Credentials → Backend → Backend
  connect_idle q after_trust credentials b =
      if is_ipsec q && is_ipsec_saml_preauth q
      then connect_sso q credentials b
      else if is_ipsec q
      then connect_ipsec q after_trust credentials b
      else connect_ssl q after_trust b

  unfoldable pub connect : Option ConnectionProfile → Bool → Option Credentials → Backend → Backend
  connect none after_trust credentials b =
      fail_without_process p invalid_profile invalid_profile_message b
  connect (some q) after_trust credentials b =
      if b.closing.shutting_down || is closing b.state
      then vpn_log "Ignoring connect; application is closing." b
      else if not (may_start after_trust b.state)
      then vpn_log "Ignoring repeated connect; session is busy." b
      else connect_idle q after_trust credentials (wait_helper_idle p b)
