-- ===== src/Vpn/Backend/SignIn.antt =====
-- The unprivileged IPsec sign-in: what its worker thread does with the state when it waits for the
-- browser and when it ends (vpn/backend.py).
use fortigate_vpn_linux_gui.Prelude.{
  ℕ, String, Bool, true, false, not, ◌||◌, ◌==◌, ◌<>◌, Option, none, some, [], ◌∷◌, any, ◌▷◌,
  if◌then◌else◌,
}
use fortigate_vpn_linux_gui.Profiles.Model.{ConnectionProfile}
use fortigate_vpn_linux_gui.Vpn.State.{starting, connecting, waiting_for_auth, is, among}
use fortigate_vpn_linux_gui.Vpn.Backend.Errors
use fortigate_vpn_linux_gui.Vpn.Backend.Errors.{
  no_hint, Message, plain, helper_error_to_vpn, VpnErrorCode,
}
use fortigate_vpn_linux_gui.Vpn.Backend.Types.{
  debug, error, opened, ConnectRequest, Credentials, HelperError, accepted, rejected, SamlOutcome,
  signed_in, http_unknown, http_rejected, start_url_error, bootstrap_error, connect_error,
  listener_timed_out, listener_cancelled, listener_malformed, browser_launch_error, tls_error,
  unsafe_url, start_helper, Backend, Ports, RequestResult,
}
use fortigate_vpn_linux_gui.Vpn.Backend.Core.{
  emit, vpn_log, vpn_log_at, app_log, app_log_unless, notify_state, transition, fail_and_clear,
}
use fortigate_vpn_linux_gui.Vpn.Backend.Connect.{start_failed}
use fortigate_vpn_linux_gui.Vpn.Backend.Session.{is_blank, target_text, connect_request}

-- `cancel_event.is_set() or self._user_disconnect`, in the worker of an attempt.
abbrev pub is_cancelled : ℕ → Backend → Bool
is_cancelled attempt b = any (λ event. event == attempt) b.set_events || b.user_disconnect

module _ (p : Ports) where
  unfoldable pub on_ipsec_saml_waiting : String → Backend → Backend
  on_ipsec_saml_waiting safe_url b =
      let c = record b {
        safe_auth_url = some safe_url;
        browser_status = opened;
        browser_opened = true;
      } in
      if is starting c.state
      then (let d = transition waiting_for_auth c in
          app_log_unless d.logged.saml_waiting "Waiting for browser authentication."
            (record d { logged = record (d.logged) { saml_waiting = true } })
          ▷ notify_state p)
      else c

  unfoldable pub open_after_saml :
      ConnectionProfile → ConnectRequest → Credentials → Backend → Backend
  open_after_saml q request credentials b =
      record b {
        error_code = none;
        error_message = none;
        output_hint = no_hint;
        failing = false;
        ipsec_saml_active = false;
      }
      ▷ transition connecting
      ▷ notify_state p
      ▷ app_log "IPsec SAML pre-authentication completed."
      ▷ app_log "Starting private IKEv2 runtime."
      ▷ vpn_log_at debug ("Starting privileged IPsec for " <> target_text q <> ".")
      ▷ emit (start_helper request (some credentials))

  unfoldable pub settle_after_saml : Option HelperError → Backend → Backend
  settle_after_saml (some e) b = start_failed p e b
  settle_after_saml none b =
      record b { running = p.running_after_start b.out }
      ▷ app_log "Privileged helper authorized."
      ▷ app_log "IKEv2 authentication in progress."

  unfoldable pub continue_ipsec_after_saml :
      ConnectionProfile → ConnectRequest → Credentials → Backend → Backend
  continue_ipsec_after_saml q request credentials b =
      if b.user_disconnect || b.closing.shutting_down
      then b
      else if not (among b.state (waiting_for_auth ∷ starting ∷ []))
      then vpn_log "Ignoring IPsec start; session is not waiting for SSO." b
      else (let asked = open_after_saml q request credentials b in
          settle_after_saml (p.start_error asked.out) asked)

  unfoldable pub request_after_saml :
      ConnectionProfile → Credentials → RequestResult → Backend → Backend
  request_after_saml q credentials (rejected e) b =
      vpn_log ("Rejected connect request: " <> e.message) b
      ▷ fail_and_clear p Errors.invalid_profile Message.invalid_profile_message
  request_after_saml q credentials (accepted request) b =
      continue_ipsec_after_saml q request credentials b

  -- The stored key is taken out of the object, whatever comes next.
  unfoldable pub start_ipsec_after_saml : ConnectionProfile → String → String → Backend → Backend
  start_ipsec_after_saml q uid tokenid b =
      let psk = b.ipsec_tunnel_psk in
      let c = record b { ipsec_tunnel_psk = "" } in
      if b.user_disconnect
      then c
      else if is_blank psk
      then fail_and_clear p Errors.ipsec_credentials_required Message.ipsec_sso_psk_message c
      else if is_blank uid || is_blank tokenid
      then fail_and_clear p Errors.saml_failed Message.ipsec_saml_callback_message c
      else request_after_saml q (record { psk = psk; username = uid; password = tokenid })
          (p.connect_request_from_fields (connect_request q)) c

  unfoldable pub fail_logged : String → VpnErrorCode → Message → Backend → Backend
  fail_logged text code message b = vpn_log_at error text b ▷ fail_and_clear p code message

  -- The handlers of `_run_ipsec_saml_preauth`, for a worker that was not cancelled.
  unfoldable pub handle_outcome : ConnectionProfile → SamlOutcome → Backend → Backend
  handle_outcome q (signed_in uid tokenid) = start_ipsec_after_saml q uid tokenid
  handle_outcome q (http_unknown text) =
      fail_logged text Errors.ipsec_saml_http_unknown Message.ipsec_saml_http_unknown_message
  handle_outcome q (connect_error text none) =
      fail_logged text Errors.ipsec_saml_connect_failed Message.ipsec_saml_connect_message
  handle_outcome q (connect_error text (some cause)) = λ b.
      vpn_log_at error text b
      ▷ fail_logged (p.redact_log_line ("IPsec SAML bootstrap transport failed: " <> cause))
          Errors.ipsec_saml_connect_failed Message.ipsec_saml_connect_message
  handle_outcome q (http_rejected text) =
      fail_logged text Errors.ipsec_saml_http_rejected (plain text)
  handle_outcome q (start_url_error text) =
      fail_logged text Errors.saml_failed Message.ipsec_saml_start_url_message
  handle_outcome q (listener_timed_out text) =
      fail_logged "IPsec SAML sign-in timed out." Errors.saml_timeout
        Message.ipsec_saml_timeout_message
  handle_outcome q (listener_cancelled text) = λ b. b
  handle_outcome q (listener_malformed text) =
      fail_logged text Errors.saml_failed Message.ipsec_saml_callback_message
  handle_outcome q (browser_launch_error text) = fail_logged text Errors.browser_failed (plain text)
  handle_outcome q tls_error =
      fail_logged "Gateway certificate could not be validated." Errors.certificate_untrusted
        Message.cert_untrusted_message
  handle_outcome q (bootstrap_error text) =
      fail_logged text Errors.saml_failed Message.saml_auth_message
  handle_outcome q unsafe_url = fail_and_clear p Errors.invalid_auth_url Message.invalid_url_message

  -- The worker of an attempt for this profile ends.
  unfoldable pub finish_sign_in : ConnectionProfile → ℕ → SamlOutcome → Backend → Backend
  finish_sign_in q attempt outcome b =
      if is_cancelled attempt b then b else handle_outcome q outcome b
