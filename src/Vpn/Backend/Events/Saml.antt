-- ===== src/Vpn/Backend/Events/Saml.antt =====
-- The events of a sign-in: the wait, its time limit, the browser, its success and the errors of the
-- helper (vpn/backend.py).
use fortigate_vpn_linux_gui.Prelude.{
  String, Bool, true, false, ◌<>◌, Option, none, some, str_eq, ◌▷◌, if◌then◌else◌,
}
use fortigate_vpn_linux_gui.Vpn.State.{starting, connecting, waiting_for_auth, is}
use fortigate_vpn_linux_gui.Vpn.Backend.Errors
use fortigate_vpn_linux_gui.Vpn.Backend.Errors.{
  VpnErrorCode, OutputHint, Message, plain, code_map, HelperCode,
}
use fortigate_vpn_linux_gui.Vpn.Backend.Types.{
  debug, error, opening, opened, browser_failed, saml_timer, schedule, open_browser, Backend, Ports,
}
use fortigate_vpn_linux_gui.Vpn.Backend.Core.{
  emit, vpn_log, vpn_log_at, app_log, app_log_unless, notify_state, transition, cancel_timeout,
  fail_saml_session,
}

-- A text or its default, as `text or default`.
abbrev text_or : Option String → Message → Message
text_or none d = d
text_or (some t) d = if str_eq t "" then d else plain t

abbrev is_invalid_auth_url : VpnErrorCode → Bool
is_invalid_auth_url Errors.invalid_auth_url = true
is_invalid_auth_url _ = false

module _ (p : Ports) where
  -- `_arm_saml_timeout`
  abbrev arm_saml_timeout : Backend → Backend
  arm_saml_timeout b = record (cancel_timeout b) { saml_timer = true } ▷ emit (schedule saml_timer)

  abbrev log_waiting : String → Backend → Backend
  log_waiting text b =
      app_log_unless b.logged.saml_waiting text
        (record b { logged = record (b.logged) { saml_waiting = true } })

  unfoldable pub enter_waiting_for_auth : Backend → Backend
  enter_waiting_for_auth b =
      if is starting b.state
      then transition waiting_for_auth b
        ▷ log_waiting "Waiting for authentication."
        ▷ notify_state p
        ▷ arm_saml_timeout
      else b

  unfoldable pub handle_saml_success : Backend → Backend
  handle_saml_success b =
      let c = cancel_timeout b in
      if is waiting_for_auth c.state
      then transition connecting c ▷ app_log "Authentication succeeded." ▷ notify_state p
      else c

  unfoldable pub handle_helper_error : Option HelperCode → Option String → Backend → Backend
  handle_helper_error code message b =
      let mapped : VpnErrorCode = elim code [
        | none ↦ Errors.vpn_process_failed
        | some c ↦ code_map c
      ] in
      fail_saml_session p mapped
        (if is_invalid_auth_url mapped
          then Message.invalid_url_message
          else text_or message Message.exit_message)
        b

  -- The lines and the event before the browser is started.
  unfoldable pub open_sign_in : String → Backend → Backend
  open_sign_in validated b =
      let safe = p.safe_url_for_display validated in
      let d = record b { safe_auth_url = some safe; browser_status = opening } in
      (if is starting d.state then transition waiting_for_auth d else d)
      ▷ notify_state p
      ▷ log_waiting "Waiting for authentication."
      ▷ arm_saml_timeout
      ▷ app_log "Opening browser for SAML sign-in."
      ▷ vpn_log_at debug ("Opening system browser for SAML sign-in at " <> safe <> ".")
      ▷ emit (open_browser validated)

  unfoldable pub browser_answered : Option String → Backend → Backend
  browser_answered (some text) b =
      record (vpn_log_at error text b) { browser_status = browser_failed }
      ▷ fail_saml_session p Errors.browser_failed (plain text)
  browser_answered none b = record b { browser_status = opened } ▷ notify_state p

  unfoldable pub open_validated : Option String → Backend → Backend
  open_validated none b =
      vpn_log_at error "Rejected unsafe SAML sign-in URL." b
      ▷ fail_saml_session p Errors.invalid_auth_url Message.invalid_url_message
  open_validated (some validated) b =
      let asked = open_sign_in validated b in browser_answered (p.browser_error asked.out) asked

  unfoldable pub maybe_open_browser : String → Backend → Backend
  maybe_open_browser raw_url b =
      if b.browser_opened
      then vpn_log "Ignoring repeated SAML sign-in URL." b
      else open_validated (p.validate_auth_url raw_url) (record b { browser_opened = true })

  unfoldable pub on_saml_timeout : Backend → Backend
  on_saml_timeout b =
      if is waiting_for_auth b.state
      then vpn_log_at error "SAML authentication timed out." b
        ▷ fail_saml_session p Errors.saml_timeout Message.timeout_message
      else b
