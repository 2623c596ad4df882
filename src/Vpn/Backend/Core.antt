-- ===== src/Vpn/Backend/Core.antt =====
-- The steps that the methods share: log lines, snapshots, timers, state changes and failures.
use fortigate_vpn_linux_gui.Prelude.{
  String, Bool, true, false, not, ◌&&◌, ◌||◌, Option, none, some, List, [], ◌∷◌, str_eq, is_some,
  ◌▷◌, if◌then◌else◌,
}
use fortigate_vpn_linux_gui.Profiles.Model
use fortigate_vpn_linux_gui.Profiles.Model.{ConnectionProfile, is_ipsec}
use fortigate_vpn_linux_gui.Vpn.State.{
  ConnectionState, reconnecting, disconnected, failed, is, among, allows, wait_reason_for, closing,
  disconnecting, waiting_for_certificate_trust,
}
use fortigate_vpn_linux_gui.Vpn.Backend.Errors.{VpnErrorCode, Message}
use fortigate_vpn_linux_gui.Vpn.Backend.Types.{
  LogLevel, info, openfortivpn, ipsec, OpenfortivpnCapabilities, ProcessInfo, idle, VpnSnapshot,
  state_event, error_event, saml_timer, reconnect_timer, Effect, log, forced, notify, stop_helper,
  cancel, Backend, Ports,
}

abbrev pub emit : Effect → Backend → Backend
emit x b = record b { out = x ∷ b.out }

-- `self._log.append("vpn", text)`, and the same with a severity.
abbrev pub vpn_log : String → Backend → Backend
vpn_log text = emit (log "vpn" none text)

abbrev pub vpn_log_at : LogLevel → String → Backend → Backend
vpn_log_at level text = emit (log "vpn" (some level) text)

abbrev pub app_log : String → Backend → Backend
app_log = vpn_log_at info

-- A condition on what is added to the trace alone: every other field stays as it is.
abbrev pub emit_if : Bool → Effect → Backend → Backend
emit_if condition x b = record b { out = if condition then x ∷ b.out else b.out }

-- `if not flag: self._app_log(text)`, on the flag's old value.
abbrev pub app_log_unless : Bool → String → Backend → Backend
app_log_unless done text = emit_if (not done) (log "vpn" (some info) text)

first : List String → Option String
first [] = none
first (x ∷ xs) = some x

is_empty : List String → Bool
is_empty [] = true
is_empty (x ∷ xs) = false

-- The profile of the session, or else the last one.
abbrev shown_profile : Backend → Option ConnectionProfile
shown_profile b = elim b.profile [ none ↦ b.last_profile | some q ↦ some q ]

abbrev profile_auth_mode : ConnectionProfile → String
profile_auth_mode q =
    if is_ipsec q then Model.auth_label q else if q.use_sso then "SAML/SSO" else "non-SSO"

-- A field of an optional value.
abbrev field : {A B : Type 0} → (A → Option B) → Option A → Option B
field f none = none
field f (some a) = f a

abbrev pub or_else : {A : Type 0} → Option A → Option A → Option A
or_else none d = d
or_else (some a) d = some a

abbrev is_pinned : ConnectionProfile → Bool
is_pinned q = elim q.trusted_cert_sha256 [ none ↦ false | some t ↦ not (str_eq t "") ]

abbrev probed : OpenfortivpnCapabilities → Option OpenfortivpnCapabilities
probed c = if c.from_locator then none else some c

module _ (p : Ports) where
  unfoldable pub process_info : Backend → Option ProcessInfo
  unfolding first is_empty
  process_info b =
      let pid = p.pid b.out in
      let held = p.argv b.out in
      let argv = if is_empty held then b.argv else held in
      if not (is_some pid) && is_empty argv && not b.running
      then none
      else some (record { pid = pid; executable = first argv; argv = argv })

  unfoldable pub snapshot : Backend → VpnSnapshot
  unfolding process_info Model.auth_label
  snapshot b =
      let process = process_info b in
      let shown = shown_profile b in
      let measured = field probed b.capabilities in
      record {
        state = b.state;
        profile_id = field (λ q. some q.id) shown;
        profile_name = field (λ q. some q.name) shown;
        error_code = b.error_code;
        error_message = b.error_message;
        process = process;
        auth_mode = elim shown [
          | none ↦ if b.use_sso then some "SAML/SSO" else none
          | some q ↦ some (profile_auth_mode q)
        ];
        browser_status = b.browser_status;
        safe_auth_url = b.safe_auth_url;
        selected_executable = elim b.capabilities [
          | none ↦ field (λ i. i.executable) process
          | some c ↦ some c.executable_path
        ];
        openfortivpn_version = field (λ c. c.version) b.capabilities;
        supports_saml = field (λ c. some c.supports_saml) measured;
        supports_cookie_stdin = field (λ c. some c.supports_cookie_stdin) measured;
        use_sso = field (λ q. some q.use_sso) shown;
        vpn_backend = field (λ q. some (if is_ipsec q then ipsec else openfortivpn)) shown;
        failure_reason = b.error_code;
        helper_installed = field (λ h. some h.installed) b.helper_probe;
        helper_version = field (λ h. h.helper_version) b.helper_probe;
        helper_status = field (λ h. some h.status) b.helper_probe;
        privileged_pid = p.pid b.out;
        certificate_pinned = field (λ q. some (is_pinned q)) shown;
        certificate_fingerprint = field (λ q. q.trusted_cert_sha256) shown;
        certificate_subject =
            or_else b.certificate_subject (field (λ c. some c.subject) b.presented_certificate);
        certificate_issuer =
            or_else b.certificate_issuer (field (λ c. some c.issuer) b.presented_certificate);
        presented_certificate = b.presented_certificate;
        helper_probe = b.helper_probe;
        wait_reason =
            if b.retry.pending || b.retry.manual then reconnecting else wait_reason_for b.state;
        attempt_id = b.attempt_id;
        retry_count = b.retry_count;
        last_disconnect_reason = b.last_disconnect_reason;
        last_failure_reason = or_else b.last_failure_reason b.error_code;
        shutdown_in_progress = b.closing.shutting_down;
        auto_reconnect_enabled = b.retry.auto_enabled;
        reconnect_pending = b.retry.pending;
        reconnect_attempt = b.retry.attempt;
        reconnect_limit = b.retry.max_attempts;
        manual_reconnect = b.retry.manual;
      }

  -- `self._notify(VpnEvent("state", snapshot))`
  abbrev pub notify_state : Backend → Backend
  notify_state b = emit (notify (state_event (snapshot b) none)) b

-- The session ends here: another state than before, and the idle one.
abbrev ends_session : ConnectionState → Backend → Bool
ends_session new b = not (is new b.state) && is new disconnected

-- `_transition`, field by field. Nothing changes at the state that is set already; another state
-- is entered even if the table does not allow it, and the idle one clears the session.
unfoldable pub transition : ConnectionState → Backend → Backend
transition new b =
    let ends = ends_session new b in
    record b {
      state = new;
      profile = if ends then none else b.profile;
      use_sso = if ends then false else b.use_sso;
      capabilities = if ends then none else b.capabilities;
      browser_status = if ends then idle else b.browser_status;
      safe_auth_url = if ends then none else b.safe_auth_url;
      browser_opened = if ends then false else b.browser_opened;
      presented_certificate = if ends then none else b.presented_certificate;
      certificate_subject = if ends then none else b.certificate_subject;
      certificate_issuer = if ends then none else b.certificate_issuer;
      ipsec_saml_active = if ends then false else b.ipsec_saml_active;
      ipsec_tunnel_psk = if ends then "" else b.ipsec_tunnel_psk;
      ipsec_saml_cancel = if ends then none else b.ipsec_saml_cancel;
      out =
          if not (is new b.state) && not (allows b.state new)
          then forced b.state new ∷ b.out
          else b.out;
    }

abbrev pub cancel_timeout : Backend → Backend
cancel_timeout b = emit_if b.saml_timer (cancel saml_timer) (record b { saml_timer = false })

abbrev pub cancel_reconnect : Backend → Backend
cancel_reconnect b =
    emit_if b.retry.timer (cancel reconnect_timer)
      (record b { retry = record (b.retry) { timer = false; pending = false } })

abbrev pub clear_manual_reconnect : Backend → Backend
clear_manual_reconnect b = record b {
  retry = record (b.retry) { manual = false; manual_profile = none };
}

-- `self._error_code, self._error_message, self._last_failure_reason = ...`
abbrev pub set_error : VpnErrorCode → Message → Backend → Backend
set_error code message b = record b {
  error_code = some code;
  error_message = some message;
  last_failure_reason = some code;
}

-- A session that is over, ends or waits for a decision on a certificate is left alone.
abbrev pub ignores_failure : List ConnectionState
ignores_failure = disconnected ∷ disconnecting ∷ waiting_for_certificate_trust ∷ closing ∷ []

module _ (p : Ports) where
  -- `self._helper.disconnect(wait=wait)`
  abbrev pub helper_disconnect : Bool → Backend → Backend
  helper_disconnect wait b =
      let asked = emit (stop_helper wait) b in
      record asked { running = p.running_after_stop asked.out }

  abbrev pub wait_helper_idle : Backend → Backend
  wait_helper_idle b = if not b.running then b else helper_disconnect true b

  unfoldable pub fail_without_process : VpnErrorCode → Message → Backend → Backend
  fail_without_process code message b =
      let c = set_error code message b in
      emit (notify (error_event (snapshot p c) code message none)) c

  unfoldable pub fail_and_clear : VpnErrorCode → Message → Backend → Backend
  fail_and_clear code message b =
      let c = set_error code message (record (cancel_timeout b) { argv = [] }) in
      let down = transition failed c in
      let idle_again = transition disconnected down in
      idle_again
      ▷ emit (notify (state_event (snapshot p down) none))
      ▷ emit (notify (error_event (snapshot p down) code message none))
      ▷ emit (notify (state_event (snapshot p idle_again) none))

  unfoldable pub fail_saml_session : VpnErrorCode → Message → Backend → Backend
  fail_saml_session code message b =
      let c = cancel_timeout b in
      if c.failing || among c.state ignores_failure
      then c
      else (let down = transition failed (set_error code message (record c { failing = true })) in
          let shown = snapshot p down in
          let told =
            down
            ▷ emit (notify (state_event shown shown.presented_certificate))
            ▷ emit (notify (error_event shown code message shown.presented_certificate)) in
          if down.running then helper_disconnect false told else told)
