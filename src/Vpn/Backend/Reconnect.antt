-- ===== src/Vpn/Backend/Reconnect.antt =====
-- `reconnect` on request, and the switch of the automatic one (vpn/backend.py).
use fortigate_vpn_linux_gui.Prelude.{
  Bool, true, false, not, ◌&&◌, ◌||◌, ◌<>◌, Option, none, some, List, [], ◌∷◌, ◌▷◌, if◌then◌else◌,
}
use fortigate_vpn_linux_gui.Profiles.Model.{ConnectionProfile}
use fortigate_vpn_linux_gui.Vpn.State.{
  ConnectionState, starting, connecting, connected, disconnecting, waiting_for_auth,
  waiting_for_certificate_trust, closing, is, among, connectable_states, state_value,
}
use fortigate_vpn_linux_gui.Vpn.Backend.Errors.{invalid_profile, invalid_profile_message}
use fortigate_vpn_linux_gui.Vpn.Backend.Types.{debug, error, Backend, Ports}
use fortigate_vpn_linux_gui.Vpn.Backend.Core.{
  vpn_log_at, app_log, app_log_unless, notify_state, cancel_reconnect, clear_manual_reconnect,
  fail_without_process,
}
use fortigate_vpn_linux_gui.Vpn.Backend.Connect.{connect}
use fortigate_vpn_linux_gui.Vpn.Backend.Stop.{disconnect}

unfoldable pub set_auto_reconnect : Bool → Backend → Backend
set_auto_reconnect enabled b =
    let c = record b { retry = record (b.retry) { auto_enabled = enabled } } in
    if enabled
    then c
    else (let d = cancel_reconnect c in
        app_log_unless (not b.retry.pending) "Automatic reconnect cancelled." d)

-- `profile or self._last_profile`
abbrev pub profile_or_last : Option ConnectionProfile → Backend → Option ConnectionProfile
profile_or_last none b = b.last_profile
profile_or_last (some q) b = some q

abbrev pub session_states : List ConnectionState
session_states =
    starting ∷ connecting ∷ waiting_for_auth ∷ waiting_for_certificate_trust ∷ connected ∷ []

-- A reconnect that is under way already.
abbrev is_reconnecting : Backend → Bool
is_reconnecting b =
    b.retry.manual
    || (b.retry.was
        && among b.state (starting ∷ connecting ∷ waiting_for_auth ∷ disconnecting ∷ []))

module _ (p : Ports) where
  -- The end of a reconnect whose `connect` did not start a session.
  unfoldable pub reconnect_failed : Backend → Backend
  reconnect_failed b =
      let c = clear_manual_reconnect b in
      record c { retry = record (c.retry) { was = false } }
      ▷ notify_state p
      ▷ vpn_log_at error "Reconnect failed to start a new VPN session."

  unfoldable pub begin_reconnect : Bool → ConnectionProfile → Backend → Backend
  begin_reconnect previous_stopped q b =
      let told = app_log_unless (not previous_stopped) "Previous VPN session stopped." b in
      let c = app_log "Starting VPN reconnection." told in
      let d = record c {
        retry = record (c.retry) { manual = false; was = true; skip_start_log = true };
      } in
      let e = connect p (some q) false none d in
      if among e.state session_states then e else reconnect_failed e

  unfoldable pub start_pending_reconnect : Bool → Backend → Backend
  start_pending_reconnect previous_stopped b =
      if b.closing.shutting_down || not b.retry.manual
      then b
      else if b.running
      then vpn_log_at debug "Reconnect is waiting for the previous VPN session to stop." b
      else elim (profile_or_last b.retry.manual_profile b) [
        | none ↦
            clear_manual_reconnect b
            ▷ notify_state p
            ▷ vpn_log_at error "Reconnect failed: no profile is selected."
        | some q ↦
            if not (among b.state connectable_states)
            then vpn_log_at debug
                ("Reconnect deferred until idle; state is " <> state_value b.state <> ".") b
            else begin_reconnect previous_stopped q b
      ]

  -- Once `disconnect` has returned.
  unfoldable pub after_stop : Backend → Backend
  after_stop b =
      if b.running
      then vpn_log_at debug "Waiting for previous VPN session to stop." b
      else vpn_log_at debug "Previous session already stopped after disconnect." b
        ▷ start_pending_reconnect true

  unfoldable pub stop_then_reconnect : Backend → Backend
  stop_then_reconnect b =
      b
      ▷ app_log "Disconnecting current VPN session for reconnect."
      ▷ disconnect p false true
      ▷ after_stop

  -- The target and the flags of a reconnect on request.
  unfoldable pub request_reconnect : ConnectionProfile → Backend → Backend
  request_reconnect target b =
      let c = cancel_reconnect b in
      record c {
        retry = record (c.retry) { manual = true; manual_profile = some target; was = true };
      }
      ▷ notify_state p
      ▷ app_log "Reconnect requested."

  unfoldable pub restart : Bool → Backend → Backend
  restart needs_stop b =
      if needs_stop then stop_then_reconnect b else start_pending_reconnect false b

  unfoldable pub reconnect_to : ConnectionProfile → Backend → Backend
  reconnect_to target b =
      if b.closing.shutting_down || is closing b.state
      then vpn_log_at debug "Ignoring reconnect; application is closing." b
      else if is_reconnecting b
      then vpn_log_at debug "Ignoring repeated reconnect; reconnection is already in progress." b
      else restart (b.running || among b.state (disconnecting ∷ session_states))
          (request_reconnect target b)

  unfoldable pub reconnect : Option ConnectionProfile → Backend → Backend
  reconnect profile b = elim (profile_or_last profile b) [
    | none ↦ fail_without_process p invalid_profile invalid_profile_message b
    | some target ↦ reconnect_to target b
  ]
