-- ===== src/Vpn/Backend/Stop.antt =====
-- `disconnect` (vpn/backend.py).
use fortigate_vpn_linux_gui.Prelude.{
  Bool, true, false, not, ◌&&◌, none, some, [], ◌∷◌, is_some, ◌▷◌, if◌then◌else◌,
}
use fortigate_vpn_linux_gui.Vpn.State.{
  disconnected, starting, connected, disconnecting, failed, waiting_for_auth,
  waiting_for_certificate_trust, closing, is, among,
}
use fortigate_vpn_linux_gui.Vpn.Backend.Errors.{
  VpnErrorCode, invalid_profile, certificate_untrusted, invalid_profile_message,
  cert_untrusted_message, connection_lost_message,
}
use fortigate_vpn_linux_gui.Vpn.Backend.Errors
use fortigate_vpn_linux_gui.Vpn.Backend.Types.{
  debug, DisconnectReason, user_disconnect, connection_lost, certificate_trust_cancelled, Backend,
  Ports,
}
use fortigate_vpn_linux_gui.Vpn.Backend.Core.{
  vpn_log_at, app_log_unless, notify_state, transition, cancel_timeout, cancel_reconnect,
  clear_manual_reconnect, helper_disconnect,
}

-- The block of `disconnect` that holds the lock decides whether subscribers are told and whether
-- the helper is asked to stop.
pub record Stopped : Type 0 where
  pub backend : Backend
  pub told : Bool
  pub running : Bool

abbrev stopped : Bool → Bool → Backend → Stopped
stopped told running b = record { backend = b; told = told; running = running }

abbrev with_reason : DisconnectReason → Backend → Backend
with_reason reason b = record b { last_disconnect_reason = some reason }

abbrev trust_cancelled : Backend → Backend
trust_cancelled b =
    let c = with_reason certificate_trust_cancelled b in
    if is_some c.error_code then c else record c {
      error_code = some certificate_untrusted;
      error_message = some cert_untrusted_message;
    }

abbrev lose_connection : Backend → Backend
lose_connection b = record (with_reason connection_lost b) {
  error_code = some Errors.connection_lost;
  error_message = some connection_lost_message;
  last_failure_reason = some Errors.connection_lost;
}

-- The end of a sign-in whose helper has not started.
abbrev leave_sign_in : Backend → Backend
leave_sign_in b =
    let c =
      if among b.state (starting ∷ waiting_for_auth ∷ []) then transition disconnecting b else b in
    let d =
      if is disconnecting c.state
      then transition disconnected c
      else if is failed c.state
      then transition disconnected c
      else c in
    record d { ipsec_saml_active = false }

unfoldable pub stop_locked : Backend → Stopped
stop_locked b =
    if is disconnected b.state
    then stopped false false b
    else if is closing b.state
    then stopped false b.running b
    else if is failed b.state
    then stopped true b.running (transition disconnected b)
    else if is waiting_for_certificate_trust b.state && not b.running
    then stopped true false (transition failed (trust_cancelled b))
    else if b.ipsec_saml_active && not b.running
    then stopped true false (leave_sign_in (with_reason user_disconnect b))
    else if not b.running
    then stopped true false (
        if is connected b.state
        then transition failed (lose_connection b)
        else transition disconnected (with_reason user_disconnect b))
    else stopped true true (transition disconnecting (with_reason user_disconnect b))

-- Set the cancel event of the sign-in worker, if there is one.
abbrev cancel_worker : Backend → Backend
cancel_worker b = elim b.ipsec_saml_cancel [
  | none ↦ b
  | some event ↦ record b { set_events = event ∷ b.set_events }
]

abbrev forget_reconnect : Backend → Backend
forget_reconnect b =
    app_log_unless (not b.retry.manual) "Reconnect cancelled." (clear_manual_reconnect b)

-- The first part of `disconnect`: timers and pending reconnects.
abbrev pub prepare_stop : Bool → Backend → Backend
prepare_stop for_reconnect b =
    let c = cancel_timeout b in
    let d =
      app_log_unless (not c.retry.pending) "Automatic reconnect cancelled." (cancel_reconnect c) in
    let e = cancel_worker d in
    let f = if for_reconnect then e else forget_reconnect e in record f { user_disconnect = true }

module _ (p : Ports) where
  abbrev ask_helper_to_stop : Bool → Bool → Backend → Backend
  ask_helper_to_stop wait for_reconnect b =
      (if for_reconnect
        then vpn_log_at debug "Helper disconnect started for reconnect." b
        else app_log_unless b.logged.disconnect "Disconnect requested."
            (record b { logged = record (b.logged) { disconnect = true } }))
      ▷ helper_disconnect p wait

  unfoldable pub disconnect : Bool → Bool → Backend → Backend
  disconnect wait for_reconnect b =
      let s = stop_locked (prepare_stop for_reconnect b) in
      let c = if s.told then notify_state p s.backend else s.backend in
      if not s.running then c else ask_helper_to_stop wait for_reconnect c
