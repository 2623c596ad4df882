-- ===== src/Vpn/Backend/Exit.antt =====
-- `_on_exit`: the process of the helper has ended (vpn/backend.py).
use fortigate_vpn_linux_gui.Prelude.{
  ℤ, String, Bool, true, false, not, ◌&&◌, ◌||◌, ◌<>◌, Option, none, some, [], is_some, decimal_ℤ,
  ◌▷◌, if◌then◌else◌,
}
use fortigate_vpn_linux_gui.Profiles.Model.{is_ipsec}
use fortigate_vpn_linux_gui.Vpn.State.{
  ConnectionState, disconnected, starting, connecting, connected, disconnecting, failed,
  waiting_for_auth, waiting_for_certificate_trust, closing,
}
use fortigate_vpn_linux_gui.Vpn.Backend.Errors
use fortigate_vpn_linux_gui.Vpn.Backend.Errors.{VpnErrorCode, Message, connection_lost_message}
use fortigate_vpn_linux_gui.Vpn.Backend.Types
use fortigate_vpn_linux_gui.Vpn.Backend.Types.{
  user_disconnect, error, state_event, error_event, log, notify, DisconnectReason, Backend, Ports,
}
use fortigate_vpn_linux_gui.Vpn.Backend.Core.{
  emit, emit_if, app_log_unless, snapshot, transition, cancel_timeout, set_error,
}
use fortigate_vpn_linux_gui.Vpn.Backend.Failure.{exit_error, profile_is}
use fortigate_vpn_linux_gui.Vpn.Backend.Events.{pinned_of}
use fortigate_vpn_linux_gui.Vpn.Backend.Retry.{maybe_schedule_reconnect}
use fortigate_vpn_linux_gui.Vpn.Backend.Reconnect.{start_pending_reconnect}
use fortigate_vpn_linux_gui.Vpn.Backend.Shutdown.{finish_shutdown}

-- What the block under the lock decides: the new fields, the error to report, and what follows.
pub record Exited : Type 0 where
  pub backend : Backend
  pub failure : Option (VpnErrorCode × Message)
  pub disconnected : Bool
  pub lost : Bool
  pub closing : Bool

abbrev ended : Backend → Exited
ended b = record {
  backend = b;
  failure = none;
  disconnected = false;
  lost = false;
  closing = false;
}

abbrev reason_or_user : Option DisconnectReason → Option DisconnectReason
reason_or_user none = some user_disconnect
reason_or_user (some r) = some r

-- The errors that leave the decision on a certificate to the user.
abbrev pub asks_for_trust : VpnErrorCode → Bool
asks_for_trust Errors.certificate_untrusted = true
asks_for_trust Errors.certificate_changed = true
asks_for_trust _ = false

-- The process ended before the tunnel was up.
unfoldable pub exit_early : ℤ → Backend → Exited
exit_early code b =
    let failure =
      exit_error b.profile b.output_hint code b.state b.presented_certificate (pinned_of b) in
    let c = set_error failure.0 failure.1 b in
    if asks_for_trust failure.0
    then (let d = transition waiting_for_certificate_trust c in
        if not b.logged.cert_error_emitted && is_some b.presented_certificate
        then record (ended
            (record d { logged = record (d.logged) { cert_error_emitted = true } })) {
              failure = some failure;
            }
        else ended d)
    else record (ended (transition failed c)) { failure = some failure }

unfoldable pub exit_connected : Backend → Exited
exit_connected b =
    let c = record (set_error Errors.connection_lost connection_lost_message b) {
      last_disconnect_reason = some Types.connection_lost;
    } in
    record (ended (transition failed c)) {
      failure = some (Errors.connection_lost, connection_lost_message);
      lost = not b.user_disconnect && not b.closing.shutting_down;
    }

unfoldable pub exit_stopped : Backend → Exited
exit_stopped b =
    let c = record b {
      error_code = none;
      error_message = none;
      last_disconnect_reason = reason_or_user b.last_disconnect_reason;
    } in
    record (ended (transition disconnected c)) { disconnected = true }

abbrev pub exit_from : ConnectionState → ℤ → Backend → Exited
exit_from disconnecting code b = exit_stopped b
exit_from closing code b = record (ended b) { closing = true }
exit_from connected code b = exit_connected b
exit_from starting code b = exit_early code b
exit_from connecting code b = exit_early code b
exit_from waiting_for_auth code b = exit_early code b
exit_from _ code b = ended b

unfoldable pub exit_locked : ℤ → Backend → Exited
exit_locked code b = exit_from b.state code (record b { argv = [] })

module _ (p : Ports) where
  -- The lines and events after the block.
  unfoldable pub report_exit : Exited → Backend
  report_exit e =
      let c =
        e.backend
        ▷ app_log_unless (not e.disconnected || e.backend.retry.manual) "VPN disconnected."
        ▷ app_log_unless (not e.disconnected || e.backend.retry.manual) "Cleanup completed."
        ▷ emit_if e.lost (log "vpn" (some error) "Connection lost.") in
      let shown = snapshot p c in
      let told = emit (notify (state_event shown shown.presented_certificate)) c in
      elim e.failure [
        | none ↦ told
        | some (code, message) ↦
            emit (notify (error_event shown code message shown.presented_certificate)) told
      ]

  -- What follows the report.
  unfoldable pub follow_exit : String → Exited → Backend → Backend
  follow_exit seconds e b =
      if e.closing
      then finish_shutdown p b
      else if e.lost
      then maybe_schedule_reconnect p seconds b
      else if e.disconnected
      then start_pending_reconnect p true b
      else b

  abbrev pub log_exit : ℤ → Backend → Backend
  log_exit code b =
      emit
        (log (if profile_is is_ipsec b.profile then "ipsec" else "openfortivpn") none
          ("Process exited with status " <> decimal_ℤ code <> "."))
        b

  unfoldable pub on_exit : String → ℤ → Backend → Backend
  on_exit seconds code b =
      let e = exit_locked code (log_exit code (cancel_timeout b)) in
      follow_exit seconds e (report_exit e)
