-- ===== src/Vpn/Backend/Retry.antt =====
-- The automatic reconnect after a lost tunnel (vpn/backend.py).
use fortigate_vpn_linux_gui.Prelude.{
  Bool, true, false, not, ◌&&◌, ◌||◌, ◌+◌, ◌<>◌, String, Option, none, some, leb, decimal, is_some,
  ◌▷◌, if◌then◌else◌,
}
use fortigate_vpn_linux_gui.Vpn.State.{failed, is}
use fortigate_vpn_linux_gui.Vpn.Backend.Errors.{VpnErrorCode, connection_lost}
use fortigate_vpn_linux_gui.Vpn.Backend.Types.{reconnect_timer, schedule, Backend, Ports}
use fortigate_vpn_linux_gui.Vpn.Backend.Core.{emit, app_log, notify_state}
use fortigate_vpn_linux_gui.Vpn.Backend.Connect.{connect}

abbrev is_connection_lost : Option VpnErrorCode → Bool
is_connection_lost (some connection_lost) = true
is_connection_lost _ = false

-- The conditions under which a lost session is started again.
unfoldable pub wants_reconnect : Backend → Bool
wants_reconnect b =
    not b.closing.shutting_down
    && not b.user_disconnect
    && b.retry.auto_enabled
    && is_some b.last_profile
    && not b.retry.pending
    && is failed b.state
    && is_connection_lost b.error_code

module _ (p : Ports) where
  -- `seconds` is the delay as the log shows it.
  unfoldable pub maybe_schedule_reconnect : String → Backend → Backend
  maybe_schedule_reconnect seconds b =
      if not (wants_reconnect b)
      then b
      else if leb b.retry.max_attempts b.retry.attempt
      then app_log
          ("Automatic reconnect stopped after " <> decimal b.retry.max_attempts <> " attempts.") b
      else (let c = record b {
        retry = record (b.retry) { attempt = b.retry.attempt + 1; pending = true };
      } in
          let d =
            c
            ▷ app_log ("Automatic reconnect scheduled in " <> seconds <> " seconds.")
            ▷ app_log (
                "Reconnect attempt "
                <> decimal c.retry.attempt
                <> " of "
                <> decimal c.retry.max_attempts
                <> ".")
            ▷ notify_state p in
          record d { retry = record (d.retry) { timer = true } } ▷ emit (schedule reconnect_timer))

  unfoldable pub on_reconnect_timer : Backend → Backend
  on_reconnect_timer b =
      if b.closing.shutting_down || not b.retry.auto_enabled || not b.retry.pending
      then b
      else (let c = record b { retry = record (b.retry) { pending = false; was = true } } in
          elim b.last_profile [ none ↦ c | some q ↦ connect p (some q) false none c ])
