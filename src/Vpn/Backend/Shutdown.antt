-- ===== src/Vpn/Backend/Shutdown.antt =====
-- The shutdown of the application (vpn/backend.py).
use fortigate_vpn_linux_gui.Prelude.{Bool, true, false, not, ◌||◌, [], ◌∷◌, ◌▷◌, if◌then◌else◌}
use fortigate_vpn_linux_gui.Vpn.State.{disconnected, failed, closing, is, among}
use fortigate_vpn_linux_gui.Vpn.Backend.Types.{
  shutdown_timer, schedule, cancel, close_helper, shutdown_complete, Backend, Ports,
}
use fortigate_vpn_linux_gui.Vpn.Backend.Core.{
  emit, emit_if, app_log, app_log_unless, notify_state, transition, cancel_reconnect,
  clear_manual_reconnect, helper_disconnect,
}

-- `_arm_shutdown_timeout`
abbrev arm_shutdown_timeout : Backend → Backend
arm_shutdown_timeout b =
    if b.closing.finished
    then b
    else record b { closing = record (b.closing) { timer = true } } ▷ emit (schedule shutdown_timer)

-- A repeated call hands over the callback when the helper is idle already.
unfoldable pub shutdown_again : Backend → Backend
shutdown_again b =
    if b.closing.finished || b.running
    then b
    else (let c = record b { closing = record (b.closing) { has_callback = false } } in
        emit_if b.closing.has_callback shutdown_complete c)

module _ (p : Ports) where
  unfoldable pub finish_shutdown : Backend → Backend
  finish_shutdown b =
      let already = b.closing.finished in
      let c = record b {
        closing = record (b.closing) { timer = false; has_callback = false; finished = true };
      } in
      let d = emit_if b.closing.timer (cancel shutdown_timer) c in
      if already
      then d
      else (let e = d ▷ app_log "Cleanup completed." ▷ notify_state p in
          emit_if b.closing.has_callback shutdown_complete e)

  -- The first call: nothing will be started any more.
  unfoldable pub enter_closing : Bool → Backend → Backend
  enter_closing has_callback b =
      let c = record b {
        closing = record (b.closing) {
          shutting_down = true;
          has_callback = b.closing.has_callback || has_callback;
        };
      } in
      record (clear_manual_reconnect (cancel_reconnect c)) { user_disconnect = true }
      ▷ transition closing
      ▷ notify_state p

  abbrev pub log_closing : Backend → Backend
  log_closing b =
      app_log_unless b.closing.logged "Application closing."
        (record b { closing = record (b.closing) { logged = true } })

  -- The helper is asked to stop, with a time limit, unless it is idle.
  unfoldable pub await_cleanup : Backend → Backend
  await_cleanup b =
      if not b.running
      then finish_shutdown b
      else b
        ▷ app_log "Waiting for VPN cleanup before exit."
        ▷ helper_disconnect p false
        ▷ arm_shutdown_timeout

  unfoldable pub begin_shutdown : Bool → Backend → Backend
  begin_shutdown has_callback b =
      if b.closing.shutting_down
      then shutdown_again b
      else await_cleanup (log_closing (enter_closing has_callback b))

  unfoldable pub on_shutdown_timeout : Backend → Backend
  on_shutdown_timeout b =
      if b.closing.finished || not b.closing.shutting_down
      then b
      else if not b.running
      then finish_shutdown b
      else finish_shutdown (helper_disconnect p true b)

  -- The helper is stopped and closed.
  unfoldable pub close_down : Backend → Backend
  close_down b =
      let d = if b.running then helper_disconnect p true b else b in
      let e = emit close_helper d in
      record e {
        running = p.running_after_close e.out;
        closing = record (e.closing) { shutting_down = true };
      }

  unfoldable pub shutdown : Backend → Backend
  shutdown b =
      let c = close_down (begin_shutdown false b) in
      if is closing c.state
      then transition disconnected c
      else if not (among c.state (disconnected ∷ failed ∷ []))
      then transition disconnected c
      else c
