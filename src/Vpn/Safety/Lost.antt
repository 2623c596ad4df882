-- ===== src/Vpn/Safety/Lost.antt =====
-- What follows the loss of a tunnel.
use fortigate_vpn_linux_gui.Prelude.{
  ℤ, suc, String, Bool, true, false, some, none, ◌∙◌, [], ◌≡◌, ◌<◌, refl, arith, is_some,
}
use fortigate_vpn_linux_gui.Vpn.State.{connected, failed, disconnecting, disconnected}
use fortigate_vpn_linux_gui.Vpn.Backend.Errors
use fortigate_vpn_linux_gui.Vpn.Backend.Types.{Backend, Ports}
use fortigate_vpn_linux_gui.Vpn.Backend.Core.{transition, cancel_timeout}
use fortigate_vpn_linux_gui.Vpn.Backend.Stop.{disconnect, stop_locked}
use fortigate_vpn_linux_gui.Vpn.Backend.Reconnect.{start_pending_reconnect}
use fortigate_vpn_linux_gui.Vpn.Safety.Effects.{starts}
use fortigate_vpn_linux_gui.Vpn.Backend.Retry.{maybe_schedule_reconnect, wants_reconnect}
use fortigate_vpn_linux_gui.Vpn.Backend.Exit.{
  exit_locked, exit_connected, exit_stopped, report_exit, follow_exit, log_exit, on_exit,
}

module _ (p : Ports) (seconds : String) (b : Backend) where
  maybe_schedule_reconnect-wanted :
      wants_reconnect b ≡ true
      → b.retry.attempt < b.retry.max_attempts
      → (maybe_schedule_reconnect p seconds b).state ≡ b.state
        × (maybe_schedule_reconnect p seconds b).error_code ≡ b.error_code
        × (maybe_schedule_reconnect p seconds b).retry.attempt ≡ suc b.retry.attempt
        × (maybe_schedule_reconnect p seconds b).retry.pending ≡ true
        × (maybe_schedule_reconnect p seconds b).retry.timer ≡ true
  unfolding maybe_schedule_reconnect
  maybe_schedule_reconnect-wanted wanted budget = ground arith

-- The backend when the tunnel has ended and the end was reported.
abbrev reported : Ports → ℤ → Backend → Backend
reported p code b =
    report_exit p (exit_connected (record (log_exit p code (cancel_timeout b)) { argv = [] }))

on_exit-connected :
    (p : Ports) (seconds : String) (code : ℤ) (b : Backend)
    → b.state ≡ connected
    → b.user_disconnect ≡ false
    → b.closing.shutting_down ≡ false
    → on_exit p seconds code b ≡ maybe_schedule_reconnect p seconds (reported p code b)
unfolding on_exit exit_locked follow_exit exit_connected
on_exit-connected p seconds code b up by_itself runs = simp up (simp by_itself (simp runs refl))

reported-wants_reconnect :
    (p : Ports) (code : ℤ) (b : Backend)
    → b.state ≡ connected
    → b.user_disconnect ≡ false
    → b.closing.shutting_down ≡ false
    → b.retry.auto_enabled ≡ true
    → is_some b.last_profile ≡ true
    → b.retry.pending ≡ false
    → wants_reconnect (reported p code b) ≡ true
unfolding exit_connected report_exit wants_reconnect transition
reported-wants_reconnect p code b up by_itself runs enabled known idle = ground arith

reported-kept :
    (p : Ports) (code : ℤ) (b : Backend)
    → b.state ≡ connected
    → (reported p code b).state ≡ failed
      × (reported p code b).error_code ≡ some Errors.connection_lost
      × (reported p code b).retry ≡ b.retry
unfolding exit_connected report_exit transition
reported-kept p code b up = ground arith

module _ (p : Ports) (seconds : String) (code : ℤ) (b : Backend) where
  -- A tunnel that ends, neither on the user's request nor while the application closes, fails the
  -- session as lost and, with automatic reconnects enabled, a
  -- profile to start again, none pending and fewer attempts made than allowed, counts one more
  -- attempt and schedules it.
  pub on_exit-lost :
      b.state ≡ connected
      → b.user_disconnect ≡ false
      → b.closing.shutting_down ≡ false
      → b.retry.auto_enabled ≡ true
      → is_some b.last_profile ≡ true
      → b.retry.pending ≡ false
      → b.retry.attempt < b.retry.max_attempts
      → (on_exit p seconds code b).state ≡ failed
        × (on_exit p seconds code b).error_code ≡ some Errors.connection_lost
        × (on_exit p seconds code b).retry.attempt ≡ suc b.retry.attempt
        × (on_exit p seconds code b).retry.pending ≡ true
        × (on_exit p seconds code b).retry.timer ≡ true
  on_exit-lost up by_itself running enabled known idle budget =
      simp (on_exit-connected p seconds code b up by_itself running) (
        ground (
          arith,
          reported-kept p code b up,
          maybe_schedule_reconnect-wanted p seconds (reported p code b)
              (reported-wants_reconnect p code b up by_itself running enabled known idle)
              (simp (reported-kept p code b up).2 budget),
        ))

-- What `disconnect` leaves of a running tunnel for its exit.
disconnect-left :
    (p : Ports) (wait : Bool) (b : Backend)
    → b.state ≡ connected
    → b.running ≡ true
    → ((disconnect p wait false b).state ≡ disconnecting)
      × ((disconnect p wait false b).retry.manual ≡ false)
      × ((disconnect p wait false b).retry.pending ≡ false)
      × ((disconnect p wait false b).retry.timer ≡ false)
unfolding disconnect stop_locked transition
disconnect-left p wait b up runs = ground arith

on_exit-stopped :
    (p : Ports) (seconds : String) (code : ℤ) (b : Backend)
    → b.state ≡ disconnecting
    → b.retry.manual ≡ false
    → ((on_exit p seconds code b).state ≡ disconnected)
      × ((on_exit p seconds code b).error_code ≡ none)
      × ((on_exit p seconds code b).retry.pending ≡ b.retry.pending)
      × ((on_exit p seconds code b).retry.timer ≡ b.retry.timer)
      × (starts (on_exit p seconds code b).out ≡ starts b.out)
unfolding on_exit exit_locked follow_exit exit_stopped report_exit transition
    start_pending_reconnect
on_exit-stopped p seconds code b stopping once = simp stopping (ground arith)

-- A running tunnel that the user disconnects: the exit of its process, whatever its status, leaves
-- the backend disconnected without an error, with no reconnect pending or timed, and starts neither a
-- helper nor a sign-in worker.
pub on_exit-disconnect :
    (p : Ports) (seconds : String) (code : ℤ) (wait : Bool) (b : Backend)
    → b.state ≡ connected
    → b.running ≡ true
    → ((on_exit p seconds code (disconnect p wait false b)).state ≡ disconnected)
      × ((on_exit p seconds code (disconnect p wait false b)).error_code ≡ none)
      × ((on_exit p seconds code (disconnect p wait false b)).retry.pending ≡ false)
      × ((on_exit p seconds code (disconnect p wait false b)).retry.timer ≡ false)
      × (starts (on_exit p seconds code (disconnect p wait false b)).out
          ≡ starts (disconnect p wait false b).out)
on_exit-disconnect p seconds code wait b up runs =
    let (stopping, once, pending, timer) = disconnect-left p wait b up runs in
    let (state, error, pending', timer', started) =
      on_exit-stopped p seconds code (disconnect p wait false b) stopping once in
    (state, error, pending' ∙ pending, timer' ∙ timer, started)
