-- ===== src/Vpn/Safety/Sound/Stop.antt =====
-- `disconnect`, `reconnect` and the shutdown keep the invariant.
use fortigate_vpn_linux_gui.Prelude.{
  ◌||◌, ◌∷◌, Bool, true, false, Option, ◌≡◌, refl, arith, inl, inr, Bool-cases,
}
use fortigate_vpn_linux_gui.Vpn.State.{disconnecting, among}
use fortigate_vpn_linux_gui.Profiles.Model.{ConnectionProfile}
use fortigate_vpn_linux_gui.Vpn.Backend.Types.{Backend, Ports}
use fortigate_vpn_linux_gui.Vpn.Backend.Core.{transition}
use fortigate_vpn_linux_gui.Vpn.Backend.Stop.{stop_locked, prepare_stop, disconnect}
use fortigate_vpn_linux_gui.Vpn.Backend.Reconnect.{
  session_states, set_auto_reconnect, reconnect_failed, request_reconnect, begin_reconnect,
  after_stop, restart, reconnect_to, start_pending_reconnect, stop_then_reconnect, reconnect,
}
use fortigate_vpn_linux_gui.Vpn.Backend.Shutdown.{
  finish_shutdown, begin_shutdown, await_cleanup, on_shutdown_timeout, shutdown, enter_closing,
  log_closing, shutdown_again, close_down,
}
use fortigate_vpn_linux_gui.Vpn.Safety.Sound.Core.{IsSound, fail_without_process-IsSound}
use fortigate_vpn_linux_gui.Vpn.Safety.Sound.Connect.{connect-IsSound}

stop_locked-IsSound : (b : Backend) → IsSound b → IsSound (stop_locked b).backend
unfolding stop_locked transition
stop_locked-IsSound b h = ground arith

prepare_stop-IsSound : (r : Bool) (b : Backend) → IsSound b → IsSound (prepare_stop r b)
prepare_stop-IsSound r b h = ground arith

module _ (p : Ports) where
  pub disconnect-IsSound :
      (wait r : Bool) (b : Backend) → IsSound b → IsSound (disconnect p wait r b)
  unfolding disconnect
  disconnect-IsSound wait r b h =
      ground (arith, stop_locked-IsSound (prepare_stop r b) (prepare_stop-IsSound r b h))

  pub set_auto_reconnect-IsSound :
      (e : Bool) (b : Backend) → IsSound b → IsSound (set_auto_reconnect e b)
  unfolding set_auto_reconnect
  set_auto_reconnect-IsSound e b h = ground arith

  reconnect_failed-IsSound : (b : Backend) → IsSound b → IsSound (reconnect_failed p b)
  unfolding reconnect_failed
  reconnect_failed-IsSound b h = ground arith

  begin_reconnect-IsSound :
      (s : Bool) (q : ConnectionProfile) (b : Backend)
      → IsSound b
      → IsSound (begin_reconnect p s q b)
  unfolding begin_reconnect
  begin_reconnect-IsSound s q b h = grind (arith, connect-IsSound p, reconnect_failed-IsSound)

  pub start_pending_reconnect-IsSound :
      (s : Bool) (b : Backend) → IsSound b → IsSound (start_pending_reconnect p s b)
  unfolding start_pending_reconnect
  start_pending_reconnect-IsSound s b h = grind (arith, begin_reconnect-IsSound)

  after_stop-IsSound : (b : Backend) → IsSound b → IsSound (after_stop p b)
  unfolding after_stop
  after_stop-IsSound b h = grind (arith, start_pending_reconnect-IsSound)

  stop_then_reconnect-IsSound : (b : Backend) → IsSound b → IsSound (stop_then_reconnect p b)
  unfolding stop_then_reconnect
  stop_then_reconnect-IsSound b h = grind (arith, disconnect-IsSound, after_stop-IsSound)

  request_reconnect-IsSound :
      (q : ConnectionProfile) (b : Backend) → IsSound b → IsSound (request_reconnect p q b)
  unfolding request_reconnect
  request_reconnect-IsSound q b h = ground arith

  restart-IsSound : (n : Bool) (b : Backend) → IsSound b → IsSound (restart p n b)
  unfolding restart
  restart-IsSound true b h = stop_then_reconnect-IsSound b h
  restart-IsSound false b h = start_pending_reconnect-IsSound false b h

  reconnect_to-IsSound :
      (q : ConnectionProfile) (b : Backend) → IsSound b → IsSound (reconnect_to p q b)
  unfolding reconnect_to
  reconnect_to-IsSound q b h = ground (
    arith,
    restart-IsSound (b.running || among b.state (disconnecting ∷ session_states))
        (request_reconnect p q b) (request_reconnect-IsSound q b h),
  )

  pub reconnect-IsSound :
      (q : Option ConnectionProfile) (b : Backend) → IsSound b → IsSound (reconnect p q b)
  unfolding reconnect
  reconnect-IsSound q b h = grind (arith, fail_without_process-IsSound p, reconnect_to-IsSound)

  pub finish_shutdown-IsSound : (b : Backend) → IsSound b → IsSound (finish_shutdown p b)
  unfolding finish_shutdown
  finish_shutdown-IsSound b h = ground arith

  shutdown_again-IsSound :
      (b : Backend) → IsSound b → b.closing.shutting_down ≡ true → IsSound (shutdown_again b)
  unfolding shutdown_again
  shutdown_again-IsSound b h s = ground arith

  enter_closing-IsSound :
      (c : Bool) (b : Backend)
      → IsSound b
      → b.closing.shutting_down ≡ false
      → IsSound (enter_closing p c b)
  unfolding enter_closing transition
  enter_closing-IsSound c b h s = ground arith

  enter_closing-shutting_down :
      (c : Bool) (b : Backend) → (enter_closing p c b).closing.shutting_down ≡ true
  unfolding enter_closing transition
  enter_closing-shutting_down c b = refl

  log_closing-IsSound : (b : Backend) → IsSound b → IsSound (log_closing p b)
  log_closing-IsSound b h = ground arith

  await_cleanup-IsSound :
      (b : Backend) → IsSound b → b.closing.shutting_down ≡ true → IsSound (await_cleanup p b)
  unfolding await_cleanup
  await_cleanup-IsSound b h s = ground (arith, finish_shutdown-IsSound b h)

  pub begin_shutdown-IsSound : (c : Bool) (b : Backend) → IsSound b → IsSound (begin_shutdown p c b)
  unfolding begin_shutdown
  begin_shutdown-IsSound c b h = elim (Bool-cases b.closing.shutting_down) [
    | inl s ↦ simp s (shutdown_again-IsSound b h s)
    | inr s ↦ simp s (
        await_cleanup-IsSound _ (log_closing-IsSound _ (enter_closing-IsSound c b h s))
          (enter_closing-shutting_down c b))
  ]

  pub begin_shutdown-shutting_down :
      (c : Bool) (b : Backend) → (begin_shutdown p c b).closing.shutting_down ≡ true
  unfolding begin_shutdown await_cleanup finish_shutdown shutdown_again
  begin_shutdown-shutting_down c b = ground (arith, enter_closing-shutting_down c b)

  pub on_shutdown_timeout-IsSound : (b : Backend) → IsSound b → IsSound (on_shutdown_timeout p b)
  unfolding on_shutdown_timeout
  on_shutdown_timeout-IsSound b h = grind (arith, finish_shutdown-IsSound)

  close_down-IsSound :
      (b : Backend) → IsSound b → b.closing.shutting_down ≡ true → IsSound (close_down p b)
  unfolding close_down
  close_down-IsSound b h s = ground arith

  pub shutdown-IsSound : (b : Backend) → IsSound b → IsSound (shutdown p b)
  unfolding shutdown transition
  shutdown-IsSound b h = ground (
    arith,
    close_down-IsSound (begin_shutdown p false b) (begin_shutdown-IsSound false b h)
        (begin_shutdown-shutting_down false b),
  )
