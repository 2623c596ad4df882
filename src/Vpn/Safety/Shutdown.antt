-- ===== src/Vpn/Safety/Shutdown.antt =====
-- How the application closes.
use fortigate_vpn_linux_gui.Prelude.{
  suc, String, Bool, true, false, List, [], ◌∷◌, ◌≡◌, refl, ap, ◌∙◌, arith,
}
use fortigate_vpn_linux_gui.Vpn.State.{disconnected, failed, among}
use fortigate_vpn_linux_gui.Vpn.Backend.Types.{Backend, Ports}
use fortigate_vpn_linux_gui.Vpn.Backend.Core.{transition}
use fortigate_vpn_linux_gui.Vpn.Backend.Machine.{Action, run}
use fortigate_vpn_linux_gui.Vpn.Backend.Shutdown.{
  log_closing, begin_shutdown, on_shutdown_timeout, shutdown_again, shutdown, enter_closing,
  await_cleanup, finish_shutdown, close_down,
}
use fortigate_vpn_linux_gui.Vpn.Safety.Effects.{starts}
use fortigate_vpn_linux_gui.Vpn.Safety.Halted.{run-Halted}
use fortigate_vpn_linux_gui.Vpn.Safety.Sound.{completions}
use fortigate_vpn_linux_gui.Vpn.Safety.Sound.Stop.{begin_shutdown-shutting_down}

module _ (p : Ports) where
  on_shutdown_timeout-await_cleanup :
      (c : Backend)
      → c.closing.shutting_down ≡ true
      → c.closing.finished ≡ false
      → c.closing.has_callback ≡ true
      → completions (on_shutdown_timeout p (await_cleanup p c)).out ≡ suc (completions c.out)
  unfolding on_shutdown_timeout await_cleanup finish_shutdown
  on_shutdown_timeout-await_cleanup c shut unfinished waits = ground arith

  entered-completions :
      (b : Backend) → completions (log_closing p (enter_closing p true b)).out ≡ completions b.out
  unfolding enter_closing transition
  entered-completions b = ground arith

  entered-closing :
      (b : Backend)
      → (log_closing p (enter_closing p true b)).closing.shutting_down ≡ true
        × (log_closing p (enter_closing p true b)).closing.finished ≡ b.closing.finished
        × (log_closing p (enter_closing p true b)).closing.has_callback ≡ true
  unfolding enter_closing transition
  entered-closing b = ground arith

module _ (p : Ports) (b : Backend) where
  -- With no shutdown begun or finished before, `begin_shutdown` with a callback, followed by the end
  -- of its time limit, announces the end of the shutdown exactly once, whether or not the helper has
  -- stopped by then.
  pub on_shutdown_timeout-begin_shutdown :
      b.closing.shutting_down ≡ false
      → b.closing.finished ≡ false
      → completions (on_shutdown_timeout p (begin_shutdown p true b)).out ≡ suc (completions b.out)
  unfolding begin_shutdown
  on_shutdown_timeout-begin_shutdown fresh unfinished =
      let entered = entered-closing p b in
      simp fresh (
        on_shutdown_timeout-await_cleanup p (log_closing p (enter_closing p true b)) entered.0
          (entered.1 ∙ unfinished) entered.2
        ∙ ap suc (entered-completions p b))

  -- `shutdown` leaves every backend disconnected or failed, and marked as closing.
  pub shutdown-state :
      among (shutdown p b).state (disconnected ∷ failed ∷ []) ≡ true
      × (shutdown p b).closing.shutting_down ≡ true
  unfolding shutdown transition close_down
  shutdown-state = ground arith

  -- Once a shutdown has begun, no sequence of calls, timers, helper events and worker ends starts a
  -- helper or a sign-in worker any more, and the application stays closing.
  pub run-begin_shutdown :
      (seconds : String) (has_callback : Bool) (actions : List Action)
      → ((run p seconds actions (begin_shutdown p has_callback b)).closing.shutting_down ≡ true)
        × (starts (run p seconds actions (begin_shutdown p has_callback b)).out
            ≡ starts (begin_shutdown p has_callback b).out)
  run-begin_shutdown seconds has_callback actions =
      run-Halted (starts (begin_shutdown p has_callback b).out) p seconds actions
        (begin_shutdown p has_callback b) (begin_shutdown-shutting_down p has_callback b, refl)

  -- A `begin_shutdown` after the first one, when no callback waits, drops its own callback: the end
  -- of the time limit announces nothing to it, whether or not the helper has stopped.
  pub begin_shutdown-repeated :
      b.closing.shutting_down ≡ true
      → b.closing.has_callback ≡ false
      → completions (on_shutdown_timeout p (begin_shutdown p true b)).out ≡ completions b.out
  unfolding on_shutdown_timeout begin_shutdown shutdown_again finish_shutdown
  begin_shutdown-repeated again none_waits = ground arith
