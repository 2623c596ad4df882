-- ===== src/Vpn/Safety/Sound/Exit.antt =====
-- The end of the process, the automatic reconnect and the sign-in worker keep the invariant.
use fortigate_vpn_linux_gui.Prelude.{
  ℤ, String, true, false, not, ◌&&◌, is_some, leb, ◌≡◌, refl, arith, inl, inr, Bool-cases,
}
use fortigate_vpn_linux_gui.Vpn.State.{
  ConnectionState, among, disconnecting, closing, connected, starting, connecting, waiting_for_auth,
  waiting_for_certificate_trust, failed,
}
use fortigate_vpn_linux_gui.Vpn.Backend.Types.{Backend, Ports}
use fortigate_vpn_linux_gui.Vpn.Backend.Core.{set_error, transition}
use fortigate_vpn_linux_gui.Vpn.Backend.Exit.{
  Exited, asks_for_trust, exit_early, exit_connected, exit_stopped, exit_from, exit_locked,
  report_exit, follow_exit, log_exit, on_exit,
}
use fortigate_vpn_linux_gui.Vpn.Backend.Failure.{exit_error}
use fortigate_vpn_linux_gui.Vpn.Backend.Events.{pinned_of}
use fortigate_vpn_linux_gui.Vpn.Backend.Retry.{
  wants_reconnect, maybe_schedule_reconnect, on_reconnect_timer,
}
use fortigate_vpn_linux_gui.Vpn.Backend.Core.{cancel_timeout}
use fortigate_vpn_linux_gui.Vpn.Safety.Sound.Core.{
  IsSound, closing_states, kept-IsSound, transition-IsSound,
}
use fortigate_vpn_linux_gui.Vpn.Safety.Sound.Connect.{connect-IsSound}
use fortigate_vpn_linux_gui.Vpn.Safety.Sound.Stop.{
  finish_shutdown-IsSound, start_pending_reconnect-IsSound,
}

exit_early-IsSound :
    (code : ℤ) (b : Backend)
    → IsSound b
    → among b.state closing_states ≡ false
    → IsSound (exit_early code b).backend
unfolding exit_early
exit_early-IsSound code b h active =
    let failure =
      exit_error b.profile b.output_hint code b.state b.presented_certificate (pinned_of b) in
    let c = set_error failure.0 failure.1 b in
    let hc = kept-IsSound b c refl h in
    let hd =
      transition-IsSound waiting_for_certificate_trust c hc
        (λ e. ground (arith, active, h.halted e)) in
    elim (Bool-cases (asks_for_trust failure.0)) [
      | inl s ↦
          elim (Bool-cases (not b.logged.cert_error_emitted && is_some b.presented_certificate)) [
            | inl t ↦
                simp s
                  (simp t (kept-IsSound (transition waiting_for_certificate_trust c) _ refl hd))
            | inr t ↦ simp s (simp t hd)
          ]
      | inr s ↦ simp s (transition-IsSound failed c hc (λ _. refl))
    ]

exit_connected-IsSound : (b : Backend) → IsSound b → IsSound (exit_connected b).backend
unfolding exit_connected transition
exit_connected-IsSound b h = ground arith

exit_stopped-IsSound : (b : Backend) → IsSound b → IsSound (exit_stopped b).backend
unfolding exit_stopped transition
exit_stopped-IsSound b h = ground arith

exit_from-IsSound :
    (s : ConnectionState) (code : ℤ) (b : Backend)
    → b.state ≡ s
    → IsSound b
    → IsSound (exit_from s code b).backend
exit_from-IsSound disconnecting code b e h = exit_stopped-IsSound b h
exit_from-IsSound closing code b e h = h
exit_from-IsSound connected code b e h = exit_connected-IsSound b h
exit_from-IsSound starting code b e h = exit_early-IsSound code b h (ground arith)
exit_from-IsSound connecting code b e h = exit_early-IsSound code b h (ground arith)
exit_from-IsSound waiting_for_auth code b e h = exit_early-IsSound code b h (ground arith)
exit_from-IsSound _ code b e h = h

exit_locked-IsSound : (code : ℤ) (b : Backend) → IsSound b → IsSound (exit_locked code b).backend
unfolding exit_locked
exit_locked-IsSound code b h = exit_from-IsSound b.state code _ refl (ground arith)

module _ (p : Ports) where
  report_exit-IsSound : (e : Exited) → IsSound e.backend → IsSound (report_exit p e)
  unfolding report_exit
  report_exit-IsSound e h = ground arith

  maybe_schedule_reconnect-IsSound :
      (seconds : String) (b : Backend) → IsSound b → IsSound (maybe_schedule_reconnect p seconds b)
  unfolding maybe_schedule_reconnect
  maybe_schedule_reconnect-IsSound seconds b h = elim (Bool-cases (wants_reconnect b)) [
    | inl s ↦ elim (Bool-cases (leb b.retry.max_attempts b.retry.attempt)) [
      | inl t ↦ simp s (simp t (kept-IsSound b _ refl h))
      | inr t ↦ simp s (
          simp t (record {
            no_profile = h.no_profile;
            no_secret = h.no_secret;
            no_sign_in = h.no_sign_in;
            bounded = ground (arith, t);
            halted = h.halted;
            once = h.once;
            unannounced = h.unannounced;
          }))
    ]
    | inr s ↦ simp s h
  ]

  pub on_reconnect_timer-IsSound : (b : Backend) → IsSound b → IsSound (on_reconnect_timer p b)
  unfolding on_reconnect_timer
  on_reconnect_timer-IsSound b h = grind (arith, connect-IsSound p)

  follow_exit-IsSound :
      (seconds : String) (e : Exited) (b : Backend)
      → IsSound b
      → IsSound (follow_exit p seconds e b)
  unfolding follow_exit
  follow_exit-IsSound seconds e b h = ground (
    arith,
    finish_shutdown-IsSound p b h,
    maybe_schedule_reconnect-IsSound seconds b h,
    start_pending_reconnect-IsSound p true b h,
  )

  log_exit-IsSound :
      (code : ℤ) (b : Backend) → IsSound b → IsSound (log_exit p code (cancel_timeout b))
  log_exit-IsSound code b h = ground arith

  pub on_exit-IsSound :
      (seconds : String) (code : ℤ) (b : Backend) → IsSound b → IsSound (on_exit p seconds code b)
  unfolding on_exit
  on_exit-IsSound seconds code b h =
      follow_exit-IsSound seconds _ _
        (report_exit-IsSound _ (exit_locked-IsSound code _ (log_exit-IsSound code b h)))
