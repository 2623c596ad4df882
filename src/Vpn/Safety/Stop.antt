-- ===== src/Vpn/Safety/Stop.antt =====
-- What `disconnect` leaves behind.
use fortigate_vpn_linux_gui.Prelude.{ℕ, suc, Bool, true, false, [], ◌∷◌, ◌≡◌, arith, ◌∙◌}
use fortigate_vpn_linux_gui.Profiles.Model.{ConnectionProfile}
use fortigate_vpn_linux_gui.Vpn.State.{
  disconnected, disconnecting, starting, connecting, waiting_for_auth, failed, closing, among,
}
use fortigate_vpn_linux_gui.Vpn.Backend.Types.{Backend, Ports, SamlOutcome}
use fortigate_vpn_linux_gui.Vpn.Backend.Core.{transition}
use fortigate_vpn_linux_gui.Vpn.Backend.Stop.{stop_locked, prepare_stop, disconnect}
use fortigate_vpn_linux_gui.Vpn.Backend.Retry.{on_reconnect_timer}
use fortigate_vpn_linux_gui.Vpn.Backend.SignIn.{finish_sign_in}
use fortigate_vpn_linux_gui.Vpn.Safety.Effects.{forcings, stops}

stop_locked-running :
    (b : Backend)
    → among b.state (disconnected ∷ failed ∷ closing ∷ []) ≡ false
    → b.running ≡ true
    → (stop_locked b).backend.state ≡ disconnecting
      × forcings (stop_locked b).backend.out ≡ forcings b.out
      × stops (stop_locked b).backend.out ≡ stops b.out
      × (stop_locked b).told ≡ true
      × (stop_locked b).running ≡ true
unfolding stop_locked transition
stop_locked-running b active runs = ground arith

stop_locked-unstarted :
    (b : Backend)
    → among b.state (starting ∷ connecting ∷ waiting_for_auth ∷ []) ≡ true
    → b.running ≡ false
    → b.ipsec_saml_active ≡ false
    → (stop_locked b).backend.state ≡ disconnected
      × forcings (stop_locked b).backend.out ≡ suc (forcings b.out)
      × stops (stop_locked b).backend.out ≡ stops b.out
      × (stop_locked b).told ≡ true
      × (stop_locked b).running ≡ false
unfolding stop_locked transition
stop_locked-unstarted b active idle outside = ground arith

stop_locked-kept :
    (b : Backend)
    → (stop_locked b).backend.user_disconnect ≡ b.user_disconnect
      × (stop_locked b).backend.retry ≡ b.retry
unfolding stop_locked transition
stop_locked-kept b = ground arith

prepare_stop-pending : (r : Bool) (b : Backend) → (prepare_stop r b).retry.pending ≡ false
prepare_stop-pending r b = ground arith

prepare_stop-kept :
    (r : Bool) (b : Backend)
    → (prepare_stop r b).state ≡ b.state
      × (prepare_stop r b).running ≡ b.running
      × forcings (prepare_stop r b).out ≡ forcings b.out
      × stops (prepare_stop r b).out ≡ stops b.out
      × (prepare_stop r b).ipsec_saml_active ≡ b.ipsec_saml_active
prepare_stop-kept r b = ground arith

module _ (p : Ports) (wait r : Bool) (b : Backend) where
  -- A session that is starting, connecting or waiting for its sign-in, with no IPsec sign-in active,
  -- whose helper does not say that it runs (as before its first event), is left disconnected: the
  -- change is a forced one, and the helper is not asked to stop.
  pub disconnect-unstarted :
      among b.state (starting ∷ connecting ∷ waiting_for_auth ∷ []) ≡ true
      → b.running ≡ false
      → b.ipsec_saml_active ≡ false
      → (disconnect p wait r b).state ≡ disconnected
        × forcings (disconnect p wait r b).out ≡ suc (forcings b.out)
        × stops (disconnect p wait r b).out ≡ stops b.out
  unfolding disconnect
  disconnect-unstarted active idle outside =
      let (state, running, forced, stopped, signing_in) = prepare_stop-kept r b in
      ground (
        arith,
        stop_locked-unstarted (prepare_stop r b) (simp state active) (running ∙ idle)
            (signing_in ∙ outside),
        forced,
        stopped,
      )

  -- While the helper runs, a session in any state but disconnected, failed and closing goes to
  -- disconnecting, by an allowed transition unless it is there already, and the helper is asked
  -- once to stop.
  pub disconnect-running :
      among b.state (disconnected ∷ failed ∷ closing ∷ []) ≡ false
      → b.running ≡ true
      → (disconnect p wait r b).state ≡ disconnecting
        × forcings (disconnect p wait r b).out ≡ forcings b.out
        × stops (disconnect p wait r b).out ≡ suc (stops b.out)
  unfolding disconnect
  disconnect-running active runs =
      let (state, running, forced, stopped, _) = prepare_stop-kept r b in
      ground (
        arith,
        stop_locked-running (prepare_stop r b) (simp state active) (running ∙ runs),
        forced,
        stopped,
      )

  disconnect-user_disconnect : (disconnect p wait r b).user_disconnect ≡ true
  unfolding disconnect
  disconnect-user_disconnect = ground (arith, (stop_locked-kept (prepare_stop r b)).0)

  -- After `disconnect`, the end of any sign-in worker, whatever it brings, changes nothing.
  pub finish_sign_in-disconnect :
      (q : ConnectionProfile) (attempt : ℕ) (outcome : SamlOutcome)
      → finish_sign_in p q attempt outcome (disconnect p wait r b) ≡ disconnect p wait r b
  unfolding finish_sign_in
  finish_sign_in-disconnect q attempt outcome = ground (arith, disconnect-user_disconnect)

  disconnect-pending : (disconnect p wait r b).retry.pending ≡ false
  unfolding disconnect
  disconnect-pending =
      ground (arith, (stop_locked-kept (prepare_stop r b)).1, prepare_stop-pending r b)

  -- After `disconnect`, a timer of the automatic reconnect that still fires changes nothing.
  pub on_reconnect_timer-disconnect :
      on_reconnect_timer p (disconnect p wait r b) ≡ disconnect p wait r b
  unfolding on_reconnect_timer
  on_reconnect_timer-disconnect = ground (arith, disconnect-pending)
