-- ===== src/Vpn/Safety/Run.antt =====
-- What holds after every run of the backend.
use fortigate_vpn_linux_gui.Prelude.{ℕ, String, Bool, true, false, List, none, ◌≡◌, ◌≤◌, arith}
use fortigate_vpn_linux_gui.Vpn.State.{disconnected, among}
use fortigate_vpn_linux_gui.Vpn.Backend.Types.{Backend, Ports}
use fortigate_vpn_linux_gui.Vpn.Backend.Machine.{initial, Action, run}
use fortigate_vpn_linux_gui.Vpn.Safety.Sound.{IsSound, closing_states, completions}
use fortigate_vpn_linux_gui.Vpn.Safety.Sound.Machine.{run-IsSound, initial-IsSound}

module _ (p : Ports) (seconds : String) (actions : List Action) (auto : Bool) (n : ℕ) where
  abbrev reached : Backend
  reached = run p seconds actions (initial auto n)

  reached-IsSound : IsSound reached
  reached-IsSound =
      run-IsSound p seconds actions (initial auto n) (initial-IsSound p seconds auto n)

  -- Whatever calls, timers, helper events and worker ends a new backend went through: when it is
  -- disconnected, it holds no profile and no pre-shared key, and no sign-in is marked active.
  pub run-idle :
      reached.state ≡ disconnected
      → reached.profile ≡ none × reached.ipsec_tunnel_psk ≡ "" × reached.ipsec_saml_active ≡ false
  run-idle idle = (
    reached-IsSound.no_profile idle,
    reached-IsSound.no_secret idle,
    reached-IsSound.no_sign_in idle,
  )

  -- Whatever a new backend went through, its automatic reconnect attempts stay within their limit.
  pub run-attempts : reached.retry.attempt ≤ reached.retry.max_attempts
  run-attempts = reached-IsSound.bounded

  -- Whatever a new backend went through: once the application is closing, the backend's state is
  -- closing, disconnected or failed.
  pub run-closing : reached.closing.shutting_down ≡ true → among reached.state closing_states ≡ true
  run-closing = reached-IsSound.halted

  -- Whatever a new backend went through, the end of its shutdown was announced at most once.
  pub run-completions : completions reached.out ≤ 1
  run-completions = ground (arith, reached-IsSound.once)
