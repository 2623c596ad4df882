-- ===== src/Vpn/Safety/Sound/Core.antt =====
-- The invariant, and the steps that all methods share.
use fortigate_vpn_linux_gui.Prelude.{
  ℕ, suc, String, Bool, true, false, Option, none, List, [], ◌∷◌, ◌≡◌, refl, sym, ap, ◌+◌, ◌≤◌,
  arith, ◌||◌, inl, inr, Bool-cases,
}
use fortigate_vpn_linux_gui.Profiles.Model.{ConnectionProfile}
use mathlib.Core.Path.{subst}
use fortigate_vpn_linux_gui.Vpn.State.{ConnectionState, disconnected, failed, closing, among}
use fortigate_vpn_linux_gui.Vpn.Backend.Errors.{VpnErrorCode, Message}
use fortigate_vpn_linux_gui.Vpn.Backend.Types.{
  Backend, Ports, Effect, shutdown_complete, Reconnect, Closing,
}
use fortigate_vpn_linux_gui.Vpn.Backend.Core.{
  ignores_failure, set_error, emit_if, cancel_timeout, transition, fail_without_process,
  fail_and_clear, fail_saml_session,
}

-- How often the end of the shutdown was announced.
abbrev pub completions : List Effect → ℕ
completions [] = 0
completions (shutdown_complete ∷ xs) = suc (completions xs)
completions (_ ∷ xs) = completions xs

abbrev pub flag : Bool → ℕ
flag true = 1
flag false = 0

abbrev pub closing_states : List ConnectionState
closing_states = closing ∷ disconnected ∷ failed ∷ []

pub record IsSound (b : Backend) : Type 0 where
  pub no_profile : b.state ≡ disconnected → b.profile ≡ none
  pub no_secret : b.state ≡ disconnected → b.ipsec_tunnel_psk ≡ ""
  pub no_sign_in : b.state ≡ disconnected → b.ipsec_saml_active ≡ false
  pub bounded : b.retry.attempt ≤ b.retry.max_attempts
  pub halted : b.closing.shutting_down ≡ true → among b.state closing_states ≡ true
  pub once : completions b.out + flag b.closing.has_callback ≤ 1
  pub unannounced :
      b.closing.shutting_down ≡ false → completions b.out + flag b.closing.has_callback ≡ 0

-- The fields that the invariant reads.
abbrev pub View : Type 0
View = ConnectionState × Option ConnectionProfile × String × Bool × Reconnect × Closing × ℕ

abbrev pub view : Backend → View
view b = (
  b.state,
  b.profile,
  b.ipsec_tunnel_psk,
  b.ipsec_saml_active,
  b.retry,
  b.closing,
  completions b.out,
)

IsSoundView : View → Type 0
IsSoundView (state, profile, psk, active, retry, shut, announced) =
    (state ≡ disconnected → profile ≡ none)
    × (state ≡ disconnected → psk ≡ "")
    × (state ≡ disconnected → active ≡ false)
    × (retry.attempt ≤ retry.max_attempts)
    × (shut.shutting_down ≡ true → among state closing_states ≡ true)
    × (announced + flag shut.has_callback ≤ 1)
    × (shut.shutting_down ≡ false → announced + flag shut.has_callback ≡ 0)

view_of : (b : Backend) → IsSound b → IsSoundView (view b)
unfolding IsSoundView
view_of b h = (h.no_profile, h.no_secret, h.no_sign_in, h.bounded, h.halted, h.once, h.unannounced)

of_view : (b : Backend) → IsSoundView (view b) → IsSound b
unfolding IsSoundView
of_view b (profile, secret, sign_in, bounded, halted, once, unannounced) = record {
  no_profile = profile;
  no_secret = secret;
  no_sign_in = sign_in;
  bounded = bounded;
  halted = halted;
  once = once;
  unannounced = unannounced;
}

-- A backend that differs in other fields alone.
pub kept-IsSound : (b c : Backend) → view b ≡ view c → IsSound b → IsSound c
kept-IsSound b c e h = of_view c (subst IsSoundView e (view_of b h))

pub emit_if-IsSound :
    (c : Bool) (x : Effect) (b : Backend)
    → completions (x ∷ b.out) ≡ completions b.out
    → IsSound b
    → IsSound (emit_if c x b)
emit_if-IsSound true x b silent h =
    kept-IsSound b _
      (ap
        (λ n. (b.state, b.profile, b.ipsec_tunnel_psk, b.ipsec_saml_active, b.retry, b.closing, n))
        (sym silent))
      h
emit_if-IsSound false x b silent h = h

pub cancel_timeout-IsSound : (b : Backend) → IsSound b → IsSound (cancel_timeout b)
cancel_timeout-IsSound b h =
    emit_if-IsSound b.saml_timer _ _ refl (kept-IsSound b (record b { saml_timer = false }) refl h)

pub transition-IsSound :
    (s : ConnectionState) (b : Backend)
    → IsSound b
    → (b.closing.shutting_down ≡ true → among s closing_states ≡ true)
    → IsSound (transition s b)
unfolding transition
transition-IsSound s b h shut = ground arith

module _ (p : Ports) where
  pub fail_without_process-IsSound :
      (code : VpnErrorCode) (m : Message) (b : Backend)
      → IsSound b
      → IsSound (fail_without_process p code m b)
  unfolding fail_without_process
  fail_without_process-IsSound code m b h = ground arith

  pub fail_and_clear-IsSound :
      (code : VpnErrorCode) (m : Message) (b : Backend)
      → IsSound b
      → IsSound (fail_and_clear p code m b)
  unfolding fail_and_clear transition
  fail_and_clear-IsSound code m b h = ground arith

  pub fail_saml_session-IsSound :
      (code : VpnErrorCode) (m : Message) (b : Backend)
      → IsSound b
      → IsSound (fail_saml_session p code m b)
  unfolding fail_saml_session
  fail_saml_session-IsSound code m b h =
      let hc = cancel_timeout-IsSound b h in
      elim (Bool-cases
        ((cancel_timeout b).failing || among (cancel_timeout b).state ignores_failure)) [
          | inl s ↦ simp s hc
          | inr s ↦
              let c = set_error code m (record (cancel_timeout b) { failing = true }) in
              let hd =
                transition-IsSound failed c (kept-IsSound (cancel_timeout b) c refl hc)
                  (λ _. refl) in
              elim (Bool-cases (transition failed c).running) [
                | inl r ↦ simp s (simp r (kept-IsSound (transition failed c) _ refl hd))
                | inr r ↦ simp s (simp r (kept-IsSound (transition failed c) _ refl hd))
              ]
        ]
