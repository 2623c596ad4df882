-- ===== src/Vpn/Safety/Sound/SignIn.antt =====
-- The sign-in worker keeps the invariant.
use fortigate_vpn_linux_gui.Prelude.{ℕ, String, false, Option, none, some, arith, ◌≡◌}
use fortigate_vpn_linux_gui.Profiles.Model.{ConnectionProfile}
use fortigate_vpn_linux_gui.Vpn.Backend.Errors
use fortigate_vpn_linux_gui.Vpn.Backend.Session.{connect_request}
use fortigate_vpn_linux_gui.Vpn.Backend.Errors.{VpnErrorCode, Message}
use fortigate_vpn_linux_gui.Vpn.Backend.Types.{
  Backend, Ports, HelperError, ConnectRequest, Credentials, RequestResult, accepted, rejected,
  SamlOutcome, signed_in, http_unknown, http_rejected, start_url_error, bootstrap_error,
  connect_error, listener_timed_out, listener_cancelled, listener_malformed, browser_launch_error,
  tls_error, unsafe_url,
}
use fortigate_vpn_linux_gui.Vpn.Backend.Core.{transition}
use fortigate_vpn_linux_gui.Vpn.Backend.SignIn.{
  on_ipsec_saml_waiting, open_after_saml, settle_after_saml, continue_ipsec_after_saml,
  request_after_saml, start_ipsec_after_saml, fail_logged, handle_outcome, finish_sign_in,
}
use fortigate_vpn_linux_gui.Vpn.Safety.Sound.Core.{IsSound, fail_and_clear-IsSound}
use fortigate_vpn_linux_gui.Vpn.Safety.Sound.Connect.{start_failed-IsSound}

module _ (p : Ports) where
  pub on_ipsec_saml_waiting-IsSound :
      (url : String) (b : Backend) → IsSound b → IsSound (on_ipsec_saml_waiting p url b)
  unfolding on_ipsec_saml_waiting transition
  on_ipsec_saml_waiting-IsSound url b h = ground arith

  open_after_saml-IsSound :
      (q : ConnectionProfile) (r : ConnectRequest) (c : Credentials) (b : Backend)
      → IsSound b
      → b.closing.shutting_down ≡ false
      → IsSound (open_after_saml p q r c b)
  unfolding open_after_saml transition
  open_after_saml-IsSound q r c b h s = ground arith

  settle_after_saml-IsSound :
      (e : Option HelperError) (b : Backend) → IsSound b → IsSound (settle_after_saml p e b)
  unfolding settle_after_saml
  settle_after_saml-IsSound none b h = ground arith
  settle_after_saml-IsSound (some e) b h = start_failed-IsSound p e b h

  continue_ipsec_after_saml-IsSound :
      (q : ConnectionProfile) (r : ConnectRequest) (c : Credentials) (b : Backend)
      → IsSound b
      → IsSound (continue_ipsec_after_saml p q r c b)
  unfolding continue_ipsec_after_saml
  continue_ipsec_after_saml-IsSound q r c b h =
      grind (arith, open_after_saml-IsSound, settle_after_saml-IsSound)

  request_after_saml-IsSound :
      (q : ConnectionProfile) (c : Credentials) (r : RequestResult) (b : Backend)
      → IsSound b
      → IsSound (request_after_saml p q c r b)
  unfolding request_after_saml
  request_after_saml-IsSound q c (rejected e) b h = fail_and_clear-IsSound p _ _ _ (ground arith)
  request_after_saml-IsSound q c (accepted r) b h = continue_ipsec_after_saml-IsSound q r c b h

  take_psk-IsSound : (b : Backend) → IsSound b → IsSound (record b { ipsec_tunnel_psk = "" })
  take_psk-IsSound b h = ground arith

  start_ipsec_after_saml-IsSound :
      (q : ConnectionProfile) (uid tokenid : String) (b : Backend)
      → IsSound b
      → IsSound (start_ipsec_after_saml p q uid tokenid b)
  unfolding start_ipsec_after_saml
  start_ipsec_after_saml-IsSound q uid tokenid b h =
      let c = record b { ipsec_tunnel_psk = "" } in
      let k = take_psk-IsSound b h in
      ground (
        arith,
        k,
        fail_and_clear-IsSound p Errors.ipsec_credentials_required Errors.ipsec_sso_psk_message c k,
        fail_and_clear-IsSound p Errors.saml_failed Errors.ipsec_saml_callback_message c k,
        request_after_saml-IsSound q
            (record { psk = b.ipsec_tunnel_psk; username = uid; password = tokenid })
            (p.connect_request_from_fields (connect_request q)) c k,
      )

  fail_logged-IsSound :
      (text : String) (code : VpnErrorCode) (m : Message) (b : Backend)
      → IsSound b
      → IsSound (fail_logged p text code m b)
  unfolding fail_logged
  fail_logged-IsSound text code m b h = fail_and_clear-IsSound p _ _ _ (ground arith)

  handle_outcome-IsSound :
      (q : ConnectionProfile) (outcome : SamlOutcome) (b : Backend)
      → IsSound b
      → IsSound (handle_outcome p q outcome b)
  unfolding handle_outcome
  handle_outcome-IsSound q (signed_in uid tokenid) b h =
      start_ipsec_after_saml-IsSound q uid tokenid b h
  handle_outcome-IsSound q (connect_error text none) b h = fail_logged-IsSound _ _ _ b h
  handle_outcome-IsSound q (connect_error text (some cause)) b h =
      fail_logged-IsSound _ _ _ _ (ground arith)
  handle_outcome-IsSound q (listener_cancelled text) b h = h
  handle_outcome-IsSound q unsafe_url b h = fail_and_clear-IsSound p _ _ b h
  handle_outcome-IsSound q (http_unknown text) b h = fail_logged-IsSound _ _ _ b h
  handle_outcome-IsSound q (http_rejected text) b h = fail_logged-IsSound _ _ _ b h
  handle_outcome-IsSound q (start_url_error text) b h = fail_logged-IsSound _ _ _ b h
  handle_outcome-IsSound q (listener_timed_out text) b h = fail_logged-IsSound _ _ _ b h
  handle_outcome-IsSound q (listener_malformed text) b h = fail_logged-IsSound _ _ _ b h
  handle_outcome-IsSound q (browser_launch_error text) b h = fail_logged-IsSound _ _ _ b h
  handle_outcome-IsSound q tls_error b h = fail_logged-IsSound _ _ _ b h
  handle_outcome-IsSound q (bootstrap_error text) b h = fail_logged-IsSound _ _ _ b h

  pub finish_sign_in-IsSound :
      (q : ConnectionProfile) (attempt : ℕ) (outcome : SamlOutcome) (b : Backend)
      → IsSound b
      → IsSound (finish_sign_in p q attempt outcome b)
  unfolding finish_sign_in
  finish_sign_in-IsSound q attempt outcome b h = grind (arith, handle_outcome-IsSound)
