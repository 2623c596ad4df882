-- ===== src/Helper/Validation/Sent.antt =====
-- The object that the client sends, read by the helper (helper/validation.py).
use fortigate_vpn_linux_gui.Prelude.{
  ℕ, pos, String, true, Option, none, some, ok, ◌>>=◌, Ensures, ◌≡◌, refl, ap, ◌∙◌,
}
use mathlib.Core.Path.{subst}
use fortigate_vpn_linux_gui.Json.{Json, int, str, object, payload_of}
use fortigate_vpn_linux_gui.Profiles.Ipsec.{IpsecSettings}
use fortigate_vpn_linux_gui.Profiles.Ipsec.Reparse.{TextLaws}
use fortigate_vpn_linux_gui.Vpn.Backend.Types.{
  ConnectRequest, AuthMode, saml, standard, BackendName, openfortivpn, ipsec,
}
use fortigate_vpn_linux_gui.Helper.Service.Openfortivpn.{Failure}
use fortigate_vpn_linux_gui.Helper.Validation.Again.{
  or_null, HexLaws, GatewayAgain, PortAgain, RequestAgain, checked_request-again,
}
use fortigate_vpn_linux_gui.Helper.Validation.{
  Checks, connect, mode_text, backend_text, Checked, auth_mode_of, backend_of, operation_of, unless,
  validate_gateway, validate_port, checked_request, connect_request_from_fields,
  parse_request_payload,
}
use fortigate_vpn_linux_gui.Helper.Validation.Client.{
  fingerprint_json, settings_json, sent_id, connect_payload,
}

module _ (c : Checks) where
  validate_gateway-str : (g : String) → GatewayAgain c g → validate_gateway c (str g) ≡ ok g
  unfolding validate_gateway
  validate_gateway-str g h = ap (λ (f : Option Failure). unless c f g) h

  validate_port-int : (n : ℕ) → PortAgain c n → validate_port c (int (pos n)) ≡ ok n
  unfolding validate_port
  validate_port-int n h = h

  auth_mode_of-text : (m : AuthMode) → auth_mode_of (str (mode_text m)) ≡ ok m
  unfolding auth_mode_of
  auth_mode_of-text saml = refl
  auth_mode_of-text standard = refl

  backend_of-text : (b : BackendName) → backend_of (str (backend_text b)) ≡ ok b
  unfolding backend_of
  backend_of-text openfortivpn = refl
  backend_of-text ipsec = refl

  checked_request-written :
      (r : ConnectRequest)
      → RequestAgain c r
      → checked_request c true
          (str (mode_text r.auth_mode))
          (str (backend_text r.backend))
          (or_null (settings_json r.ipsec))
          (str r.gateway)
          (int (pos r.port))
          (fingerprint_json r.trusted_certificate_fingerprint)
        ≡ ok r
  unfolding checked_request
  checked_request-written r (gateway, port, fingerprint, held) =
      simp
        (
          auth_mode_of-text r.auth_mode,
          backend_of-text r.backend,
          held,
          validate_gateway-str r.gateway gateway,
          validate_port-int r.port port,
          fingerprint,
        )
        refl

  parse-connect_payload :
      (id : Option String) (r : ConnectRequest) (held : Option IpsecSettings)
      → r.ipsec ≡ held
      → parse_request_payload c (object (connect_payload id (record r { ipsec = held }))) ≡ (
          checked_request c true
            (str (mode_text r.auth_mode))
            (str (backend_text r.backend))
            (or_null (settings_json held))
            (str r.gateway)
            (int (pos r.port))
            (fingerprint_json r.trusted_certificate_fingerprint)
          >>= λ r'. ok (connect, some r', some (sent_id id)))
  unfolding parse_request_payload connect_payload payload_of operation_of
  parse-connect_payload id r none e = refl
  parse-connect_payload id r (some s) e = refl

  -- A request that the client's side has checked is read by the helper, from the object that the
  -- client sends for it, as the same request with the id that was sent, where `strip` is idempotent, the empty text is a valid
  -- identifier and a digest has no white space, colons or capitals.
  pub parse_request_payload-connect_payload :
      TextLaws c.texts
      → HexLaws c
      → (gateway port mode fingerprint name settings : Json) (id : Option String)
        (r : ConnectRequest)
      → connect_request_from_fields c gateway port mode fingerprint name settings ≡ ok r
      → parse_request_payload c (object (connect_payload id r))
        ≡ ok (connect, some r, some (sent_id id))
  unfolding connect_request_from_fields
  parse_request_payload-connect_payload laws hex gateway port mode fingerprint name settings id r
        h =
      let again =
        subst (Ensures (RequestAgain c)) h
          (checked_request-again c laws hex mode name settings gateway port fingerprint) in
      parse-connect_payload id r r.ipsec refl
      ∙ ap (λ (m : Checked ConnectRequest). m >>= λ r'. ok (connect, some r', some (sent_id id)))
          (checked_request-written r again)
