-- ===== src/Helper/Validation/Again.antt =====
-- Checked values pass the same checks again (helper/validation.py).
use fortigate_vpn_linux_gui.Prelude.{
  ℕ, pos, String, Bool, true, false, not, Option, none, some, str_eq, str_eq_iff, if◌then◌else◌, ok,
  raised, Ensures, Ensures-bind, Bool-cases, inl, inr, ◌≡◌, refl, sym, ap, ◌∙◌,
}
use mathlib.Core.Path.{subst}
use fortigate_vpn_linux_gui.Json.{Json, null, boolean, int, float, str, array, object}
use fortigate_vpn_linux_gui.Profiles.Ipsec.{IpsecSettings, is_supported}
use fortigate_vpn_linux_gui.Profiles.Ipsec.Parse.{or_raise, in_range, Parsed}
use fortigate_vpn_linux_gui.Profiles.Ipsec.Payload.{parse_ipsec_settings, to_json}
use fortigate_vpn_linux_gui.Profiles.Ipsec.Stored.{range-again}
use fortigate_vpn_linux_gui.Profiles.Ipsec.Reparse.{TextLaws}
use fortigate_vpn_linux_gui.Profiles.Ipsec.RoundTrip.{parse_ipsec_settings-to_json}
use fortigate_vpn_linux_gui.Vpn.Backend.Types.{ConnectRequest, BackendName, openfortivpn, ipsec}
use fortigate_vpn_linux_gui.Helper.Service.Openfortivpn.{Failure, helper_error}
use fortigate_vpn_linux_gui.Helper.Validation.{
  Checks, Checked, auth_mode_of, backend_of, gateway_failure, unless, validate_gateway, bad_port,
  port_number, validate_port, normalized, normalize_sha256_fingerprint, given, validate_fingerprint,
  supported, ipsec_of, checked_request,
}
use fortigate_vpn_linux_gui.Helper.Validation.Client.{fingerprint_json, settings_json}

any_checked : {A : Type 0} (m : Checked A) → Ensures (λ a. Unit) m
any_checked (ok a) = tt
any_checked (raised e) = tt

abbrev pub or_null : Option Json → Json
or_null none = null
or_null (some v) = v

module _ (c : Checks) where
  -- Sixty-four hexadecimal digits have no white space, colons or capitals, and are not empty.
  abbrev pub HexLaws : Type 0
  HexLaws =
      ((s : String) → c.is_hex s ≡ true → (c.compact s ≡ s) × (c.lower s ≡ s))
      × (c.is_hex "" ≡ false)

  abbrev pub GatewayAgain : String → Type 0
  GatewayAgain g = gateway_failure c g ≡ none

  abbrev pub PortAgain : ℕ → Type 0
  PortAgain n = or_raise (bad_port c) (in_range 1 65535 (pos n)) ≡ ok n

  abbrev pub FingerprintAgain : Option String → Type 0
  FingerprintAgain f = validate_fingerprint c (fingerprint_json f) ≡ ok f

  abbrev pub IpsecAgain : BackendName → Option IpsecSettings → Type 0
  IpsecAgain name held = ipsec_of c true name (or_null (settings_json held)) ≡ ok held

  unless-again :
      (f : Option Failure) (g : String)
      → gateway_failure c g ≡ f
      → Ensures GatewayAgain (unless c f g)
  unless-again none g h = h
  unless-again (some failure) g h = tt

  validate_gateway-again : (v : Json) → Ensures GatewayAgain (validate_gateway c v)
  unfolding validate_gateway
  validate_gateway-again null = tt
  validate_gateway-again (boolean b) = tt
  validate_gateway-again (int n) = tt
  validate_gateway-again (float t) = tt
  validate_gateway-again (array vs) = tt
  validate_gateway-again (object ms) = tt
  validate_gateway-again (str s) = unless-again (gateway_failure c s) s refl

  validate_port-again : (v : Json) → Ensures PortAgain (validate_port c v)
  unfolding validate_port
  validate_port-again v =
      Ensures-bind (λ z. Unit) PortAgain (port_number c v)
        (λ n. or_raise (bad_port c) (in_range 1 65535 n)) (any_checked (port_number c v))
        (λ z h. range-again 1 65535 (bad_port c) z)

  hex-nonempty : HexLaws → (d : String) → c.is_hex d ≡ true → str_eq d "" ≡ false
  hex-nonempty laws d h = elim (Bool-cases (str_eq d "")) [
    | inl e ↦ let empty = (str_eq_iff d "").0 e in cc (h, laws.1, ap c.is_hex empty)
    | inr e ↦ e
  ]

  digest-again : HexLaws → (d : String) → c.is_hex d ≡ true → FingerprintAgain (some d)
  unfolding validate_fingerprint normalize_sha256_fingerprint
  digest-again laws d h =
      let (compact, lower) = laws.0 d h in
      let nonempty = hex-nonempty laws d h in rw (nonempty, compact, lower, h) refl

  given-again : HexLaws → (s : String) → Ensures FingerprintAgain (given c (normalized c s))
  given-again laws s =
      let d = c.lower (c.compact s) in
      elim (Bool-cases (c.is_hex d)) [
        | inl e ↦
            subst (λ (b : Bool). Ensures FingerprintAgain (given c (if b then some d else none)))
              (sym e) (digest-again laws d e)
        | inr e ↦
            subst (λ (b : Bool). Ensures FingerprintAgain (given c (if b then some d else none)))
              (sym e) tt
      ]

  none-again : FingerprintAgain none
  unfolding validate_fingerprint
  none-again = refl

  validate_fingerprint-again :
      HexLaws → (v : Json) → Ensures FingerprintAgain (validate_fingerprint c v)
  unfolding validate_fingerprint normalize_sha256_fingerprint
  validate_fingerprint-again laws null = none-again
  validate_fingerprint-again laws (boolean b) = tt
  validate_fingerprint-again laws (int n) = tt
  validate_fingerprint-again laws (float t) = tt
  validate_fingerprint-again laws (array vs) = tt
  validate_fingerprint-again laws (object ms) = tt
  validate_fingerprint-again laws (str s) = elim (Bool-cases (str_eq s "")) [
    | inl e ↦
        subst
          (λ (b : Bool). Ensures FingerprintAgain (if b then ok none else given c (normalized c s)))
          (sym e) none-again
    | inr e ↦
        subst
          (λ (b : Bool). Ensures FingerprintAgain (if b then ok none else given c (normalized c s)))
          (sym e) (given-again laws s)
  ]

  supported-true :
      (s : IpsecSettings) → not (is_supported s) ≡ false → supported c (ok s) ≡ ok (some s)
  supported-true s e = rw e refl

  supported-false :
      (s : IpsecSettings)
      → not (is_supported s) ≡ true
      → (failure : Failure) × (supported c (ok s) ≡ raised failure)
  supported-false s e = (helper_error "UNSUPPORTED_IPSEC" (c.support_summary s), rw e refl)

  supported-again :
      (r : Parsed IpsecSettings)
      → ((s : IpsecSettings) → r ≡ ok s → parse_ipsec_settings c.texts (object (to_json s)) ≡ ok s)
      → Ensures (IpsecAgain ipsec) (supported c r)
  unfolding ipsec_of
  supported-again (raised m) h = tt
  supported-again (ok s) h = elim (Bool-cases (not (is_supported s))) [
    | inl e ↦
        let (failure, f) = supported-false s e in subst (Ensures (IpsecAgain ipsec)) (sym f) tt
    | inr e ↦
        let f = supported-true s e in
        subst (Ensures (IpsecAgain ipsec)) (sym f) (ap (supported c) (h s refl) ∙ f)
  ]

  ipsec_of-again :
      TextLaws c.texts
      → (name : BackendName) (v : Json) → Ensures (IpsecAgain name) (ipsec_of c false name v)
  unfolding ipsec_of
  ipsec_of-again laws ipsec v =
      supported-again (parse_ipsec_settings c.texts v)
        (λ s h. parse_ipsec_settings-to_json c.texts laws v s h)
  ipsec_of-again laws openfortivpn v = refl

  abbrev pub RequestAgain : ConnectRequest → Type 0
  RequestAgain r =
      GatewayAgain r.gateway
      × PortAgain r.port
      × FingerprintAgain r.trusted_certificate_fingerprint
      × IpsecAgain r.backend r.ipsec

  pub checked_request-again :
      TextLaws c.texts
      → HexLaws
      → (mode name settings gateway port fingerprint : Json)
      → Ensures RequestAgain (checked_request c false mode name settings gateway port fingerprint)
  unfolding checked_request
  checked_request-again laws hex mode name settings gateway port fingerprint =
      Ensures-bind (λ a. Unit) RequestAgain (auth_mode_of mode) _ (any_checked (auth_mode_of mode))
        (λ m hm.
          Ensures-bind (λ a. Unit) RequestAgain (backend_of name) _ (any_checked (backend_of name))
            (λ b hb.
              Ensures-bind (IpsecAgain b) RequestAgain (ipsec_of c false b settings) _
                (ipsec_of-again laws b settings)
                (λ held hi.
                  Ensures-bind GatewayAgain RequestAgain (validate_gateway c gateway) _
                    (validate_gateway-again gateway)
                    (λ g hg.
                      Ensures-bind PortAgain RequestAgain (validate_port c port) _
                        (validate_port-again port)
                        (λ n hn.
                          Ensures-bind FingerprintAgain RequestAgain
                            (validate_fingerprint c fingerprint) _
                            (validate_fingerprint-again hex fingerprint)
                            (λ d hd. (hg, hn, hd, hi)))))))
