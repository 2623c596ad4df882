-- ===== src/Helper/Validation/Accepted.antt =====
-- What the helper's side of the checks guarantees of any object (helper/validation.py).
use fortigate_vpn_linux_gui.Prelude.{
  ℕ, String, Bool, true, false, not, ◌&&◌, Option, none, some, str_eq, leb, any, contains,
  if◌then◌else◌, ok, raised, Ensures, Ensures-bind, Bool-cases, inl, inr, ◌≡◌, refl, sym, pos,
  negsuc, ℤ, arith,
}
use mathlib.Core.Path.{subst}
use fortigate_vpn_linux_gui.Json.{
  Json, null, boolean, int, float, str, array, object, Members, keys, get,
}
use fortigate_vpn_linux_gui.Profiles.Ipsec.{IpsecSettings, is_supported}
use fortigate_vpn_linux_gui.Profiles.Ipsec.Parse.{or_raise, in_range, Parsed}
use fortigate_vpn_linux_gui.Profiles.Ipsec.Payload.{parse_ipsec_settings}
use fortigate_vpn_linux_gui.Vpn.Backend.Types.{ConnectRequest, BackendName, openfortivpn, ipsec}
use fortigate_vpn_linux_gui.Helper.Service.Openfortivpn.{Failure}
use fortigate_vpn_linux_gui.Helper.Validation.{
  Checks, Operation, hello, connect, disconnect, status, credentials, Checked, auth_mode_of,
  backend_of, operation_of, forbidden_keys, allowed_keys, Request, gateway_failure, unless,
  validate_gateway, bad_port, port_number, validate_port, normalized, normalize_sha256_fingerprint,
  given, validate_fingerprint, supported, ipsec_of, is_absent, checked_request, request_of,
  parse_request_payload,
}

anything : {A : Type 0} (m : Checked A) → Ensures (λ a. Unit) m
anything (ok a) = tt
anything (raised e) = tt

-- A check that raises where its test holds, and goes on otherwise.
Ensures-if :
    {A : Type 0} (P : A → Type 0) (b : Bool) (failure : Failure) (m : Checked A)
    → (b ≡ false → Ensures P m)
    → Ensures P (if b then raised failure else m)
Ensures-if P true failure m h = tt
Ensures-if P false failure m h = h refl

-- The backend and its settings belong together.
abbrev pub HasSettings : BackendName → Option IpsecSettings → Type 0
HasSettings openfortivpn none = Unit
HasSettings openfortivpn (some s) = ⊥
HasSettings ipsec none = ⊥
HasSettings ipsec (some s) = is_supported s ≡ true

-- No forbidden field, and no field that the protocol does not have.
abbrev pub IsClean : Members → Type 0
IsClean d =
    (any (contains forbidden_keys) (keys d) ≡ false)
    × (any (λ key. not (contains (allowed_keys connect) key)) (keys d) ≡ false)

module _ (c : Checks) where
  abbrev pub IsPlainHost : String → Type 0
  IsPlainHost g =
      (str_eq g "" ≡ false)
      × (c.texts.has_control g ≡ false)
      × (c.has_meta g ≡ false)
      × (c.has_separator g ≡ false)

  abbrev pub IsPort : ℕ → Type 0
  IsPort n = (leb 1 n && leb n 65535) ≡ true

  abbrev pub IsDigest : Option String → Type 0
  IsDigest none = Unit
  IsDigest (some d) = c.is_hex d ≡ true

  abbrev pub IsAcceptable : ConnectRequest → Type 0
  IsAcceptable r =
      IsPlainHost r.gateway
      × IsPort r.port
      × IsDigest r.trusted_certificate_fingerprint
      × HasSettings r.backend r.ipsec

  gateway_failure-IsPlainHost : (g : String) → gateway_failure c g ≡ none → IsPlainHost g
  unfolding gateway_failure
  gateway_failure-IsPlainHost g h = ground arith

  unless-IsPlainHost :
      (f : Option Failure) (g : String)
      → gateway_failure c g ≡ f
      → Ensures IsPlainHost (unless c f g)
  unless-IsPlainHost none g h = gateway_failure-IsPlainHost g h
  unless-IsPlainHost (some failure) g h = tt

  validate_gateway-IsPlainHost : (v : Json) → Ensures IsPlainHost (validate_gateway c v)
  unfolding validate_gateway
  validate_gateway-IsPlainHost null = tt
  validate_gateway-IsPlainHost (boolean b) = tt
  validate_gateway-IsPlainHost (int n) = tt
  validate_gateway-IsPlainHost (float t) = tt
  validate_gateway-IsPlainHost (array vs) = tt
  validate_gateway-IsPlainHost (object ms) = tt
  validate_gateway-IsPlainHost (str s) = unless-IsPlainHost (gateway_failure c s) s refl

  in_range-IsPort : (z : ℤ) → Ensures IsPort (or_raise (bad_port c) (in_range 1 65535 z))
  in_range-IsPort (negsuc n) = tt
  in_range-IsPort (pos n) = elim (Bool-cases (leb 1 n && leb n 65535)) [
    | inl e ↦
        subst (λ (b : Bool). Ensures IsPort (or_raise (bad_port c) (if b then some n else none)))
          (sym e) e
    | inr e ↦
        subst (λ (b : Bool). Ensures IsPort (or_raise (bad_port c) (if b then some n else none)))
          (sym e) tt
  ]

  validate_port-IsPort : (v : Json) → Ensures IsPort (validate_port c v)
  unfolding validate_port
  validate_port-IsPort v =
      Ensures-bind (λ z. Unit) IsPort (port_number c v)
        (λ n. or_raise (bad_port c) (in_range 1 65535 n)) (anything (port_number c v))
        (λ z h. in_range-IsPort z)

  normalized-IsDigest : (s : String) → Ensures IsDigest (given c (normalized c s))
  normalized-IsDigest s =
      let d = c.lower (c.compact s) in
      elim (Bool-cases (c.is_hex d)) [
        | inl e ↦
            subst (λ (b : Bool). Ensures IsDigest (given c (if b then some d else none))) (sym e) e
        | inr e ↦
            subst (λ (b : Bool). Ensures IsDigest (given c (if b then some d else none))) (sym e) tt
      ]

  validate_fingerprint-IsDigest : (v : Json) → Ensures IsDigest (validate_fingerprint c v)
  unfolding validate_fingerprint normalize_sha256_fingerprint
  validate_fingerprint-IsDigest null = tt
  validate_fingerprint-IsDigest (boolean b) = tt
  validate_fingerprint-IsDigest (int n) = tt
  validate_fingerprint-IsDigest (float t) = tt
  validate_fingerprint-IsDigest (array vs) = tt
  validate_fingerprint-IsDigest (object ms) = tt
  validate_fingerprint-IsDigest (str s) = elim (Bool-cases (str_eq s "")) [
    | inl e ↦
        subst (λ (b : Bool). Ensures IsDigest (if b then ok none else given c (normalized c s)))
          (sym e) tt
    | inr e ↦
        subst (λ (b : Bool). Ensures IsDigest (if b then ok none else given c (normalized c s)))
          (sym e) (normalized-IsDigest s)
  ]

  is_supported-true : (s : IpsecSettings) → not (is_supported s) ≡ false → is_supported s ≡ true
  is_supported-true s h = ground arith

  supported-HasSettings : (r : Parsed IpsecSettings) → Ensures (HasSettings ipsec) (supported c r)
  supported-HasSettings (raised m) = tt
  supported-HasSettings (ok s) =
      Ensures-if (HasSettings ipsec) (not (is_supported s)) _ (ok (some s))
        (λ h. is_supported-true s h)

  ipsec_of-HasSettings :
      (strict : Bool) (name : BackendName) (v : Json)
      → Ensures (HasSettings name) (ipsec_of c strict name v)
  unfolding ipsec_of
  ipsec_of-HasSettings strict ipsec v = supported-HasSettings (parse_ipsec_settings c.texts v)
  ipsec_of-HasSettings strict openfortivpn v =
      Ensures-if (HasSettings openfortivpn) (strict && not (is_absent v)) _ (ok none) (λ h. tt)

  checked_request-IsAcceptable :
      (strict : Bool) (mode name settings gateway port fingerprint : Json)
      → Ensures IsAcceptable (checked_request c strict mode name settings gateway port fingerprint)
  unfolding checked_request
  checked_request-IsAcceptable strict mode name settings gateway port fingerprint =
      Ensures-bind (λ a. Unit) IsAcceptable (auth_mode_of mode) _ (anything (auth_mode_of mode))
        (λ m hm.
          Ensures-bind (λ a. Unit) IsAcceptable (backend_of name) _ (anything (backend_of name))
            (λ b hb.
              Ensures-bind (HasSettings b) IsAcceptable (ipsec_of c strict b settings) _
                (ipsec_of-HasSettings strict b settings)
                (λ held hi.
                  Ensures-bind IsPlainHost IsAcceptable (validate_gateway c gateway) _
                    (validate_gateway-IsPlainHost gateway)
                    (λ g hg.
                      Ensures-bind IsPort IsAcceptable (validate_port c port) _
                        (validate_port-IsPort port)
                        (λ n hn.
                          Ensures-bind IsDigest IsAcceptable (validate_fingerprint c fingerprint) _
                            (validate_fingerprint-IsDigest fingerprint)
                            (λ d hd. (hg, hn, hd, hi)))))))

  abbrev Accepts : Members → Request c → Type 0
  Accepts d (connect, some r, id) = IsClean d × IsAcceptable r
  Accepts d (connect, none, id) = ⊥
  Accepts d (_, some r, id) = ⊥
  Accepts d (_, none, id) = Unit

  request_of-Accepts :
      (d : Members) (operation : Operation)
      → any (contains forbidden_keys) (keys d) ≡ false
      → any (λ key. not (contains (allowed_keys operation) key)) (keys d) ≡ false
      → Ensures (Accepts d) (request_of c operation d)
  request_of-Accepts d hello clean allowed = tt
  request_of-Accepts d disconnect clean allowed = tt
  request_of-Accepts d status clean allowed = tt
  request_of-Accepts d credentials clean allowed = tt
  request_of-Accepts d connect clean allowed =
      Ensures-bind IsAcceptable (Accepts d) _ _ (checked_request-IsAcceptable true _ _ _ _ _ _)
        (λ r h. ((clean, allowed), h))

  parse-Accepts : (d : Members) → Ensures (Accepts d) (parse_request_payload c (object d))
  unfolding parse_request_payload
  parse-Accepts d = Ensures-if (Accepts d) (any (contains forbidden_keys) (keys d)) _ _ (λ clean.
      Ensures-bind (λ a. Unit) (Accepts d) (operation_of (get "operation" d)) _
        (anything (operation_of (get "operation" d)))
        (λ operation u.
          Ensures-if (Accepts d) (any (λ key. not (contains (allowed_keys operation) key)) (keys d))
            _ _ (λ allowed. request_of-Accepts d operation clean allowed)))

  -- A connect request that the helper accepts, whatever the object, has only fields of the protocol,
  -- a host that is not empty and has no control characters, shell syntax or path separators, a port
  -- from 1 to 65535, no fingerprint or a SHA-256 digest, and supported IPsec settings exactly where the
  -- backend is IPsec.
  pub parse_request_payload-IsAcceptable :
      (d : Members) (r : ConnectRequest) (id : Option String)
      → parse_request_payload c (object d) ≡ ok (connect, some r, id)
      → IsClean d × IsAcceptable r
  parse_request_payload-IsAcceptable d r id h = subst (Ensures (Accepts d)) h (parse-Accepts d)
