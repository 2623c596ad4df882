-- ===== src/Helper/Validation.antt =====
-- The checks of a request on both sides of the helper (helper/validation.py). Regular expressions, the
-- `ipaddress` package and Python's text methods are the record `Checks`. A request holds its IPsec
-- settings, of which the code keeps the JSON form; its id is returned beside it.
use fortigate_vpn_linux_gui.Prelude.{
  ℕ, ℤ, pos, String, Bool, true, false, not, ◌&&◌, ◌||◌, Option, none, some, List, [], ◌∷◌, ◌++◌,
  any, contains, str_eq, if◌then◌else◌, Result, ok, raised, ◌>>=◌,
}
use fortigate_vpn_linux_gui.Json.{
  Json, null, boolean, int, float, str, array, object, Members, empty, member, Fields, get, get_or,
  keys, payload_of,
}
use fortigate_vpn_linux_gui.Profiles.Ipsec.{IpsecSettings, is_supported}
use fortigate_vpn_linux_gui.Profiles.Ipsec.Parse.{Texts, chosen, or_raise, in_range, Parsed}
use fortigate_vpn_linux_gui.Profiles.Ipsec.Payload.{parse_ipsec_settings, to_json}
use fortigate_vpn_linux_gui.Vpn.Backend.Types.{
  ConnectRequest, Credentials, AuthMode, saml, standard, BackendName, openfortivpn, ipsec,
}
use fortigate_vpn_linux_gui.Helper.Protocol.{optional_str}
use fortigate_vpn_linux_gui.Helper.Service.Openfortivpn.{Failure, helper_error, internal_error}
mod Accepted
mod Again
mod Client
mod Sent
mod Tests

-- `compact` removes white space and colons; `is_hex` asks for 64 lower-case hexadecimal digits.
pub record Checks : Type 0 where
  pub texts : Texts
  pub has_meta : String → Bool
  pub has_separator : String → Bool
  pub unbracketed : String → String
  pub is_hostname : String → Bool
  pub is_ip_address : String → Bool
  pub compact : String → String
  pub lower : String → String
  pub is_hex : String → Bool
  pub support_summary : IpsecSettings → String

pub data Operation : Type 0 where
  hello connect disconnect status credentials : Operation

abbrev pub operation_text : Operation → String
operation_text hello = "hello"
operation_text connect = "connect"
operation_text disconnect = "disconnect"
operation_text status = "status"
operation_text credentials = "credentials"

abbrev pub forbidden_keys : List String
forbidden_keys =
    "command" ∷ "argv" ∷ "args" ∷ "executable" ∷ "executable_path" ∷ "shell" ∷ "options"
    ∷ "extra_args" ∷ "cookie" ∷ "token" ∷ "tokenid" ∷ "saml" ∷ []

abbrev pub allowed_keys : Operation → List String
allowed_keys credentials = "id" ∷ "operation" ∷ "psk" ∷ "username" ∷ "password" ∷ []
allowed_keys _ =
    "id" ∷ "operation" ∷ "gateway" ∷ "port" ∷ "auth_mode" ∷ "trusted_certificate_fingerprint"
    ∷ "backend" ∷ "ipsec" ∷ []

abbrev pub mode_text : AuthMode → String
mode_text saml = "saml"
mode_text standard = "standard"

abbrev pub backend_text : BackendName → String
backend_text openfortivpn = "openfortivpn"
backend_text ipsec = "ipsec"

abbrev pub Checked : Type 0 → Type 0
Checked = Result Failure

abbrev pub refuse : {A : Type 0} → String → String → Checked A
refuse code message = raised (helper_error code message)

abbrev pub text_of : Json → Option String
text_of = optional_str

abbrev pub chosen_of : {A : Type 0} → (A → String) → List A → Option String → Option A
chosen_of text allowed none = none
chosen_of text allowed (some s) = chosen text allowed s

unfoldable pub auth_mode_of : Json → Checked AuthMode
auth_mode_of value =
    or_raise (helper_error "INVALID_AUTH_MODE" "Authentication mode must be saml or standard.")
      (chosen_of mode_text (saml ∷ standard ∷ []) (text_of value))

unfoldable pub backend_of : Json → Checked BackendName
backend_of value =
    or_raise (helper_error "INVALID_BACKEND" "VPN backend must be openfortivpn or ipsec.")
      (chosen_of backend_text (openfortivpn ∷ ipsec ∷ []) (text_of value))

unfoldable pub operation_of : Json → Checked Operation
operation_of value =
    or_raise (helper_error "UNSUPPORTED_OPERATION" "Unsupported helper operation.") (
      chosen_of operation_text (hello ∷ connect ∷ disconnect ∷ status ∷ credentials ∷ [])
        (text_of value))

-- `payload in (None, {})`
abbrev pub is_absent : Json → Bool
is_absent null = true
is_absent (object empty) = true
is_absent _ = false

module _ (c : Checks) where
  abbrev pub bad_host : Failure
  bad_host = helper_error "INVALID_GATEWAY" "Gateway must be a hostname or IP address."

  -- What `validate_gateway` raises for a text.
  unfoldable pub gateway_failure : String → Option Failure
  gateway_failure s =
      if str_eq s ""
      then some bad_host
      else if not (str_eq (c.texts.strip s) s)
      then some (
          helper_error "INVALID_GATEWAY" "Gateway must not contain leading or trailing whitespace.")
      else if c.texts.has_control s
      then some (helper_error "INVALID_GATEWAY" "Gateway must not contain control characters.")
      else if c.has_meta s
      then some (
          helper_error "INVALID_GATEWAY" "Gateway must not contain shell or whitespace characters.")
      else if c.has_separator s
      then some (helper_error "INVALID_GATEWAY" "Gateway must not contain path separators.")
      else if c.is_hostname (c.unbracketed s)
      then none
      else if c.is_ip_address (c.unbracketed s)
      then none
      else some bad_host

  abbrev pub unless : Option Failure → String → Checked String
  unless none s = ok s
  unless (some failure) s = raised failure

  unfoldable pub validate_gateway : Json → Checked String
  unfolding gateway_failure
  validate_gateway (str s) = unless (gateway_failure s) s
  validate_gateway _ = raised bad_host

  abbrev pub bad_port : Failure
  bad_port = helper_error "INVALID_PORT" "Port must be an integer between 1 and 65535."

  -- A text of digits that `int` refuses raises an error of another kind.
  abbrev pub converted : Parsed ℤ → Checked ℤ
  converted (ok n) = ok n
  converted (raised message) = raised internal_error

  abbrev pub port_number : Json → Checked ℤ
  port_number (int n) = ok n
  port_number (str s) =
      if c.texts.is_digit (c.texts.strip s)
      then converted (c.texts.to_int (c.texts.strip s))
      else raised bad_port
  port_number _ = raised bad_port

  unfoldable pub validate_port : Json → Checked ℕ
  validate_port value = port_number value >>= λ n. or_raise bad_port (in_range 1 65535 n)

  abbrev pub normalized : String → Option String
  normalized s = let digest = c.lower (c.compact s) in if c.is_hex digest then some digest else none

  -- `normalize_sha256_fingerprint`
  unfoldable pub normalize_sha256_fingerprint : Json → Option String
  normalize_sha256_fingerprint (str s) = normalized s
  normalize_sha256_fingerprint _ = none

  abbrev pub is_omitted : Json → Bool
  is_omitted null = true
  is_omitted (str s) = str_eq s ""
  is_omitted _ = false

  abbrev pub given : Option String → Checked (Option String)
  given none = refuse "INVALID_FINGERPRINT" "Certificate fingerprint must be a SHA-256 hex digest."
  given (some digest) = ok (some digest)

  unfoldable pub validate_fingerprint : Json → Checked (Option String)
  unfolding normalize_sha256_fingerprint
  validate_fingerprint value =
      if is_omitted value then ok none else given (normalize_sha256_fingerprint value)

  abbrev pub supported : Parsed IpsecSettings → Checked (Option IpsecSettings)
  supported (raised message) = refuse "INVALID_IPSEC" message
  supported (ok s) =
      if not (is_supported s) then refuse "UNSUPPORTED_IPSEC" (c.support_summary s) else ok (some s)

  -- The IPsec settings of a request; `strict` is the helper's side, which refuses them with another
  -- backend.
  unfoldable pub ipsec_of : Bool → BackendName → Json → Checked (Option IpsecSettings)
  unfolding is_supported
  ipsec_of strict ipsec value = supported (parse_ipsec_settings c.texts value)
  ipsec_of strict openfortivpn value =
      if strict && not (is_absent value)
      then refuse "INVALID_IPSEC" "IPsec settings are only valid for IPsec."
      else ok none

  -- The end of both parsers: the checks in the order of the code.
  unfoldable pub checked_request :
      Bool → Json → Json → Json → Json → Json → Json → Checked ConnectRequest
  unfolding auth_mode_of backend_of ipsec_of validate_gateway validate_port validate_fingerprint
  checked_request strict auth_mode backend settings gateway port fingerprint =
      auth_mode_of auth_mode >>= λ mode. backend_of backend >>= λ name.
      ipsec_of strict name settings >>= λ held. validate_gateway gateway >>= λ host.
      validate_port port >>= λ number. validate_fingerprint fingerprint >>= λ digest. ok (record {
        gateway = host;
        port = number;
        auth_mode = mode;
        trusted_certificate_fingerprint = digest;
        backend = name;
        ipsec = held;
      })

  -- `connect_request_from_fields`
  unfoldable pub connect_request_from_fields :
      Json → Json → Json → Json → Json → Json → Checked ConnectRequest
  unfolding checked_request
  connect_request_from_fields gateway port auth_mode fingerprint backend settings =
      checked_request false auth_mode backend settings gateway port fingerprint

  abbrev pub Request : Type 0
  Request = Operation × Option ConnectRequest × Option String

  abbrev pub request_of : Operation → Members → Checked Request
  request_of connect d =
      checked_request true (get_or "auth_mode" (str "standard") d)
        (get_or "backend" (str "openfortivpn") d) (get "ipsec" d) (get "gateway" d) (get "port" d)
        (get "trusted_certificate_fingerprint" d)
      >>= λ r. ok (connect, some r, text_of (get "id" d))
  request_of other d = ok (other, none, text_of (get "id" d))

  -- `parse_request_payload`, with the id that `parse_request_line` reads.
  unfoldable pub parse_request_payload : Json → Checked Request
  unfolding checked_request operation_of
  parse_request_payload (object d) =
      if any (contains forbidden_keys) (keys d)
      then refuse "UNSUPPORTED_FIELD" "Request contains forbidden command or executable fields."
      else operation_of (get "operation" d) >>= λ operation.
          if any (λ key. not (contains (allowed_keys operation) key)) (keys d)
          then refuse "UNSUPPORTED_FIELD" "Request contains unsupported fields."
          else request_of operation d
  parse_request_payload _ = refuse "INVALID_REQUEST" "Request must be a JSON object."
