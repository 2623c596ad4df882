-- ===== src/Helper/Protocol.antt =====
-- The events of the helper and how they travel as JSON objects (helper/protocol.py). `str()` of a
-- value that is no text is a parameter, since Python's builtin writes it.
use fortigate_vpn_linux_gui.Prelude.{
  ℤ, String, Bool, not, ◌&&◌, Option, none, some, List, [], ◌∷◌, ◌++◌, map, All, contains, str_eq,
  if◌then◌else◌, Result, ok, raised,
}
use fortigate_vpn_linux_gui.Json.{
  Json, null, boolean, int, str, array, Jsons, object, Members, Fields, get, get_or, items,
  of_items, payload_of,
}
use fortigate_vpn_linux_gui.Vpn.Backend.Types.{
  CertificateInfo, EventKind, hello, ack, error_kind, state_kind, log_kind, saml_url, saml_listener,
  saml_waiting, saml_success, saml_failure, certificate_kind, connected_kind, started, exit, status,
}
mod RoundTrip
mod Received
mod Tests

pub record HelperError : Type 0 where
  pub code : String
  pub message : String

pub record HelperEvent : Type 0 where
  pub kind : EventKind
  pub request_id : Option String
  pub state : Option String
  pub pid : Option ℤ
  pub line : Option String
  pub url : Option String
  pub certificate : Option CertificateInfo
  pub code : Option String
  pub message : Option String
  pub exit_code : Option ℤ
  pub helper_version : Option String
  pub protocol_version : Option ℤ
  pub running : Option Bool
  pub argv : List String
  pub selected_executable : Option String
  pub openfortivpn_version : Option String
  pub supports_saml : Option Bool
  pub backend : Option String
  pub capabilities : List String

-- `HelperEventKind.value`
abbrev pub kind_value : EventKind → String
kind_value hello = "hello"
kind_value ack = "ack"
kind_value error_kind = "error"
kind_value state_kind = "state"
kind_value log_kind = "log"
kind_value saml_url = "saml_url"
kind_value saml_listener = "saml_listener"
kind_value saml_waiting = "saml_waiting"
kind_value saml_success = "saml_success"
kind_value saml_failure = "saml_failure"
kind_value certificate_kind = "certificate"
kind_value connected_kind = "connected"
kind_value started = "started"
kind_value exit = "exit"
kind_value status = "status"

abbrev pub all_kinds : List EventKind
all_kinds =
    hello ∷ ack ∷ error_kind ∷ state_kind ∷ log_kind ∷ saml_url ∷ saml_listener ∷ saml_waiting
    ∷ saml_success ∷ saml_failure ∷ certificate_kind ∷ connected_kind ∷ started ∷ exit ∷ status ∷ []

abbrev pub first_kind : String → List EventKind → Option EventKind
first_kind text [] = none
first_kind text (k ∷ rest) = if str_eq (kind_value k) text then some k else first_kind text rest

-- `HelperEventKind(raw_type)`
unfoldable pub kind_of : String → Option EventKind
kind_of text = first_kind text all_kinds

abbrev pub opt_str : Option String → Option Json
opt_str none = none
opt_str (some s) = some (str s)

abbrev pub opt_int : Option ℤ → Option Json
opt_int none = none
opt_int (some n) = some (int n)

abbrev pub opt_bool : Option Bool → Option Json
opt_bool none = none
opt_bool (some b) = some (boolean b)

abbrev pub strs : List String → Json
strs texts = array (of_items (map str texts))

-- `if event.argv: …`
abbrev pub opt_strs : List String → Option Json
opt_strs [] = none
opt_strs (s ∷ rest) = some (strs (s ∷ rest))

-- A hello names its capabilities even where it has none.
abbrev pub is_hello : EventKind → Bool
is_hello hello = Bool.true
is_hello _ = Bool.false

abbrev pub capabilities_field : Bool → List String → Option Json
capabilities_field is_greeting capabilities =
    if is_greeting then some (strs capabilities) else opt_strs capabilities

abbrev pub cert_field : (CertificateInfo → String) → Option CertificateInfo → Option Json
cert_field f none = none
cert_field f (some info) = some (str (f info))

abbrev pub event_fields : HelperEvent → Fields
event_fields e =
    ("type", some (str (kind_value e.kind)))
    ∷ ("id", opt_str e.request_id)
    ∷ ("state", opt_str e.state)
    ∷ ("pid", opt_int e.pid)
    ∷ ("line", opt_str e.line)
    ∷ ("url", opt_str e.url)
    ∷ ("subject", cert_field (λ i. i.subject) e.certificate)
    ∷ ("issuer", cert_field (λ i. i.issuer) e.certificate)
    ∷ ("sha256", cert_field (λ i. i.sha256) e.certificate)
    ∷ ("code", opt_str e.code)
    ∷ ("message", opt_str e.message)
    ∷ ("exit_code", opt_int e.exit_code)
    ∷ ("helper_version", opt_str e.helper_version)
    ∷ ("protocol_version", opt_int e.protocol_version)
    ∷ ("running", opt_bool e.running)
    ∷ ("argv", opt_strs e.argv)
    ∷ ("selected_executable", opt_str e.selected_executable)
    ∷ ("openfortivpn_version", opt_str e.openfortivpn_version)
    ∷ ("supports_saml", opt_bool e.supports_saml)
    ∷ ("backend", opt_str e.backend)
    ∷ ("capabilities", capabilities_field (is_hello e.kind) e.capabilities)
    ∷ []

unfoldable pub encode_event : HelperEvent → Members
encode_event e = payload_of (event_fields e)

abbrev pub optional_str : Json → Option String
optional_str (str s) = some s
optional_str _ = none

abbrev pub optional_int : Json → Option ℤ
optional_int (int n) = some n
optional_int _ = none

abbrev pub optional_bool : Json → Option Bool
optional_bool (boolean b) = some b
optional_bool _ = none

abbrev pub certificate_of : Option String → Option String → Option String → Option CertificateInfo
certificate_of (some subject) (some issuer) (some sha256) =
    some (record { subject = subject; issuer = issuer; sha256 = sha256 })
certificate_of _ _ _ = none

abbrev pub is_new : List String → String → Bool
is_new seen s = not (str_eq s "") && not (contains seen s)

abbrev pub collect : List String → List Json → List String
collect seen [] = seen
collect seen (str s ∷ rest) = collect (if is_new seen s then seen ++ (s ∷ []) else seen) rest
collect seen (_ ∷ rest) = collect seen rest

unfoldable pub advertised_helper_capabilities : Json → List String
advertised_helper_capabilities (array values) = collect [] (items values)
advertised_helper_capabilities _ = []

abbrev contains_all : List String → List String → Bool
contains_all have [] = Bool.true
contains_all have (s ∷ rest) = contains have s && contains_all have rest

unfoldable pub helper_has_capabilities : Json → Json → Bool
unfolding advertised_helper_capabilities
helper_has_capabilities advertised required =
    contains_all (advertised_helper_capabilities advertised)
      (advertised_helper_capabilities required)

abbrev invalid_event : String → HelperError
invalid_event text = record { code = "INVALID_EVENT"; message = text }

module _ (str_of : Json → String) where
  -- `str(item)`
  abbrev pub text_of : Json → String
  text_of (str s) = s
  text_of value = str_of value

  abbrev pub argv_of : Json → List String
  argv_of (array values) = map text_of (items values)
  argv_of _ = []

  abbrev pub read_event : EventKind → Members → HelperEvent
  read_event kind payload = record {
    kind = kind;
    request_id = optional_str (get "id" payload);
    state = optional_str (get "state" payload);
    pid = optional_int (get "pid" payload);
    line = optional_str (get "line" payload);
    url = optional_str (get "url" payload);
    certificate =
        certificate_of (optional_str (get "subject" payload)) (optional_str (get "issuer" payload))
          (optional_str (get "sha256" payload));
    code = optional_str (get "code" payload);
    message = optional_str (get "message" payload);
    exit_code = optional_int (get "exit_code" payload);
    helper_version = optional_str (get "helper_version" payload);
    protocol_version = optional_int (get "protocol_version" payload);
    running = optional_bool (get "running" payload);
    argv = argv_of (get_or "argv" (array Jsons.end) payload);
    selected_executable = optional_str (get "selected_executable" payload);
    openfortivpn_version = optional_str (get "openfortivpn_version" payload);
    supports_saml = optional_bool (get "supports_saml" payload);
    backend = optional_str (get "backend" payload);
    capabilities = advertised_helper_capabilities (get "capabilities" payload);
  }

  abbrev pub event_of_kind : Option EventKind → Members → Result HelperError HelperEvent
  event_of_kind none payload = raised (invalid_event "Unknown helper event type.")
  event_of_kind (some kind) payload = ok (read_event kind payload)

  abbrev pub event_of_type : Option String → Members → Result HelperError HelperEvent
  event_of_type none payload = raised (invalid_event "Helper event is missing a type.")
  event_of_type (some raw_type) payload = event_of_kind (kind_of raw_type) payload

  unfoldable pub event_from_payload : Members → Result HelperError HelperEvent
  unfolding kind_of advertised_helper_capabilities
  event_from_payload payload = event_of_type (optional_str (get "type" payload)) payload
