-- ===== src/Helper/Validation/Client.antt =====
-- The object that the client sends (`PolkitHelperClient.connect`, system/helper_client.py).
use fortigate_vpn_linux_gui.Prelude.{
  pos, String, Option, none, some, [], ◌∷◌, str_eq, if◌then◌else◌,
}
use fortigate_vpn_linux_gui.Json.{Json, null, int, str, object, Members, payload_of}
use fortigate_vpn_linux_gui.Profiles.Ipsec.{IpsecSettings}
use fortigate_vpn_linux_gui.Profiles.Ipsec.Payload.{to_json}
use fortigate_vpn_linux_gui.Vpn.Backend.Types.{ConnectRequest}
use fortigate_vpn_linux_gui.Helper.Validation.{mode_text, backend_text}

abbrev pub fingerprint_json : Option String → Json
fingerprint_json none = null
fingerprint_json (some digest) = str digest

abbrev pub settings_json : Option IpsecSettings → Option Json
settings_json none = none
settings_json (some s) = some (object (to_json s))

-- `validated.request_id or "connect"`
abbrev pub sent_id : Option String → String
sent_id none = "connect"
sent_id (some id) = if str_eq id "" then "connect" else id

-- The object that the client sends for a validated request.
unfoldable pub connect_payload : Option String → ConnectRequest → Members
connect_payload id r = payload_of (
    ("id", some (str (sent_id id)))
    ∷ ("operation", some (str "connect"))
    ∷ ("gateway", some (str r.gateway))
    ∷ ("port", some (int (pos r.port)))
    ∷ ("auth_mode", some (str (mode_text r.auth_mode)))
    ∷ ("trusted_certificate_fingerprint", some (fingerprint_json r.trusted_certificate_fingerprint))
    ∷ ("backend", some (str (backend_text r.backend)))
    ∷ ("ipsec", settings_json r.ipsec)
    ∷ [])
