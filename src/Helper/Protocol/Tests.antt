-- ===== src/Helper/Protocol/Tests.antt =====
-- The round trip of the helper's events at a small event (helper/protocol.py).
use fortigate_vpn_linux_gui.Prelude.{pos, String, true, none, some, [], ◌∷◌, ok, ◌≡◌, refl}
use fortigate_vpn_linux_gui.Json.{Json, int, str, array, item, end, Members, empty, member}
use fortigate_vpn_linux_gui.Vpn.Backend.Types.{hello}
use fortigate_vpn_linux_gui.Helper.Protocol.{HelperEvent, encode_event, event_from_payload}
use fortigate_vpn_linux_gui.Helper.Protocol.RoundTrip.{event_from_payload-encode_event}
use fortigate_vpn_linux_gui.Helper.Protocol.Received.{event_from_payload-again}

abbrev hello_event : HelperEvent
hello_event = record {
  kind = hello;
  request_id = some "1";
  state = none;
  pid = some (pos 7);
  line = none;
  url = none;
  certificate = some (record { subject = "s"; issuer = "i"; sha256 = "0" });
  code = none;
  message = some "";
  exit_code = none;
  helper_version = some "0.9.0";
  protocol_version = some (pos 1);
  running = some true;
  argv = "a" ∷ "b" ∷ [];
  selected_executable = none;
  openfortivpn_version = none;
  supports_saml = none;
  backend = none;
  capabilities = "x" ∷ "y" ∷ [];
}

abbrev shown : Json → String
shown value = "?"

event_from_payload-encode_event_example :
    event_from_payload shown (encode_event hello_event) ≡ ok hello_event
event_from_payload-encode_event_example =
    event_from_payload-encode_event shown hello_event (refl, (refl, tt)) (refl, (refl, tt))

-- An object with a repeated capability, a number among them and a text in the place of a number.
abbrev loose_payload : Members
loose_payload = member "type" (str "hello") (
    member "pid" (str "7") (
      member "capabilities" (array (item (str "x") (item (int (pos 1)) (item (str "x") end))))
        empty))

abbrev loose_event : HelperEvent
loose_event = record hello_event {
  request_id = none;
  pid = none;
  certificate = none;
  message = none;
  helper_version = none;
  protocol_version = none;
  running = none;
  argv = [];
  capabilities = "x" ∷ [];
}

event_from_payload-again_example :
    event_from_payload shown (encode_event loose_event) ≡ ok loose_event
unfolding event_from_payload
event_from_payload-again_example = event_from_payload-again shown loose_payload loose_event refl
