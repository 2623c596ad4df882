-- ===== src/Helper/Validation/Tests.antt =====
-- A request sent and read (helper/validation.py).
use fortigate_vpn_linux_gui.Prelude.{pos, String, true, false, none, some, ok, str_eq, ◌≡◌, refl}
use fortigate_vpn_linux_gui.Json.{Json, Members, int, str, object, member, empty}
use fortigate_vpn_linux_gui.Profiles.Ipsec.Tests.{plain_texts}
use fortigate_vpn_linux_gui.Profiles.Ipsec.{IpsecSettings, ikev2, eap, default_ipsec_settings}
use fortigate_vpn_linux_gui.Profiles.Ipsec.Payload.{parse_ipsec_settings}
use fortigate_vpn_linux_gui.Vpn.Backend.Types.{ConnectRequest, standard, saml, openfortivpn, ipsec}
use fortigate_vpn_linux_gui.Helper.Validation.{
  Checks, connect, connect_request_from_fields, parse_request_payload,
}
use fortigate_vpn_linux_gui.Helper.Validation.Client.{connect_payload}
use fortigate_vpn_linux_gui.Helper.Validation.Accepted.{
  IsClean, IsAcceptable, parse_request_payload-IsAcceptable,
}
use fortigate_vpn_linux_gui.Helper.Validation.Again.{HexLaws}
use fortigate_vpn_linux_gui.Helper.Validation.Sent.{parse_request_payload-connect_payload}

abbrev digest : String
digest = "0123456789abcdef0123456789abcdef0123456789abcdef0123456789abcdef"

abbrev plain_checks : Checks
plain_checks = record {
  texts = plain_texts;
  has_meta = λ s. false;
  has_separator = λ s. false;
  unbracketed = λ s. s;
  is_hostname = λ s. true;
  is_ip_address = λ s. false;
  compact = λ s. s;
  lower = λ s. s;
  is_hex = λ s. str_eq s digest;
  support_summary = λ s. "not supported";
}

plain_checks-hex : HexLaws plain_checks
plain_checks-hex = ((λ s h. (refl, refl)), refl)

abbrev eap_payload : Json
eap_payload = object (member "ike_version" (str "ikev2") (member "auth_method" (str "eap") empty))

abbrev eap_settings : IpsecSettings
eap_settings = record default_ipsec_settings { ike_version = ikev2; auth_method = eap }

abbrev vpn_request : ConnectRequest
vpn_request = record {
  gateway = "vpn.example.com";
  port = 8443;
  auth_mode = standard;
  trusted_certificate_fingerprint = some digest;
  backend = ipsec;
  ipsec = some eap_settings;
}

parse_request_payload-connect_payload_example :
    parse_request_payload plain_checks (object (connect_payload (some "r1") vpn_request))
    ≡ ok (connect, some vpn_request, some "r1")
unfolding connect_request_from_fields parse_ipsec_settings
parse_request_payload-connect_payload_example =
    parse_request_payload-connect_payload plain_checks (λ s. refl, refl, refl, refl)
      plain_checks-hex (str "vpn.example.com") (int (pos 8443)) (str "standard") (str digest)
      (str "ipsec") eap_payload (some "r1") vpn_request refl

abbrev ssl_payload : Members
ssl_payload = member "operation" (str "connect") (
    member "auth_mode" (str "saml")
      (member "port" (int (pos 443)) (member "gateway" (str "vpn.example.com") empty)))

abbrev ssl_request : ConnectRequest
ssl_request = record {
  gateway = "vpn.example.com";
  port = 443;
  auth_mode = saml;
  trusted_certificate_fingerprint = none;
  backend = openfortivpn;
  ipsec = none;
}

parse_request_payload-IsAcceptable_example :
    IsClean ssl_payload × IsAcceptable plain_checks ssl_request
unfolding parse_request_payload
parse_request_payload-IsAcceptable_example =
    parse_request_payload-IsAcceptable plain_checks ssl_payload ssl_request none refl
