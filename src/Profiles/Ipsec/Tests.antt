-- ===== src/Profiles/Ipsec/Tests.antt =====
-- The round trip of IPsec settings at a small object (profiles/ipsec.py).
use fortigate_vpn_linux_gui.Prelude.{pos, false, [], ◌∷◌, ok, raised, ◌≡◌, refl}
use fortigate_vpn_linux_gui.Json.{Json, int, str, array, item, end, object, member, empty}
use fortigate_vpn_linux_gui.Profiles.Ipsec.{IpsecSettings, ikev2, default_ipsec_settings}
use fortigate_vpn_linux_gui.Profiles.Ipsec.Parse.{Texts}
use fortigate_vpn_linux_gui.Profiles.Ipsec.Payload.{parse_ipsec_settings, to_json}
use fortigate_vpn_linux_gui.Profiles.Ipsec.RoundTrip.{parse_ipsec_settings-to_json}

abbrev pub plain_texts : Texts
plain_texts = record {
  strip = λ s. s;
  is_digit = λ s. false;
  to_int = λ s. raised "not a number";
  length_of = λ s. 0;
  has_control = λ s. false;
}

-- IKEv2 with a repeated group and one lifetime.
abbrev groups_payload : Json
groups_payload = object (
    member "ike_version" (str "ikev2") (
      member "ike_dh_groups"
        (array (item (int (pos 20)) (item (int (pos 21)) (item (int (pos 20)) end))))
        (member "phase1_lifetime" (int (pos 600)) empty)))

abbrev groups_settings : IpsecSettings
groups_settings = record default_ipsec_settings {
  ike_version = ikev2;
  dh_group = 20;
  ike_dh_groups = 20 ∷ 21 ∷ [];
  phase1_lifetime = 600;
}

parse_ipsec_settings-to_json_example :
    parse_ipsec_settings plain_texts (object (to_json groups_settings)) ≡ ok groups_settings
unfolding parse_ipsec_settings
parse_ipsec_settings-to_json_example =
    parse_ipsec_settings-to_json plain_texts (λ s. refl, refl, refl, refl) groups_payload
      groups_settings refl
