-- ===== src/Profiles/Ipsec.antt =====
-- The non-secret IPsec settings of a profile, and what the helper must support to start them
-- (profiles/ipsec.py). The texts that the source compares are members of enumerations here.
use fortigate_vpn_linux_gui.Prelude.{
  ℕ, String, Bool, true, false, ◌&&◌, List, [], ◌∷◌, if◌then◌else◌,
}
pub mod Parse
pub mod Payload
pub mod Stored
pub mod Written
pub mod Reparse
pub mod RoundTrip
pub mod Tests

pub data IkeVersion : Type 0 where
  ikev1 ikev2 : IkeVersion

pub data IkeMode : Type 0 where
  aggressive main : IkeMode

pub data AuthMethod : Type 0 where
  psk_xauth psk certificate eap : AuthMethod

pub data AddressAssignment : Type 0 where
  modeconfig manual : AddressAssignment

pub record CryptoProposal : Type 0 where
  pub encryption : String
  pub integrity : String

pub record IpsecSettings : Type 0 where
  pub ike_version : IkeVersion
  pub ike_mode : IkeMode
  pub auth_method : AuthMethod
  pub address_assignment : AddressAssignment
  pub local_id : String
  pub peer_id : String
  pub phase1_encryption : String
  pub phase1_integrity : String
  pub dh_group : ℕ
  pub ike_proposals : List CryptoProposal
  pub ike_dh_groups : List ℕ
  pub phase1_lifetime : ℕ
  pub phase2_encryption : String
  pub phase2_integrity : String
  pub child_proposals : List CryptoProposal
  pub pfs : Bool
  pub pfs_dh_group : ℕ
  pub pfs_dh_groups : List ℕ
  pub phase2_lifetime : ℕ
  pub nat_traversal : Bool
  pub dpd : Bool
  pub dpd_interval : ℕ
  pub replay_detection : Bool
  pub local_lan_access : Bool
  pub saml_port : ℕ

abbrev pub Combo : Type 0
Combo = IkeVersion × IkeMode × AuthMethod × AddressAssignment

abbrev pub combo : IpsecSettings → Combo
combo s = (s.ike_version, s.ike_mode, s.auth_method, s.address_assignment)

-- `combo in SUPPORTED_IPSEC_COMBOS`
abbrev pub is_supported_combo : Combo → Bool
is_supported_combo (ikev1, aggressive, psk_xauth, modeconfig) = true
is_supported_combo _ = false

abbrev is_ikev2_eap : IkeVersion → AuthMethod → Bool
is_ikev2_eap ikev2 eap = true
is_ikev2_eap _ _ = false

abbrev is_modeconfig : AddressAssignment → Bool
is_modeconfig modeconfig = true
is_modeconfig manual = false

unfoldable pub is_supported : IpsecSettings → Bool
is_supported s =
    if is_supported_combo (combo s)
    then true
    else is_ikev2_eap s.ike_version s.auth_method && is_modeconfig s.address_assignment

unfoldable pub required_helper_capabilities : IpsecSettings → List String
required_helper_capabilities s =
    if is_supported_combo (combo s)
    then "ipsec_ikev1_psk_xauth" ∷ []
    else if is_ikev2_eap s.ike_version s.auth_method && is_modeconfig s.address_assignment
    then "ipsec_ikev2_eap" ∷ []
    else []

unfoldable pub allows_saml_preauth : IpsecSettings → Bool
allows_saml_preauth s = is_ikev2_eap s.ike_version s.auth_method

abbrev method_label : AuthMethod → String
method_label psk_xauth = "Username / Password"
method_label psk = "IPsec pre-shared key"
method_label certificate = "IPsec certificate"
method_label eap = "IPsec EAP-MSCHAPv2"

unfoldable pub auth_label : IpsecSettings → String
unfolding allows_saml_preauth
auth_label s = if allows_saml_preauth s then "SAML / SSO" else method_label s.auth_method

abbrev pub default_ipsec_settings : IpsecSettings
default_ipsec_settings = record {
  ike_version = ikev1;
  ike_mode = aggressive;
  auth_method = psk_xauth;
  address_assignment = modeconfig;
  local_id = "";
  peer_id = "";
  phase1_encryption = "aes256";
  phase1_integrity = "sha256";
  dh_group = 14;
  ike_proposals = record { encryption = "aes256"; integrity = "sha256" } ∷ [];
  ike_dh_groups = 14 ∷ [];
  phase1_lifetime = 86400;
  phase2_encryption = "aes256";
  phase2_integrity = "sha256";
  child_proposals = record { encryption = "aes256"; integrity = "sha256" } ∷ [];
  pfs = true;
  pfs_dh_group = 14;
  pfs_dh_groups = 14 ∷ [];
  phase2_lifetime = 43200;
  nat_traversal = true;
  dpd = true;
  dpd_interval = 60;
  replay_detection = true;
  local_lan_access = false;
  saml_port = 1001;
}
