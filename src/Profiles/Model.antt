-- ===== src/Profiles/Model.antt =====
-- A stored connection profile and the questions that the backend asks of it (profiles/model.py).
use fortigate_vpn_linux_gui.Prelude.{
  ℕ, String, Bool, true, false, not, Option, none, some, if◌then◌else◌,
}
use fortigate_vpn_linux_gui.Profiles.Ipsec
use fortigate_vpn_linux_gui.Profiles.Ipsec.{
  IpsecSettings, default_ipsec_settings, allows_saml_preauth, is_supported,
}

pub data VpnType : Type 0 where
  ssl ipsec_vpn : VpnType

pub record ConnectionProfile : Type 0 where
  pub id : String
  pub name : String
  pub gateway : String
  pub port : ℕ
  pub description : String
  pub username_hint : String
  pub use_sso : Bool
  pub trusted_cert_sha256 : Option String
  pub vpn_type : VpnType
  pub ipsec : Option IpsecSettings

abbrev pub is_ssl : ConnectionProfile → Bool
is_ssl p = elim p.vpn_type [ ssl ↦ true | ipsec_vpn ↦ false ]

abbrev pub is_ipsec : ConnectionProfile → Bool
is_ipsec p = elim p.vpn_type [ ssl ↦ false | ipsec_vpn ↦ true ]

-- `self.ipsec or default_ipsec_settings()`
abbrev pub settings_of : ConnectionProfile → IpsecSettings
settings_of p = elim p.ipsec [ none ↦ default_ipsec_settings | some s ↦ s ]

unfoldable pub is_ipsec_saml_preauth : ConnectionProfile → Bool
unfolding allows_saml_preauth
is_ipsec_saml_preauth p = if not (is_ipsec p) then false else allows_saml_preauth (settings_of p)

unfoldable pub is_connectable : ConnectionProfile → Bool
unfolding is_supported
is_connectable p = if is_ssl p then true else is_supported (settings_of p)

unfoldable pub auth_mode_label : Bool → String
auth_mode_label use_sso = if use_sso then "SAML / SSO" else "Username / Password"

unfoldable pub auth_label : ConnectionProfile → String
unfolding Ipsec.auth_label auth_mode_label
auth_label p = if is_ipsec p then Ipsec.auth_label (settings_of p) else auth_mode_label p.use_sso

-- The settings that `ipsec_payload` writes out; an SSL profile has none.
unfoldable pub ipsec_payload : ConnectionProfile → Option IpsecSettings
ipsec_payload p = if not (is_ipsec p) then none else some (settings_of p)
