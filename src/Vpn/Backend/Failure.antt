-- ===== src/Vpn/Backend/Failure.antt =====
-- `_exit_error`: the error that is reported when the process of a session ends before the tunnel
-- is up, and the constant texts of `user_message_for_hint` (vpn/classify.py).
use fortigate_vpn_linux_gui.Prelude.{
  ℤ, String, Bool, true, false, not, ◌&&◌, ◌||◌, Option, none, some, str_eq, is_some, is_zero,
  if◌then◌else◌,
}
use fortigate_vpn_linux_gui.Profiles.Model.{ConnectionProfile, is_ipsec, is_ipsec_saml_preauth}
use fortigate_vpn_linux_gui.Vpn.State.{ConnectionState, starting, connecting, waiting_for_auth, is}
use fortigate_vpn_linux_gui.Vpn.Backend.Errors
use fortigate_vpn_linux_gui.Vpn.Backend.Errors.{VpnErrorCode, OutputHint, Message, plain}
use fortigate_vpn_linux_gui.Vpn.Backend.Types.{CertificateInfo}

abbrev pub user_message_for_hint : OutputHint → Option Message
user_message_for_hint OutputHint.unreachable = some (plain "The VPN gateway could not be reached.")
user_message_for_hint OutputHint.dns_resolution =
    some (plain "The gateway hostname could not be resolved.")
user_message_for_hint OutputHint.certificate =
    some (
      plain
        "The FortiGate gateway certificate could not be validated. See Diagnostics for details.")
user_message_for_hint OutputHint.saml_rejected = some (plain "SAML authentication was rejected.")
user_message_for_hint OutputHint.auth_failed = some (plain "Authentication failed.")
user_message_for_hint OutputHint.permission =
    some (plain "Privileged helper authorization was rejected.")
user_message_for_hint OutputHint.ppp_failure = some Message.ppp_message
user_message_for_hint OutputHint.route_failure = some Message.route_message
user_message_for_hint OutputHint.dns_failure = some Message.dns_message
user_message_for_hint OutputHint.ike_timeout = some Message.ike_timeout_message
user_message_for_hint OutputHint.sa_init_timeout = some Message.ike_sa_init_timeout_message
user_message_for_hint OutputHint.auth_timeout = some Message.ike_auth_timeout_message
user_message_for_hint OutputHint.psk_failure =
    some (plain "IPsec authentication failed (pre-shared key). See Diagnostics for details.")
user_message_for_hint OutputHint.xauth_failure =
    some (plain "XAuth authentication failed. See Diagnostics for details.")
user_message_for_hint OutputHint.eap_failure = some Message.ipsec_ikev2_auth_message
user_message_for_hint OutputHint.proposal_mismatch =
    some (plain "IPsec proposal mismatch. See Diagnostics for details.")
user_message_for_hint OutputHint.child_sa_failure =
    some (plain "IPsec CHILD_SA failed. See Diagnostics for details.")
user_message_for_hint OutputHint.vip_failure =
    some (plain "Mode Config / virtual IP assignment failed. See Diagnostics for details.")
user_message_for_hint OutputHint.charon_failure =
    some (plain "The IPsec daemon failed. See Diagnostics for details.")
user_message_for_hint OutputHint.ike_port_conflict = some Message.ike_port_conflict_message
user_message_for_hint OutputHint.swanctl_failure =
    some (plain "swanctl failed. See Diagnostics for details.")
user_message_for_hint OutputHint.ipsec_negotiation = some Message.ipsec_negotiation_message
user_message_for_hint _ = none

abbrev specific_or : OutputHint → Message → Message
specific_or hint message = elim (user_message_for_hint hint) [ none ↦ message | some m ↦ m ]

abbrev pub is_certificate : OutputHint → Bool
is_certificate OutputHint.certificate = true
is_certificate _ = false

abbrev is_auth_failed : OutputHint → Bool
is_auth_failed OutputHint.auth_failed = true
is_auth_failed _ = false

abbrev is_saml_rejected : OutputHint → Bool
is_saml_rejected OutputHint.saml_rejected = true
is_saml_rejected _ = false

-- A pin is set and the gateway presented another certificate.
abbrev pub pin_differs : Option String → String → Bool
pin_differs none sha = false
pin_differs (some pinned) sha = not (str_eq pinned "") && not (str_eq pinned sha)

abbrev pub certificate_error : Option String → Option CertificateInfo → VpnErrorCode × Message
certificate_error pinned none = (Errors.certificate_untrusted, Message.cert_untrusted_message)
certificate_error pinned (some info) =
    if pin_differs pinned info.sha256
    then (Errors.certificate_changed, Message.cert_changed_message)
    else (Errors.certificate_untrusted, Message.cert_untrusted_message)

-- The hints that name a cause by themselves.
abbrev hint_error : OutputHint → Option (VpnErrorCode × Message)
hint_error OutputHint.permission = some (Errors.permission_denied, Message.permission_message)
hint_error OutputHint.ppp_failure = some (Errors.ppp_failed, Message.ppp_message)
hint_error OutputHint.route_failure = some (Errors.route_failed, Message.route_message)
hint_error OutputHint.dns_failure = some (Errors.dns_failed, Message.dns_message)
hint_error OutputHint.dns_resolution =
    some (Errors.dns_resolution_failed, specific_or OutputHint.dns_resolution Message.dns_message)
hint_error OutputHint.unreachable = some (
  Errors.gateway_unreachable,
  specific_or OutputHint.unreachable (plain "The VPN gateway could not be reached."),
)
hint_error OutputHint.auth_timeout =
    some (
      Errors.ike_auth_timeout,
      specific_or OutputHint.auth_timeout Message.ike_auth_timeout_message,
    )
hint_error OutputHint.sa_init_timeout = some (
  Errors.ike_sa_init_timeout,
  specific_or OutputHint.sa_init_timeout Message.ike_sa_init_timeout_message,
)
hint_error OutputHint.ike_timeout = some (
  Errors.ike_negotiation_timeout,
  specific_or OutputHint.ike_timeout Message.ipsec_negotiation_message,
)
hint_error OutputHint.psk_failure =
    some (
      Errors.ipsec_psk_failure,
      specific_or OutputHint.psk_failure Message.ipsec_negotiation_message,
    )
hint_error OutputHint.xauth_failure = some (
  Errors.ipsec_xauth_failure,
  specific_or OutputHint.xauth_failure Message.ipsec_negotiation_message,
)
hint_error OutputHint.eap_failure =
    some (
      Errors.ipsec_eap_failure,
      specific_or OutputHint.eap_failure Message.ipsec_ikev2_auth_message,
    )
hint_error OutputHint.proposal_mismatch = some (
  Errors.ipsec_proposal_mismatch,
  specific_or OutputHint.proposal_mismatch Message.ipsec_negotiation_message,
)
hint_error OutputHint.child_sa_failure = some (
  Errors.ipsec_child_sa_failed,
  specific_or OutputHint.child_sa_failure Message.ipsec_negotiation_message,
)
hint_error OutputHint.vip_failure =
    some (
      Errors.ipsec_vip_failed,
      specific_or OutputHint.vip_failure Message.ipsec_negotiation_message,
    )
hint_error OutputHint.charon_failure = some (
  Errors.ipsec_daemon_start_failed,
  specific_or OutputHint.charon_failure Message.ipsec_daemon_start_message,
)
hint_error OutputHint.ike_port_conflict = some (
  Errors.ike_port_in_use,
  specific_or OutputHint.ike_port_conflict Message.ike_port_conflict_message,
)
hint_error OutputHint.swanctl_failure = some (
  Errors.ipsec_swanctl_failed,
  specific_or OutputHint.swanctl_failure Message.ipsec_negotiation_message,
)
hint_error OutputHint.ipsec_negotiation =
    some (Errors.ipsec_negotiation_failed, Message.ipsec_negotiation_message)
hint_error _ = none

abbrev pub profile_is : (ConnectionProfile → Bool) → Option ConnectionProfile → Bool
profile_is test none = false
profile_is test (some q) = test q

abbrev rejected_by_saml : VpnErrorCode × Message
rejected_by_saml = (Errors.saml_failed, plain "SAML authentication was rejected.")

-- `self._exit_error(hint, code, previous, presented, pinned)` of an object with this profile.
unfoldable pub exit_error :
    Option ConnectionProfile
    → OutputHint
    → ℤ
    → ConnectionState
    → Option CertificateInfo
    → Option String
    → VpnErrorCode × Message
exit_error profile hint code previous presented pinned =
    if is_certificate hint || is_some presented
    then certificate_error pinned presented
    else elim (hint_error hint) [
      | some e ↦ e
      | none ↦
          if is_auth_failed hint || is waiting_for_auth previous
          then if is waiting_for_auth previous
            then (Errors.saml_failed, Message.saml_auth_message)
            else if is_saml_rejected hint
            then rejected_by_saml
            else if profile_is is_ipsec profile && profile_is is_ipsec_saml_preauth profile
            then (Errors.ipsec_eap_failure, Message.ipsec_ikev2_auth_message)
            else (Errors.auth_failure, Message.auth_message)
          else if is_saml_rejected hint
          then rejected_by_saml
          else if not (is_zero code)
          then if (is connecting previous || is starting previous) && profile_is is_ipsec profile
            then (Errors.ipsec_negotiation_failed, Message.ipsec_negotiation_message)
            else (Errors.vpn_process_failed, Message.exit_message)
          else (Errors.unexpected_exit, Message.exit_message)
    ]
