-- ===== src/Vpn/Backend/Errors.antt =====
-- Error identifiers (vpn/models.py), output hints (vpn/classify.py) and the messages that
-- vpn/backend.py names by constants.
use fortigate_vpn_linux_gui.Prelude.{String, Option}

pub data VpnErrorCode : Type 0 where
  sso_not_supported openfortivpn_missing failed_to_start permission_denied : VpnErrorCode
  auth_failure unexpected_exit invalid_profile already_busy not_connected : VpnErrorCode
  browser_failed saml_timeout invalid_auth_url privilege_denied : VpnErrorCode
  helper_not_available helper_version_mismatch helper_capability_mismatch : VpnErrorCode
  polkit_unavailable helper_startup_failed certificate_untrusted : VpnErrorCode
  certificate_changed saml_failed vpn_process_failed connection_lost : VpnErrorCode
  ppp_failed route_failed dns_failed ipsec_backend_missing : VpnErrorCode
  ipsec_daemon_start_failed ipsec_unsupported ipsec_credentials_required : VpnErrorCode
  ipsec_saml_http_unknown ipsec_saml_connect_failed ipsec_saml_http_rejected : VpnErrorCode
  gateway_unreachable dns_resolution_failed ike_negotiation_timeout : VpnErrorCode
  ike_sa_init_timeout ike_auth_timeout ipsec_psk_failure ipsec_xauth_failure : VpnErrorCode
  ipsec_eap_failure ipsec_proposal_mismatch ipsec_child_sa_failed : VpnErrorCode
  ipsec_vip_failed ipsec_swanctl_failed ipsec_negotiation_failed : VpnErrorCode
  ike_port_in_use : VpnErrorCode

pub data OutputHint : Type 0 where
  no_hint gateway_connected tunnel_connected permission auth_failed certificate : OutputHint
  ppp_failure route_failure dns_failure dns_resolution unreachable : OutputHint
  saml_rejected ike_timeout sa_init_timeout auth_timeout psk_failure : OutputHint
  xauth_failure eap_failure eap_in_progress proposal_mismatch child_sa_failure : OutputHint
  vip_failure charon_failure swanctl_failure ipsec_negotiation : OutputHint
  ike_established ike_sa_init ike_port_conflict : OutputHint

-- The texts that the source keeps in constants, by name, and any other text.
pub data Message : Type 0 where
  missing_message permission_message auth_message saml_auth_message exit_message : Message
  start_message invalid_profile_message busy_message timeout_message : Message
  invalid_url_message helper_missing_message polkit_missing_message : Message
  privilege_denied_message helper_version_message helper_capability_message : Message
  helper_startup_message cert_untrusted_message cert_changed_message : Message
  connection_lost_message ppp_message route_message dns_message : Message
  ipsec_negotiation_message ipsec_missing_message ipsec_daemon_start_message : Message
  ipsec_unsupported_message ipsec_credentials_message ipsec_sso_psk_message : Message
  ipsec_ikev2_auth_message ipsec_saml_http_unknown_message : Message
  ipsec_saml_connect_message ipsec_saml_start_url_message : Message
  ipsec_saml_timeout_message ipsec_saml_callback_message : Message
  ike_port_conflict_message ike_auth_timeout_message : Message
  ike_sa_init_timeout_message ike_timeout_message : Message
  saml_unsupported : Option String → Message
  plain : String → Message

-- `_CODE_MAP.get(code, VPN_PROCESS_FAILED)`, over the codes that the helper sends.
pub data HelperCode : Type 0 where
  code_helper_not_available code_polkit_unavailable : HelperCode
  code_helper_version_mismatch code_helper_capability_mismatch : HelperCode
  code_helper_startup_failed code_privilege_denied code_sso_not_supported : HelperCode
  code_openfortivpn_missing code_failed_to_start code_already_connected : HelperCode
  code_invalid_auth_url code_saml_failed code_vpn_process_failed : HelperCode
  code_ipsec_backend_missing code_ipsec_daemon_start_failed : HelperCode
  code_ike_port_in_use code_ike_auth_timeout code_ike_sa_init_timeout : HelperCode
  code_ike_negotiation_timeout code_ipsec_eap_failure : HelperCode
  code_ipsec_proposal_mismatch code_ipsec_child_sa_failed : HelperCode
  code_ipsec_vip_failed code_ipsec_psk_failure code_ipsec_xauth_failure : HelperCode
  code_ipsec_swanctl_failed code_ipsec_negotiation_failed : HelperCode
  code_unsupported_ipsec code_invalid_credentials : HelperCode
  other_code : String → HelperCode

unfoldable pub code_map : HelperCode → VpnErrorCode
code_map code_helper_not_available = helper_not_available
code_map code_polkit_unavailable = polkit_unavailable
code_map code_helper_version_mismatch = helper_version_mismatch
code_map code_helper_capability_mismatch = helper_capability_mismatch
code_map code_helper_startup_failed = helper_startup_failed
code_map code_privilege_denied = privilege_denied
code_map code_sso_not_supported = sso_not_supported
code_map code_openfortivpn_missing = openfortivpn_missing
code_map code_failed_to_start = failed_to_start
code_map code_already_connected = already_busy
code_map code_invalid_auth_url = invalid_auth_url
code_map code_saml_failed = saml_failed
code_map code_vpn_process_failed = vpn_process_failed
code_map code_ipsec_backend_missing = ipsec_backend_missing
code_map code_ipsec_daemon_start_failed = ipsec_daemon_start_failed
code_map code_ike_port_in_use = ike_port_in_use
code_map code_ike_auth_timeout = ike_auth_timeout
code_map code_ike_sa_init_timeout = ike_sa_init_timeout
code_map code_ike_negotiation_timeout = ike_negotiation_timeout
code_map code_ipsec_eap_failure = ipsec_eap_failure
code_map code_ipsec_proposal_mismatch = ipsec_proposal_mismatch
code_map code_ipsec_child_sa_failed = ipsec_child_sa_failed
code_map code_ipsec_vip_failed = ipsec_vip_failed
code_map code_ipsec_psk_failure = ipsec_psk_failure
code_map code_ipsec_xauth_failure = ipsec_xauth_failure
code_map code_ipsec_swanctl_failed = ipsec_swanctl_failed
code_map code_ipsec_negotiation_failed = ipsec_negotiation_failed
code_map code_unsupported_ipsec = ipsec_unsupported
code_map code_invalid_credentials = ipsec_credentials_required
code_map (other_code _) = vpn_process_failed

-- `_helper_error_to_vpn`: the text of the error itself is kept where no constant replaces it.
error_message : VpnErrorCode → String → Message
error_message helper_not_available text = helper_missing_message
error_message polkit_unavailable text = polkit_missing_message
error_message helper_version_mismatch text = helper_version_message
error_message helper_capability_mismatch text = helper_capability_message
error_message helper_startup_failed text = helper_startup_message
error_message privilege_denied text = privilege_denied_message
error_message openfortivpn_missing text = missing_message
error_message failed_to_start text = start_message
error_message already_busy text = busy_message
error_message ipsec_backend_missing text = ipsec_missing_message
error_message ipsec_daemon_start_failed text = ipsec_daemon_start_message
error_message ike_port_in_use text = ike_port_conflict_message
error_message ipsec_unsupported text = ipsec_unsupported_message
error_message ipsec_credentials_required text = ipsec_credentials_message
error_message _ text = plain text

unfoldable pub helper_error_to_vpn : HelperCode → String → VpnErrorCode × Message
unfolding code_map error_message
helper_error_to_vpn code text = let mapped = code_map code in (mapped, error_message mapped text)
