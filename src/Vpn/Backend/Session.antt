-- ===== src/Vpn/Backend/Session.antt =====
-- What `connect` asks before a session starts: the probe of the helper, the choice of an
-- executable, the secrets, and the fields that a new session sets (vpn/backend.py).
use fortigate_vpn_linux_gui.Prelude.{
  String, Bool, true, false, not, ◌&&◌, ◌||◌, ◌+◌, ◌<>◌, Option, none, some, List, [], ◌∷◌, str_eq,
  is_some, contains, decimal, ◌▷◌, if◌then◌else◌,
}
use fortigate_vpn_linux_gui.Profiles.Ipsec.{required_helper_capabilities}
use fortigate_vpn_linux_gui.Profiles.Model.{ConnectionProfile, is_ipsec, ipsec_payload}
use fortigate_vpn_linux_gui.Vpn.State.{
  ConnectionState, failed, waiting_for_certificate_trust, among, connectable_states,
}
use fortigate_vpn_linux_gui.Vpn.Backend.Errors.{
  VpnErrorCode, helper_not_available, helper_version_mismatch, helper_capability_mismatch,
  invalid_profile, sso_not_supported, openfortivpn_missing, ipsec_unsupported,
  ipsec_credentials_required, no_hint, Message, missing_message, invalid_profile_message,
  helper_missing_message, polkit_missing_message, helper_version_message, helper_capability_message,
  ipsec_unsupported_message, ipsec_credentials_message, ipsec_sso_psk_message, saml_unsupported,
  helper_error_to_vpn,
}
use fortigate_vpn_linux_gui.Vpn.Backend.Errors
use fortigate_vpn_linux_gui.Vpn.Backend.Types.{
  ipsec, openfortivpn, saml, standard, ConnectRequest, Credentials, ProbeStatus, missing,
  polkit_unavailable, OpenfortivpnCapabilities, Logged, Backend, Ports,
}
use fortigate_vpn_linux_gui.Vpn.Backend.Core.{vpn_log, fail_without_process}

-- `helper_has_capabilities`: every required token is advertised.
abbrev pub has_capabilities : List String → List String → Bool
has_capabilities advertised [] = true
has_capabilities advertised (x ∷ xs) = contains advertised x && has_capabilities advertised xs

abbrev pub is_missing : ProbeStatus → Bool
is_missing missing = true
is_missing _ = false

abbrev pub is_polkit_unavailable : ProbeStatus → Bool
is_polkit_unavailable polkit_unavailable = true
is_polkit_unavailable _ = false

-- After a decision on a certificate the session may start where it waits; else only when idle.
abbrev pub may_start : Bool → ConnectionState → Bool
may_start after_trust s =
    if after_trust
    then among s (waiting_for_certificate_trust ∷ failed ∷ [])
    else among s connectable_states

abbrev pub version_of : Option OpenfortivpnCapabilities → Option String
version_of none = none
version_of (some c) = c.version

abbrev pub psk_of : Option Credentials → String
psk_of none = ""
psk_of (some c) = c.psk

abbrev pub is_blank : String → Bool
is_blank s = str_eq s ""

abbrev is_path : Option String → Bool
is_path none = false
is_path (some path) = not (is_blank path)

abbrev located : String → OpenfortivpnCapabilities
located path = record {
  executable_path = path;
  version = none;
  supports_saml = false;
  supports_cookie_stdin = false;
  from_locator = true;
}

-- Whether one of the secrets that an IPsec session needs is absent.
abbrev pub lacks_secret : Option Credentials → Bool
lacks_secret none = true
lacks_secret (some c) = is_blank c.psk || is_blank c.username || is_blank c.password

abbrev pub needed_capabilities : ConnectionProfile → List String
needed_capabilities q =
    if is_ipsec q then elim q.ipsec [ none ↦ [] | some s ↦ required_helper_capabilities s ] else []

abbrev pub unlogged : Logged
unlogged = record {
  cert_sha = none;
  cert_error_emitted = false;
  tunnel_established = false;
  gateway_connected = false;
  ike_established = false;
  ike_sa_init = false;
  eap_progress = false;
  child_sa = false;
  listener = false;
  disconnect = false;
  saml_waiting = false;
}

-- The assignments that begin a session of either kind.
abbrev pub fresh_session : ConnectionProfile → Backend → Backend
fresh_session q b = record b {
  attempt_id = b.attempt_id + 1;
  profile = some q;
  last_profile = some q;
  user_disconnect = false;
  error_code = none;
  error_message = none;
  output_hint = no_hint;
  presented_certificate = none;
  certificate_subject = none;
  certificate_issuer = none;
  logged = unlogged;
  failing = false;
  safe_auth_url = none;
  browser_opened = false;
  argv = [];
}

-- `{profile.name} ({profile.gateway}:{profile.port})`
abbrev pub target_text : ConnectionProfile → String
target_text q = q.name <> " (" <> q.gateway <> ":" <> decimal q.port <> ")"

abbrev pub connect_request : ConnectionProfile → ConnectRequest
connect_request q = record {
  gateway = q.gateway;
  port = q.port;
  auth_mode = if is_ipsec q then standard else if q.use_sso then saml else standard;
  trusted_certificate_fingerprint = if is_ipsec q then none else q.trusted_cert_sha256;
  backend = if is_ipsec q then ipsec else openfortivpn;
  ipsec = ipsec_payload q;
}

module _ (p : Ports) where
  -- `_probe_helper`, with its verdict.
  unfoldable pub probe_helper : List String → Backend → Bool × Backend
  probe_helper required b =
      let probe = p.probe b.out in
      let c = record b { helper_probe = some probe } in
      if is_missing probe.status
      then (
        false,
        c
            ▷ vpn_log "Privileged helper is not installed."
            ▷ fail_without_process p helper_not_available helper_missing_message,
      )
      else if is_polkit_unavailable probe.status
      then (
        false,
        c
            ▷ vpn_log "polkit (pkexec) is not available."
            ▷ fail_without_process p Errors.polkit_unavailable polkit_missing_message,
      )
      else if probe.version_mismatch
      then (
        false,
        c
            ▷ vpn_log "Privileged helper version mismatch."
            ▷ fail_without_process p helper_version_mismatch helper_version_message,
      )
      else if not (has_capabilities probe.capabilities required)
      then (
        false,
        c
            ▷ vpn_log "Privileged helper lacks required IPsec capabilities."
            ▷ fail_without_process p helper_capability_mismatch helper_capability_message,
      )
      else (true, c)

  abbrev executable_missing : Backend → Option OpenfortivpnCapabilities × Backend
  executable_missing b = (
    none,
    b
        ▷ vpn_log "openfortivpn executable was not found."
        ▷ fail_without_process p openfortivpn_missing missing_message,
  )

  unfoldable pub resolve_executable :
      ConnectionProfile → Backend → Option OpenfortivpnCapabilities × Backend
  resolve_executable q b =
      if q.use_sso
      then elim (p.selector true) [
        | some c ↦ (some c, b)
        | none ↦
            if is_some (p.selector false) || is_path p.locator
            then (
              none,
              b
                  ▷ vpn_log "No SAML-capable openfortivpn (--saml-login) was found."
                  ▷ fail_without_process p sso_not_supported
                      (saml_unsupported (version_of (p.selector false))),
            )
            else executable_missing b
      ]
      else elim (p.selector false) [
        | some c ↦ (some c, b)
        | none ↦ elim p.locator [
          | none ↦ executable_missing b
          | some path ↦ if is_blank path then executable_missing b else (some (located path), b)
        ]
      ]
