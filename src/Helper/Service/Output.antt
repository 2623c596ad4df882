-- ===== src/Helper/Service/Output.antt =====
-- What a line of the process leads to, and the DNS servers that the tunnel brings:
-- `_on_output`, `_note_ipsec_dns_line` and `_apply_ipsec_dns` (helper/service.py). The two methods
-- call each other, since the latter logs its own lines by `_on_output`: a number bounds the depth.
use fortigate_vpn_linux_gui.Prelude.{
  ℕ, ◌-◌, String, Bool, true, false, not, ◌&&◌, ◌||◌, Option, none, some, List, [], ◌∷◌, ◌++◌, ◌<>◌,
  length, drop, contains, joined, str_eq, is_some, ◌▷◌, if◌then◌else◌, decimal,
}
use fortigate_vpn_linux_gui.Vpn.Backend.Types.{
  CertificateInfo, EventKind, certificate_kind, connected_kind, error_kind,
}
use fortigate_vpn_linux_gui.Vpn.SplitInclude.{
  SplitIncludeInfo, TunnelMode, split, full, catch_all_dns, merge,
}
use fortigate_vpn_linux_gui.Helper.Protocol.{HelperEvent}
use fortigate_vpn_linux_gui.Helper.Service.Types.{LinkDns, Effect, event, Dns, Service, Host}

-- `HelperEvent(kind=kind)`
abbrev pub bare : EventKind → HelperEvent
bare kind = record {
  kind = kind;
  request_id = none;
  state = none;
  pid = none;
  line = none;
  url = none;
  certificate = none;
  code = none;
  message = none;
  exit_code = none;
  helper_version = none;
  protocol_version = none;
  running = none;
  argv = [];
  selected_executable = none;
  openfortivpn_version = none;
  supports_saml = none;
  backend = none;
  capabilities = [];
}

abbrev pub with_line : EventKind → String → HelperEvent
with_line kind line = record (bare kind) { line = some line }

abbrev pub error_event : String → String → HelperEvent
error_event code message = record (bare error_kind) { code = some code; message = some message }

abbrev pub effect : Effect → Service → Service
effect x s = record s { out = x ∷ s.out }

abbrev pub emit : HelperEvent → Service → Service
emit e = effect (event e)

abbrev pub startup_log_limit : ℕ
startup_log_limit = 32

-- The last lines, at most `startup_log_limit`.
unfoldable pub bounded : List String → List String
bounded logs = drop (length logs - startup_log_limit) logs

unfoldable pub keep_startup_log : String → Service → Service
keep_startup_log redacted s = record s {
  startup_logs =
      if is_some s.ipsec_files && not s.reported.connected
      then bounded (s.startup_logs ++ (redacted ∷ []))
      else s.startup_logs;
}

abbrev pub same_sha : Option String → String → Bool
same_sha none sha = false
same_sha (some seen) sha = str_eq seen sha

unfoldable pub report_certificate : Option CertificateInfo → String → Service → Service
report_certificate none redacted s = s
report_certificate (some info) redacted s =
    if same_sha s.reported.cert_sha info.sha256
    then s
    else emit (record (with_line certificate_kind redacted) { certificate = some info })
        (record s { reported = record s.reported { cert_sha = some info.sha256 } })

abbrev pub or_snapshot : Option CertificateInfo → Option CertificateInfo → Option CertificateInfo
or_snapshot none snapshot = snapshot
or_snapshot (some info) snapshot = some info

abbrev pub add_server : List String → String → List String
add_server servers server = if contains servers server then servers else servers ++ (server ∷ [])

abbrev pub add_servers : List String → List String → List String
add_servers servers [] = servers
add_servers servers (server ∷ rest) = add_servers (add_server servers server) rest

unfoldable pub noted_dns : Option String → Dns → Dns
noted_dns none d = d
noted_dns (some server) d = record d { servers = add_server d.servers server }

unfoldable pub noted_vip : Option String → Dns → Dns
noted_vip none d = d
noted_vip (some vip) d = record d { vip = some vip }

abbrev pub or_old : List String → List String → List String
or_old [] old = old
or_old (x ∷ new) old = x ∷ new

-- `value if value else None`, for a text.
abbrev pub nonempty : Option String → Option String
nonempty none = none
nonempty (some text) = if str_eq text "" then none else some text

-- The texts that `_apply_ipsec_dns` logs.
abbrev pub or_none : List String → String
or_none [] = "(none)"
or_none (x ∷ rest) = joined ", " (x ∷ rest)

abbrev pub failed_text : String → String
failed_text reason = "VPN DNS could not be applied via resolvectl: " <> reason

abbrev pub preserved_text : String → LinkDns → Bool → String
preserved_text interface pre managed =
    "preserved pre-VPN DNS on "
    <> interface
    <> ": servers="
    <> or_none pre.servers
    <> " domains="
    <> or_none pre.domains
    <> " nm-managed="
    <> (if managed then "yes" else "no")

abbrev pub applied_text : List String → String → Bool → List String → String
applied_text servers interface catch_all domains =
    "applied VPN DNS "
    <> joined ", " servers
    <> " on "
    <> interface
    <> " mode="
    <> (if catch_all then "full-tunnel" else "split")
    <> " domains="
    <> (if catch_all then "~." else or_none domains)

abbrev pub mode_text : TunnelMode → String
mode_text split = "split"
mode_text full = "full"

abbrev pub prefixes_text : List String → String
prefixes_text [] = "(none)"
prefixes_text (x ∷ rest) = joined "," (x ∷ rest)

unfoldable pub split_text : SplitIncludeInfo → String
split_text info =
    "FortiClient compatibility: split-include count="
    <> decimal (length info.prefixes)
    <> " prefixes="
    <> prefixes_text info.prefixes
    <> " source="
    <> info.source
    <> " tunnel-mode="
    <> mode_text info.tunnel_mode

abbrev pub catch_all_of : Option SplitIncludeInfo → Bool
catch_all_of none = true
catch_all_of (some info) = catch_all_dns info

abbrev pub domains_of : Option SplitIncludeInfo → List String → List String
domains_of none domains = domains
domains_of (some info) domains = info.dns_domains

module _ (h : Host) where
  unfoldable pub noted_split : Option SplitIncludeInfo → Dns → Dns
  noted_split none d = d
  noted_split (some info) d = record d {
    split = some (merge h.is_wildcard d.split info);
    servers = add_servers d.servers info.dns_servers;
    domains = or_old info.dns_domains d.domains;
  }

  unfoldable pub noted : String → Dns → Dns
  unfolding noted_dns noted_vip noted_split
  noted line d =
      d
      ▷ noted_dns (h.dns_line line)
      ▷ noted_vip (h.vip_line line)
      ▷ noted_split (h.split_line line)

  abbrev pub is_attribute_line : String → Bool
  is_attribute_line line =
      is_some (h.dns_line line) || is_some (h.vip_line line) || is_some (h.split_line line)

  module _ (apply : Service → Service) where
    unfoldable pub note_ipsec_dns_line : String → Service → Service
    note_ipsec_dns_line line s =
        let s' = record s { dns = noted line s.dns } in
        if not (is_attribute_line line) then s else if s.reported.connected then apply s' else s'

    unfoldable pub report_connected : String → Service → Service
    report_connected redacted s =
        if h.is_connected_line redacted && not s.reported.connected
        then emit (with_line connected_kind redacted)
            (apply (record s { reported = record s.reported { connected = true } }))
        else s
