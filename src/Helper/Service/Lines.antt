-- ===== src/Helper/Service/Lines.antt =====
-- `_on_output` and `_apply_ipsec_dns`, tied together to a depth (helper/service.py).
use fortigate_vpn_linux_gui.Prelude.{
  ℕ, zero, suc, String, Bool, true, false, not, ◌||◌, Option, none, some, List, [], ◌∷◌, Result, ok,
  raised, is_some, ◌▷◌, if◌then◌else◌,
}
use fortigate_vpn_linux_gui.Vpn.Backend.Types.{
  CertificateInfo, log_kind, connected_kind, saml_url, saml_listener, saml_waiting, saml_success,
  saml_failure,
}
use fortigate_vpn_linux_gui.Vpn.SplitInclude.{SplitIncludeInfo}
use fortigate_vpn_linux_gui.Helper.Service.Types.{
  IpsecRuntimeFiles, LinkDns, DnsState, SamlEvent, auth_url, listener_ready, saml_waits,
  saml_succeeded, saml_failed, saml_nothing, applied_dns, too_deep, overtaken, Dns, Service, Host,
}
use fortigate_vpn_linux_gui.Helper.Service.Output.{
  bare, with_line, error_event, effect, emit, keep_startup_log, report_certificate, or_snapshot,
  note_ipsec_dns_line, report_connected, nonempty, failed_text, preserved_text, applied_text,
  split_text, catch_all_of, domains_of,
}

unfoldable pub report_url : Option String → Service → Service
report_url none s =
    emit
      (error_event "INVALID_AUTH_URL"
        "openfortivpn produced a sign-in URL that is not safe to open.")
      s
report_url (some url) s =
    if s.reported.saml_url
    then s
    else emit (record (bare saml_url) { url = some url })
        (record s { reported = record s.reported { saml_url = true } })

module _ (h : Host) where
  abbrev pub auth_event : Option String → Service → Service
  auth_event none s = s
  auth_event (some url) s = report_url (h.safe_url url) s

  unfoldable pub report_saml : SamlEvent → Service → Service
  unfolding report_url
  report_saml (auth_url url) s = auth_event (nonempty url) s
  report_saml listener_ready s = emit (bare saml_listener) s
  report_saml saml_waits s = emit (bare saml_waiting) s
  report_saml saml_succeeded s = emit (bare saml_success) s
  report_saml saml_failed s = emit (bare saml_failure) s
  report_saml saml_nothing s = s

  -- The certificate parser reads one more line.
  abbrev pub feed : String → Service → Service
  feed line s = record s { cert_lines = line ∷ s.cert_lines }

  -- What `cert or self._cert_parser.snapshot()` gives where the line is about a certificate.
  unfoldable pub shown_certificate : String → Service → Option CertificateInfo
  shown_certificate line s =
      let fed = line ∷ s.cert_lines in
      let cert = h.cert_feed fed in
      if h.is_certificate_failure line || is_some cert
      then or_snapshot cert (h.cert_snapshot fed)
      else none

  unfoldable pub note_certificate : String → String → Service → Service
  unfolding report_certificate shown_certificate
  note_certificate line redacted s =
      report_certificate (shown_certificate line s) redacted (feed line s)

  -- `_on_output`, given what it does with attributes and with the report of a connection.
  unfoldable pub on_output_by :
      (Service → Service) → (Service → Service) → String → Service → Service
  unfolding keep_startup_log note_certificate report_saml
  on_output_by note report line s =
      let redacted = h.redact line in
      let s' =
        s
        ▷ keep_startup_log redacted
        ▷ emit (with_line log_kind redacted)
        ▷ note
        ▷ note_certificate line redacted
        ▷ report in
      if h.is_noise redacted then s else if s'.saml then report_saml (h.saml_line line) s' else s'

  unfoldable pub on_output_with : (Service → Service) → String → Service → Service
  unfolding note_ipsec_dns_line report_connected on_output_by
  on_output_with apply line s =
      on_output_by (note_ipsec_dns_line h apply (h.redact line))
        (report_connected h apply (h.redact line)) line s

  -- A report of a connection by a thread that found the flag unset before another thread set it.
  unfoldable pub report_overtaken : (Service → Service) → String → Service → Service
  report_overtaken apply text s =
      record s { reported = record s.reported { connected = true } }
      ▷ apply
      ▷ effect overtaken
      ▷ emit (with_line connected_kind text)

  -- `_on_output` in two halves, before and after its test of the flag.
  unfoldable pub output_tested : (Service → Service) → String → Service → Service
  unfolding keep_startup_log note_ipsec_dns_line note_certificate
  output_tested apply line s =
      let redacted = h.redact line in
      if h.is_noise redacted
      then s
      else s
        ▷ keep_startup_log redacted
        ▷ emit (with_line log_kind redacted)
        ▷ note_ipsec_dns_line h apply redacted
        ▷ note_certificate line redacted

  -- The same for a sign-in address.
  unfoldable pub url_overtaken : String → Service → Service
  url_overtaken url s =
      record s { reported = record s.reported { saml_url = true } }
      ▷ effect overtaken
      ▷ emit (record (bare saml_url) { url = some url })

  unfoldable pub output_overtaken : (Service → Service) → String → Service → Service
  unfolding report_overtaken report_saml
  output_overtaken apply line s =
      let s' = report_overtaken apply (h.redact line) s in
      if s'.saml then report_saml (h.saml_line line) s' else s'

  module _ (own : String → Service → Service) where
    abbrev pub log_preserved : String → DnsState → Option LinkDns → Service → Service
    log_preserved interface state none s = s
    log_preserved interface state (some pre) s =
        own (preserved_text interface pre state.nm_managed) s

    abbrev pub log_split : Option SplitIncludeInfo → Service → Service
    log_split none s = s
    log_split (some info) s = own (split_text info) s

    -- The outcome of `apply_temporary_vpn_dns`, logged; the fields are those read before the call.
    unfoldable pub dns_outcome : Result String DnsState → String → Dns → Service → Service
    dns_outcome (raised reason) interface d s = own (failed_text reason) s
    dns_outcome (ok state) interface d s =
        record s { dns = record s.dns { applied = true } }
        ▷ log_preserved interface state state.pre_vpn
        ▷ own
            (applied_text d.servers interface (catch_all_of d.split) (domains_of d.split d.domains))
        ▷ log_split d.split

    abbrev pub call_dns : String → Option IpsecRuntimeFiles → Service → Service
    call_dns interface none s = s
    call_dns interface (some files) s =
        let domains = domains_of s.dns.split s.dns.domains in
        let catch_all = catch_all_of s.dns.split in
        dns_outcome (h.apply_dns s.out interface s.dns.servers domains catch_all) interface s.dns
          (effect (applied_dns interface s.dns.servers domains catch_all) s)

    abbrev pub on_interface : Option String → Service → Service
    on_interface none s = s
    on_interface (some interface) s = call_dns interface s.ipsec_files s

    abbrev pub interface_at : Option String → Service → Option String
    interface_at none s = none
    interface_at (some vip) s = nonempty (h.interface_of s.out vip)

    abbrev pub is_empty : List String → Bool
    is_empty [] = true
    is_empty (x ∷ xs) = false

    unfoldable pub apply_ipsec_dns_with : Service → Service
    unfolding dns_outcome
    apply_ipsec_dns_with s =
        if s.dns.applied || is_empty s.dns.servers || not (is_some s.ipsec_files)
        then s
        else on_interface (interface_at (nonempty s.dns.vip) s) s

  -- `_on_output`, its own lines included to a depth of `n`; below it stands `base`.
  unfoldable pub output_from : (String → Service → Service) → ℕ → String → Service → Service
  output_from base zero line s = base line s
  output_from base (suc n) line s =
      on_output_with (apply_ipsec_dns_with (output_from base n)) line s

  unfoldable pub output_to : ℕ → String → Service → Service
  unfolding output_from
  output_to n line s = output_from (λ text. effect too_deep) n line s

  -- `_apply_ipsec_dns`, to the same depth.
  unfoldable pub apply_to : ℕ → Service → Service
  unfolding output_to
  apply_to n = apply_ipsec_dns_with (output_to n)
