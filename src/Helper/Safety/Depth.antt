-- ===== src/Helper/Safety/Depth.antt =====
-- How deep the lines of output nest (helper/service.py). Once the tunnel's DNS is applied a line
-- nests no further; a failure to apply it is logged with the flag unset, so its text matters.
use fortigate_vpn_linux_gui.Prelude.{
  ℕ, suc, String, Bool, true, false, not, ◌&&◌, ◌||◌, Option, none, some, List, Result, ok, raised,
  is_some, if◌then◌else◌, ◌≡◌, refl, sym, ap, ◌∙◌, arith,
}
use mathlib.Core.Path.{fun_ext, subst}
use fortigate_vpn_linux_gui.Vpn.SplitInclude.{SplitIncludeInfo}
use fortigate_vpn_linux_gui.Vpn.Backend.Types.{CertificateInfo, connected_kind, log_kind}
use fortigate_vpn_linux_gui.Helper.Safety.Sound.{if_either}
use fortigate_vpn_linux_gui.Helper.Service.Types.{
  IpsecRuntimeFiles, LinkDns, DnsState, Effect, applied_dns, Dns, Service, Host, SamlEvent,
  auth_url, listener_ready, saml_waits, saml_succeeded, saml_failed, saml_nothing,
}
use fortigate_vpn_linux_gui.Helper.Service.Output.{
  nonempty, effect, preserved_text, applied_text, split_text, catch_all_of, domains_of, failed_text,
  is_attribute_line, note_ipsec_dns_line, report_connected, noted, noted_dns, noted_vip,
  noted_split, report_certificate, same_sha, keep_startup_log, emit, with_line,
}
use fortigate_vpn_linux_gui.Helper.Service.Lines.{
  dns_outcome, apply_ipsec_dns_with, call_dns, on_interface, interface_at, log_preserved, log_split,
  on_output_with, on_output_by, output_from, is_empty, note_certificate, shown_certificate, feed,
  report_url, auth_event, report_saml,
}

if_both :
    (c : Bool) (x y x' y' : Service)
    → (c ≡ true → x ≡ x')
    → (c ≡ false → y ≡ y')
    → (if c then x else y) ≡ (if c then x' else y')
if_both true x y x' y' hx hy = hx refl
if_both false x y x' y' hx hy = hy refl

module _ (k : Host) where
  -- A line that neither brings an attribute nor says that the tunnel is up.
  abbrev pub Silent : String → Type 0
  Silent text =
      (is_attribute_line k (k.redact text) ≡ false) × (k.is_connected_line (k.redact text) ≡ false)

  -- No failure of the commands that apply the DNS has a message that reads so.
  abbrev pub QuietFailures : Type 0
  QuietFailures =
      (out : List Effect) (interface : String) (servers domains : List String) (catch_all : Bool)
      (reason : String)
      → k.apply_dns out interface servers domains catch_all ≡ raised reason
      → Silent (failed_text reason)

  note-Silent :
      (f g : Service → Service) (line : String) (s : Service)
      → is_attribute_line k line ≡ false
      → note_ipsec_dns_line k f line s ≡ note_ipsec_dns_line k g line s
  unfolding note_ipsec_dns_line
  note-Silent f g line s h = if_both (not (is_attribute_line k line)) _ _ _ _ (λ e. refl) (λ e. cc)

  report-Silent :
      (f g : Service → Service) (line : String) (s : Service)
      → k.is_connected_line line ≡ false
      → report_connected k f line s ≡ report_connected k g line s
  unfolding report_connected
  report-Silent f g line s h =
      if_both (k.is_connected_line line && not s.reported.connected) _ _ _ _
        (λ e. ground (arith, h, e)) (λ e. refl)

  on_output_with-Silent :
      (f g : Service → Service) (text : String) (s : Service)
      → Silent text
      → on_output_with k f text s ≡ on_output_with k g text s
  unfolding on_output_with
  on_output_with-Silent f g text s h =
      let line = k.redact text in
      ap (λ (note : Service → Service). on_output_by k note (report_connected k f line) text s)
        (fun_ext (λ t. note-Silent f g line t h.0))
      ∙ ap
          (λ (report : Service → Service).
            on_output_by k (note_ipsec_dns_line k g line) report text s)
          (fun_ext (λ t. report-Silent f g line t h.1))

  on_output_with-same :
      (f g : Service → Service) (line : String) (s : Service)
      → ((t : Service) → f t ≡ g t)
      → on_output_with k f line s ≡ on_output_with k g line s
  on_output_with-same f g line s same =
      ap (λ (apply : Service → Service). on_output_with k apply line s) (fun_ext same)

  abbrev IsApplied : Service → Type 0
  IsApplied s = s.dns.applied ≡ true

  -- What a line may call when the DNS is applied: nothing is left to do.
  abbrev Idles : (Service → Service) → Type 0
  Idles f = (t : Service) → IsApplied t → f t ≡ t

  apply-Idles : (own : String → Service → Service) → Idles (apply_ipsec_dns_with k own)
  unfolding apply_ipsec_dns_with
  apply-Idles own t h = simp h refl

  noted_dns-applied : (o : Option String) (d : Dns) → (noted_dns o d).applied ≡ d.applied
  unfolding noted_dns
  noted_dns-applied none d = refl
  noted_dns-applied (some server) d = refl

  noted_vip-applied : (o : Option String) (d : Dns) → (noted_vip o d).applied ≡ d.applied
  unfolding noted_vip
  noted_vip-applied none d = refl
  noted_vip-applied (some vip) d = refl

  noted_split-applied :
      (o : Option SplitIncludeInfo) (d : Dns) → (noted_split k o d).applied ≡ d.applied
  unfolding noted_split
  noted_split-applied none d = refl
  noted_split-applied (some info) d = refl

  noted-applied : (line : String) (d : Dns) → (noted k line d).applied ≡ d.applied
  unfolding noted
  noted-applied line d =
      noted_split-applied (k.split_line line)
        (noted_vip (k.vip_line line) (noted_dns (k.dns_line line) d))
      ∙ noted_vip-applied (k.vip_line line) (noted_dns (k.dns_line line) d)
      ∙ noted_dns-applied (k.dns_line line) d

  abbrev idle : Service → Service
  idle s = s

  note-idle :
      (f : Service → Service) (line : String) (s : Service)
      → Idles f
      → IsApplied s
      → note_ipsec_dns_line k f line s ≡ note_ipsec_dns_line k idle line s
  unfolding note_ipsec_dns_line
  note-idle f line s idles h =
      if_both (not (is_attribute_line k line)) _ _ _ _ (λ e. refl)
        (λ e.
          if_both s.reported.connected _ _ _ _
            (λ e'. idles (record s { dns = noted k line s.dns }) (noted-applied line s.dns ∙ h))
            (λ e'. refl))

  note-IsApplied :
      (line : String) (s : Service) → IsApplied s → IsApplied (note_ipsec_dns_line k idle line s)
  unfolding note_ipsec_dns_line
  note-IsApplied line s h =
      if_either IsApplied (not (is_attribute_line k line)) _ _ (λ e. h)
        (λ e.
          if_either IsApplied s.reported.connected _ _ (λ e'. noted-applied line s.dns ∙ h)
            (λ e'. noted-applied line s.dns ∙ h))

  report_certificate-IsApplied :
      (info : Option CertificateInfo) (line : String) (s : Service)
      → IsApplied s
      → IsApplied (report_certificate info line s)
  unfolding report_certificate
  report_certificate-IsApplied none line s h = h
  report_certificate-IsApplied (some info) line s h =
      if_either IsApplied (same_sha s.reported.cert_sha info.sha256) _ _ (λ e. h) (λ e. h)

  note_certificate-IsApplied :
      (line redacted : String) (s : Service)
      → IsApplied s
      → IsApplied (note_certificate k line redacted s)
  unfolding note_certificate
  note_certificate-IsApplied line redacted s h =
      report_certificate-IsApplied (shown_certificate k line s) redacted (feed k line s) h

  report-idle :
      (f : Service → Service) (line : String) (s : Service)
      → Idles f
      → IsApplied s
      → report_connected k f line s ≡ report_connected k idle line s
  unfolding report_connected
  report-idle f line s idles h =
      if_both (k.is_connected_line line && not s.reported.connected) _ _ _ _
        (λ e.
          ap (emit (with_line connected_kind line))
            (idles (record s { reported = record s.reported { connected = true } }) h))
        (λ e. refl)

  report-IsApplied :
      (line : String) (s : Service) → IsApplied s → IsApplied (report_connected k idle line s)
  unfolding report_connected
  report-IsApplied line s h =
      if_either IsApplied (k.is_connected_line line && not s.reported.connected) _ _ (λ e. h)
        (λ e. h)

  report_url-IsApplied :
      (u : Option String) (s : Service) → IsApplied s → IsApplied (report_url u s)
  unfolding report_url
  report_url-IsApplied none s h = h
  report_url-IsApplied (some url) s h =
      if_either IsApplied s.reported.saml_url _ _ (λ e. h) (λ e. h)

  auth_event-IsApplied :
      (u : Option String) (s : Service) → IsApplied s → IsApplied (auth_event k u s)
  auth_event-IsApplied none s h = h
  auth_event-IsApplied (some url) s h = report_url-IsApplied (k.safe_url url) s h

  report_saml-IsApplied :
      (e : SamlEvent) (s : Service) → IsApplied s → IsApplied (report_saml k e s)
  unfolding report_saml
  report_saml-IsApplied (auth_url url) s h = auth_event-IsApplied (nonempty url) s h
  report_saml-IsApplied listener_ready s h = h
  report_saml-IsApplied saml_waits s h = h
  report_saml-IsApplied saml_succeeded s h = h
  report_saml-IsApplied saml_failed s h = h
  report_saml-IsApplied saml_nothing s h = h

  -- `_on_output` after its report of a connection.
  abbrev ended : String → Service → Service
  ended line s = if s.saml then report_saml k (k.saml_line line) s else s

  on_output_with-idle :
      (f : Service → Service) (line : String) (s : Service)
      → Idles f
      → IsApplied s
      → on_output_with k f line s ≡ on_output_with k idle line s
  unfolding on_output_with on_output_by keep_startup_log
  on_output_with-idle f line s idles h =
      let r = k.redact line in
      let s2 = emit (with_line log_kind r) (keep_startup_log r s) in
      let s3 = note_ipsec_dns_line k idle r s2 in
      let s4 = note_certificate k line r s3 in
      let h4 = note_certificate-IsApplied line r s3 (note-IsApplied r s2 h) in
      if_both (k.is_noise r) _ _ _ _ (λ e. refl)
        (λ e.
          ap (λ (t : Service). ended line (report_connected k f r (note_certificate k line r t)))
            (note-idle f r s2 idles h)
          ∙ ap (ended line) (report-idle f r s4 idles h4))

  on_output_with-IsApplied :
      (line : String) (s : Service) → IsApplied s → IsApplied (on_output_with k idle line s)
  unfolding on_output_with on_output_by keep_startup_log
  on_output_with-IsApplied line s h =
      let r = k.redact line in
      let s2 = emit (with_line log_kind r) (keep_startup_log r s) in
      let s3 = note_ipsec_dns_line k idle r s2 in
      let s4 = note_certificate k line r s3 in
      let s5 = report_connected k idle r s4 in
      let h5 =
        report-IsApplied r s4 (note_certificate-IsApplied line r s3 (note-IsApplied r s2 h)) in
      if_either IsApplied (k.is_noise r) _ _ (λ e. h)
        (λ e.
          if_either IsApplied s5.saml _ _ (λ e'. report_saml-IsApplied (k.saml_line line) s5 h5)
            (λ e'. h5))

  -- What a nested line does when the DNS is applied.
  abbrev Applied : (String → Service → Service) → Type 0
  Applied own =
      (text : String) (s : Service) → IsApplied s → own text s ≡ on_output_with k idle text s

  module _ (quiet : QuietFailures) (own own' : String → Service → Service)
      (same : (text : String) (s : Service) → Silent text → own text s ≡ own' text s)
      (settled : Applied own) (settled' : Applied own') where
    own-same : (text : String) (s : Service) → IsApplied s → own text s ≡ own' text s
    own-same text s h = settled text s h ∙ sym (settled' text s h)

    own-IsApplied : (text : String) (s : Service) → IsApplied s → IsApplied (own' text s)
    own-IsApplied text s h =
        subst IsApplied (sym (settled' text s h)) (on_output_with-IsApplied text s h)

    log_preserved-same :
        (interface : String) (state : DnsState) (pre : Option LinkDns) (s : Service)
        → IsApplied s
        → (log_preserved k own interface state pre s ≡ log_preserved k own' interface state pre s)
          × IsApplied (log_preserved k own' interface state pre s)
    log_preserved-same interface state none s h = (refl, h)
    log_preserved-same interface state (some pre) s h =
        let text = preserved_text interface pre state.nm_managed in
        (own-same text s h, own-IsApplied text s h)

    log_split-same :
        (info : Option SplitIncludeInfo) (s : Service)
        → IsApplied s
        → log_split k own info s ≡ log_split k own' info s
    log_split-same none s h = refl
    log_split-same (some info) s h = own-same (split_text info) s h

    dns_outcome-same :
        (r : Result String DnsState) (interface : String) (d : Dns) (s : Service)
        → ((reason : String) → r ≡ raised reason → Silent (failed_text reason))
        → dns_outcome k own r interface d s ≡ dns_outcome k own' r interface d s
    unfolding dns_outcome
    dns_outcome-same (raised reason) interface d s silent =
        same (failed_text reason) s (silent reason refl)
    dns_outcome-same (ok state) interface d s silent =
        let s1 = record s { dns = record s.dns { applied = true } } in
        let text =
          applied_text d.servers interface (catch_all_of d.split) (domains_of d.split d.domains) in
        let s2 = log_preserved k own' interface state state.pre_vpn s1 in
        let (first, h2) = log_preserved-same interface state state.pre_vpn s1 refl in
        ap (λ (t : Service). log_split k own d.split (own text t)) first
        ∙ ap (log_split k own d.split) (own-same text s2 h2)
        ∙ log_split-same d.split (own' text s2) (own-IsApplied text s2 h2)

    call_dns-same :
        (interface : String) (files : Option IpsecRuntimeFiles) (s : Service)
        → call_dns k own interface files s ≡ call_dns k own' interface files s
    call_dns-same interface none s = refl
    call_dns-same interface (some files) s =
        let domains = domains_of s.dns.split s.dns.domains in
        let catch_all = catch_all_of s.dns.split in
        dns_outcome-same (k.apply_dns s.out interface s.dns.servers domains catch_all) interface
          s.dns (effect (applied_dns interface s.dns.servers domains catch_all) s)
          (quiet s.out interface s.dns.servers domains catch_all)

    on_interface-same :
        (i : Option String) (s : Service) → on_interface k own i s ≡ on_interface k own' i s
    on_interface-same none s = refl
    on_interface-same (some interface) s = call_dns-same interface s.ipsec_files s

    apply-same : (s : Service) → apply_ipsec_dns_with k own s ≡ apply_ipsec_dns_with k own' s
    unfolding apply_ipsec_dns_with
    apply-same s =
        if_both (s.dns.applied || is_empty k own s.dns.servers || not (is_some s.ipsec_files)) _ _ _
          _ (λ e. refl) (λ e. on_interface-same (interface_at k own (nonempty s.dns.vip) s) s)

  output_from-Applied :
      (base : String → Service → Service) (n : ℕ) → Applied (output_from k base (suc n))
  unfolding output_from
  output_from-Applied base n text s h =
      on_output_with-idle (apply_ipsec_dns_with k (output_from k base n)) text s
        (apply-Idles (output_from k base n)) h

  output_from-Silent :
      (base base' : String → Service → Service) (n m : ℕ) (text : String) (s : Service)
      → Silent text
      → output_from k base (suc n) text s ≡ output_from k base' (suc m) text s
  unfolding output_from
  output_from-Silent base base' n m text s h =
      on_output_with-Silent (apply_ipsec_dns_with k (output_from k base n))
        (apply_ipsec_dns_with k (output_from k base' m)) text s h

  -- Where no message of a failure to apply the tunnel's DNS reads as an attribute or as a connection,
  -- any depth of two or more gives the same service for every line, whatever stands below the depth,
  -- and however the texts read that are logged once the DNS is applied.
  pub output_from-deeper :
      QuietFailures
      → (base base' : String → Service → Service) (n m : ℕ) (line : String) (s : Service)
      → output_from k base (suc (suc n)) line s ≡ output_from k base' (suc (suc m)) line s
  unfolding output_from
  output_from-deeper quiet base base' n m line s =
      on_output_with-same (apply_ipsec_dns_with k (output_from k base (suc n)))
        (apply_ipsec_dns_with k (output_from k base' (suc m))) line s
        (λ t.
          apply-same quiet (output_from k base (suc n)) (output_from k base' (suc m))
            (λ text u h. output_from-Silent base base' n m text u h) (output_from-Applied base n)
            (output_from-Applied base' m) t)
