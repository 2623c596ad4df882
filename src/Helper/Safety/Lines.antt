-- ===== src/Helper/Safety/Lines.antt =====
-- The lines of output and the DNS of the tunnel keep the invariant, at any depth
-- (helper/service.py).
use fortigate_vpn_linux_gui.Prelude.{
  ℕ, zero, suc, String, Bool, not, ◌||◌, Option, none, some, Result, ok, raised, is_some,
}
use fortigate_vpn_linux_gui.Vpn.SplitInclude.{SplitIncludeInfo}
use fortigate_vpn_linux_gui.Helper.Service.Types.{
  LinkDns, DnsState, applied_dns, too_deep, Dns, Service, Host,
}
use fortigate_vpn_linux_gui.Helper.Service.Output.{
  nonempty, effect, preserved_text, applied_text, split_text, catch_all_of, domains_of, failed_text,
}
use fortigate_vpn_linux_gui.Helper.Service.Lines.{
  dns_outcome, apply_ipsec_dns_with, call_dns, on_interface, interface_at, log_preserved, log_split,
  output_from, output_to, apply_to, is_empty,
}
use fortigate_vpn_linux_gui.Helper.Safety.Sound.{
  OnFrame, Sound, Keeps, if_either, on_output_with-Keeps,
}

module _ (T : OnFrame) (k : Host) where
  module _ (own : String → Service → Service) (keeps : (line : String) → Keeps T (own line)) where
    log_preserved-Keeps :
        (interface : String) (state : DnsState) (pre : Option LinkDns)
        → Keeps T (log_preserved k own interface state pre)
    log_preserved-Keeps interface state none c s h = h
    log_preserved-Keeps interface state (some pre) c s h =
        keeps (preserved_text interface pre state.nm_managed) c s h

    log_split-Keeps : (info : Option SplitIncludeInfo) → Keeps T (log_split k own info)
    log_split-Keeps none c s h = h
    log_split-Keeps (some info) c s h = keeps (split_text info) c s h

    dns_outcome-Keeps :
        (r : Result String DnsState) (interface : String) (d : Dns)
        → Keeps T (dns_outcome k own r interface d)
    unfolding dns_outcome
    dns_outcome-Keeps (raised reason) interface d c s h = keeps (failed_text reason) c s h
    dns_outcome-Keeps (ok state) interface d c s h =
        let s1 = record s { dns = record s.dns { applied = Bool.true } } in
        let s2 = log_preserved k own interface state state.pre_vpn s1 in
        let line =
          applied_text d.servers interface (catch_all_of d.split) (domains_of d.split d.domains) in
        log_split-Keeps d.split c (own line s2)
          (keeps line c s2 (log_preserved-Keeps interface state state.pre_vpn c s1 h))

    on_interface-Keeps : (i : Option String) → Keeps T (on_interface k own i)
    on_interface-Keeps none c s h = h
    on_interface-Keeps (some interface) c s h =
        elim s.ipsec_files as (λ f. Sound c T (call_dns k own interface f s)) [
          | none ↦ h
          | some files ↦
              let domains = domains_of s.dns.split s.dns.domains in
              let catch_all = catch_all_of s.dns.split in
              dns_outcome-Keeps (k.apply_dns s.out interface s.dns.servers domains catch_all)
                interface s.dns c (effect (applied_dns interface s.dns.servers domains catch_all) s)
                h
        ]

    apply_ipsec_dns_with-Keeps : Keeps T (apply_ipsec_dns_with k own)
    unfolding apply_ipsec_dns_with
    apply_ipsec_dns_with-Keeps c s h =
        if_either (Sound c T)
          (s.dns.applied || is_empty k own s.dns.servers || not (is_some s.ipsec_files)) _ _
          (λ e. h) (λ e. on_interface-Keeps (interface_at k own (nonempty s.dns.vip) s) c s h)

  output_from-Keeps :
      (base : String → Service → Service)
      → ((line : String) → Keeps T (base line))
      → (n : ℕ) (line : String) → Keeps T (output_from k base n line)
  unfolding output_from
  output_from-Keeps base keeps zero line c s h = keeps line c s h
  output_from-Keeps base keeps (suc n) line c s h =
      on_output_with-Keeps T k (apply_ipsec_dns_with k (output_from k base n))
        (apply_ipsec_dns_with-Keeps (output_from k base n) (output_from-Keeps base keeps n)) line c
        s h

  pub output_to-Keeps : (n : ℕ) (line : String) → Keeps T (output_to k n line)
  unfolding output_to
  output_to-Keeps n line = output_from-Keeps (λ text. effect too_deep) (λ text c s h. h) n line

  pub apply_to-Keeps : (n : ℕ) → Keeps T (apply_to k n)
  unfolding apply_to
  apply_to-Keeps n c s h = apply_ipsec_dns_with-Keeps (output_to k n) (output_to-Keeps n) c s h
