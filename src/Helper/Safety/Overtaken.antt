-- ===== src/Helper/Safety/Overtaken.antt =====
-- The reports of threads whose test of a flag was overtaken keep the invariant (helper/service.py).
use fortigate_vpn_linux_gui.Prelude.{ℕ, suc, String, Bool, true, false, ◌≤◌, ◌+◌, arith}
use fortigate_vpn_linux_gui.Vpn.Backend.Types.{log_kind}
use fortigate_vpn_linux_gui.Helper.Service.Types.{Service, Host}
use fortigate_vpn_linux_gui.Helper.Service.Output.{
  keep_startup_log, note_ipsec_dns_line, with_line, emit,
}
use fortigate_vpn_linux_gui.Helper.Service.Lines.{
  report_overtaken, output_tested, output_overtaken, url_overtaken,
}
use fortigate_vpn_linux_gui.Helper.Safety.Sound.{
  OnFrame, Sound, Keeps, if_either, potential, connected_count, url_count, overtaken_count,
  keep_startup_log-Keeps, note_ipsec_dns_line-Keeps, note_certificate-Keeps, report_saml-Keeps,
}

potential-true : (b : Bool) (n c m : ℕ) → potential b n + c ≤ m → potential b (suc n) + c ≤ suc m
potential-true true n c m h = omega (arith, h)
potential-true false n c m h = omega (arith, h)

potential-set : (b : Bool) (n c m : ℕ) → potential b n + c ≤ m → n + c ≤ m
potential-set true n c m h = h
potential-set false n c m h = omega (arith, h)

potential-suc_set : (b : Bool) (n m : ℕ) → potential b n ≤ m → suc n ≤ suc m
potential-suc_set true n m h = omega (arith, h)
potential-suc_set false n m h = omega (arith, h)

module _ (T : OnFrame) (k : Host) where
  pub url_overtaken-Keeps : (url : String) → Keeps T (url_overtaken k url)
  unfolding url_overtaken
  url_overtaken-Keeps url c s h = (
    h.0,
    omega (arith, h.1),
    potential-suc_set s.reported.saml_url (url_count s.out) (suc (overtaken_count s.out)) h.2,
    h.3,
  )

  module _ (apply : Service → Service) (keeps : Keeps T apply) where
    pub report_overtaken-Keeps : (text : String) → Keeps T (report_overtaken k apply text)
    unfolding report_overtaken
    report_overtaken-Keeps text c s h =
        let marked = record s { reported = record s.reported { connected = true } } in
        let s' = apply marked in
        let g = keeps c marked (
          h.0,
          potential-set s.reported.connected (connected_count s.out) c (2 + overtaken_count s.out)
              h.1,
          h.2,
          h.3,
        ) in
        (
          g.0,
          omega (
            arith,
            potential-true s'.reported.connected (connected_count s'.out) c
                (2 + overtaken_count s'.out) g.1,
          ),
          omega (arith, g.2),
          g.3,
        )

    pub output_tested-Keeps : (line : String) → Keeps T (output_tested k apply line)
    unfolding output_tested
    output_tested-Keeps line c s h =
        let s2 = emit (with_line log_kind (k.redact line)) (keep_startup_log (k.redact line) s) in
        let s3 = note_ipsec_dns_line k apply (k.redact line) s2 in
        let h1 = keep_startup_log-Keeps T (k.redact line) c s h in
        let h3 = note_ipsec_dns_line-Keeps T k apply (k.redact line) keeps c s2 h1 in
        if_either (Sound c T) (k.is_noise (k.redact line)) _ _ (λ e. h)
          (λ e. note_certificate-Keeps T k line (k.redact line) c s3 h3)

    pub output_overtaken-Keeps : (line : String) → Keeps T (output_overtaken k apply line)
    unfolding output_overtaken
    output_overtaken-Keeps line c s h =
        let s' = report_overtaken k apply (k.redact line) s in
        let h' = report_overtaken-Keeps (k.redact line) c s h in
        if_either (Sound c T) s'.saml _ _ (λ e. report_saml-Keeps T k (k.saml_line line) c s' h')
          (λ e. h')
