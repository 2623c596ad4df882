-- ===== src/Helper/Safety/Finalize.antt =====
-- What a teardown leaves of the object (helper/service.py).
use fortigate_vpn_linux_gui.Prelude.{
  List, ℕ, String, true, false, Option, none, some, if◌then◌else◌, ◌≡◌, refl, ap,
}
use fortigate_vpn_linux_gui.Helper.Service.Types.{
  IpsecRuntimeFiles, torn_down, Effect, Service, Host,
}
use fortigate_vpn_linux_gui.Helper.Service.Output.{effect}
use fortigate_vpn_linux_gui.Helper.Service.Teardown.{
  finalize_ipsec_teardown, or_files, release, releases, dns_of, route_of, restore_gateway,
}
use fortigate_vpn_linux_gui.Helper.Safety.Sound.{
  OnFrame, Sound, Keeps, if_either, are_secrets_left, signals,
}
use fortigate_vpn_linux_gui.Helper.Safety.Teardown.{dns_of-Keeps, restore_gateway-Keeps}

abbrev pub Holds : Option ℕ → Option IpsecRuntimeFiles → List Effect → OnFrame
Holds process files signalled f =
    (f.process ≡ process) × (f.ipsec_files ≡ files) × (f.signalled ≡ signalled)

module _ (k : Host) (output : String → Service → Service)
    (keeps : (T : OnFrame) (line : String) → Keeps T (output line)) where
  -- The service at the end of a teardown, before its fields are released.
  abbrev restored : Option IpsecRuntimeFiles → Service → Service
  restored files s =
      let target = or_files files s.ipsec_files in
      restore_gateway k output (route_of k output s.gateway_route target s)
        (dns_of k output target (effect torn_down s))

  restored-Keeps :
      (T : OnFrame) (files : Option IpsecRuntimeFiles) (s : Service)
      → Sound 1 T (effect torn_down s)
      → Sound 1 T (restored files s)
  restored-Keeps T files s h =
      let target = or_files files s.ipsec_files in
      restore_gateway-Keeps k output T (keeps T) (route_of k output s.gateway_route target s) 1
        (dns_of k output target (effect torn_down s))
        (dns_of-Keeps k output T (keeps T) target 1 (effect torn_down s) h)

  -- A teardown changes neither the process held nor the signals sent.
  pub finalize-process :
      (files : Option IpsecRuntimeFiles) (s : Service)
      → Sound 1 (Holds s.process s.ipsec_files (signals s.out)) s
      → ((finalize_ipsec_teardown k output files s).process ≡ s.process)
        × (signals (finalize_ipsec_teardown k output files s).out ≡ signals s.out)
  unfolding finalize_ipsec_teardown release
  finalize-process files s h =
      let g = restored-Keeps (Holds s.process s.ipsec_files (signals s.out)) files s h in
      if_either (λ (t : Service). (t.process ≡ s.process) × (signals t.out ≡ signals s.out))
        s.teardown_done _ _ (λ e. (refl, refl)) (λ e. (g.3.0, g.3.2))

  pub finalize-files :
      (files : Option IpsecRuntimeFiles) (s : Service)
      → Sound 1 (Holds s.process s.ipsec_files (signals s.out)) s
      → s.teardown_done ≡ false
      → (finalize_ipsec_teardown k output files s).ipsec_files
          ≡ (if releases files s.ipsec_files then none else s.ipsec_files)
        × (finalize_ipsec_teardown k output files s).teardown_done ≡ true
  unfolding finalize_ipsec_teardown release
  finalize-files files s h due =
      let g = restored-Keeps (Holds s.process s.ipsec_files (signals s.out)) files s h in
      if_either
        (λ (t : Service).
          (t.ipsec_files ≡ (if releases files s.ipsec_files then none else s.ipsec_files))
          × (t.teardown_done ≡ true))
        s.teardown_done _ _ (λ e. cc)
        (λ e. (
          ap (λ (held : Option IpsecRuntimeFiles). if releases files held then none else held)
              g.3.1,
          refl,
        ))

  pub finalize-done :
      (files : Option IpsecRuntimeFiles) (s : Service)
      → s.teardown_done ≡ true
      → finalize_ipsec_teardown k output files s ≡ s
  unfolding finalize_ipsec_teardown
  finalize-done files s done =
      if_either (λ (t : Service). t ≡ s) s.teardown_done _ _ (λ e. refl) (λ e. cc)

  pub finalize-wiped :
      (files : IpsecRuntimeFiles) (s : Service)
      → s.teardown_done ≡ false
      → are_secrets_left (finalize_ipsec_teardown k output (some files) s).out ≡ false
  unfolding finalize_ipsec_teardown release
  finalize-wiped files s due =
      if_either (λ (t : Service). are_secrets_left t.out ≡ false) s.teardown_done _ _ (λ e. cc)
        (λ e. refl)
