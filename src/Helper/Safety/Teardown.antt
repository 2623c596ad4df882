-- ===== src/Helper/Safety/Teardown.antt =====
-- The end of a session keeps the invariant, and a teardown runs once (helper/service.py).
use fortigate_vpn_linux_gui.Prelude.{
  ◌≤◌, String, Bool, true, false, ◌&&◌, ◌||◌, Option, none, some, List, [], ◌∷◌, ◌++◌, any, joined,
  str_eq, is_some, if◌then◌else◌, ◌≡◌, arith,
}
use mathlib.Core.Path.{subst}
use fortigate_vpn_linux_gui.Helper.Service.Types.{
  SwanctlCommandResult, IpsecRuntimeFiles, GatewayHostRoute, Restored, swanctl, restored_dns,
  restored_route, torn_down, killed, Service, Host,
}
use fortigate_vpn_linux_gui.Helper.Service.Output.{effect}
use fortigate_vpn_linux_gui.Helper.Service.Teardown.{
  log_restored, restore_ipsec_dns, log_route, restore_gateway, dns_of, route_of, or_files, release,
  finalize_ipsec_teardown, log_lines, useful, log_swanctl, run_terminate, terminate_with,
  ipsec_terminate_sa, drop_ipsec, stop_held, disconnect, terminate_command, command_begins,
  disconnect_begins, disconnect_answered, await_stop,
}
use fortigate_vpn_linux_gui.Helper.Safety.Sound.{
  OnFrame, Sound, Keeps, if_either, potential, teardown_count,
}

abbrev pub Once : OnFrame
Once f = potential f.teardown_done f.teardowns ≤ 1

abbrev RunsNow : OnFrame
RunsNow f = f.teardowns ≡ 1

module _ (k : Host) (output : String → Service → Service) where
  module _ (T : OnFrame) (keeps : (line : String) → Keeps T (output line)) where
    pub log_lines-Keeps : (lines : List String) → Keeps T (log_lines k output lines)
    log_lines-Keeps [] c s h = h
    log_lines-Keeps (line ∷ rest) c s h = log_lines-Keeps rest c (output line s) (keeps line c s h)

    pub log_swanctl-Keeps : (result : SwanctlCommandResult) → Keeps T (log_swanctl k output result)
    unfolding log_swanctl
    log_swanctl-Keeps result c s h =
        let lines = useful k output (result.stdout ++ result.stderr) in
        let cli_error = any k.is_cli_error_line lines in
        if_either (Sound c T) (cli_error && s.reported.cli_error) _ _ (λ e. h)
          (λ e.
            log_lines-Keeps lines c
              (record s {
                reported = record s.reported { cli_error = s.reported.cli_error || cli_error };
              })
              h)

    run_terminate-Keeps :
        (argv : Option (List String)) (result : SwanctlCommandResult)
        → Keeps T (run_terminate k output argv result)
    run_terminate-Keeps none result c s h = h
    run_terminate-Keeps (some argv) result c s h =
        log_swanctl-Keeps result c (effect (swanctl argv) s) h

    terminate_with-Keeps :
        (files : Option IpsecRuntimeFiles) (path : Option String) (result : SwanctlCommandResult)
        → Keeps T (terminate_with k output files path result)
    terminate_with-Keeps none path result c s h = h
    terminate_with-Keeps (some files) none result c s h = h
    terminate_with-Keeps (some files) (some path) result c s h =
        run_terminate-Keeps (if str_eq path "" then none else k.swanctl_argv path "terminate")
          result c s h

    pub ipsec_terminate_sa-Keeps :
        (result : SwanctlCommandResult) → Keeps T (ipsec_terminate_sa k output result)
    unfolding ipsec_terminate_sa
    ipsec_terminate_sa-Keeps result c s h =
        terminate_with-Keeps s.ipsec_files s.ipsec_swanctl result c s h

    log_restored-Keeps : (r : Option Restored) → Keeps T (log_restored k output r)
    unfolding log_restored
    log_restored-Keeps none c s h = h
    log_restored-Keeps (some r) c s h =
        if_either (Sound c T) (str_eq (joined " | " r.status_text) "") _ _ (λ e. keeps _ c s h)
          (λ e. keeps _ c _ (keeps _ c s h))

    pub dns_of-Keeps : (files : Option IpsecRuntimeFiles) → Keeps T (dns_of k output files)
    unfolding restore_ipsec_dns
    dns_of-Keeps none c s h = h
    dns_of-Keeps (some files) c s h =
        log_restored-Keeps (k.restore_dns s.out files.dns_state) c
          (effect (restored_dns files.dns_state)
            (record s { dns = record s.dns { applied = false } }))
          h

    log_route-Keeps :
        (route : GatewayHostRoute) (r : Restored) → Keeps T (log_route k output route r)
    unfolding log_route
    log_route-Keeps route r c s h =
        if_either (Sound c T) r.verified _ _ (λ e. keeps _ c _ (keeps _ c s h)) (λ e. keeps _ c s h)

    pub restore_gateway-Keeps :
        (route : Option GatewayHostRoute) → Keeps T (restore_gateway k output route)
    unfolding restore_gateway
    restore_gateway-Keeps none c s h = h
    restore_gateway-Keeps (some route) c s h =
        let s' = output "Gateway route restore starting" s in
        log_route-Keeps route (k.restore_route s'.out route) c (effect (restored_route route) s')
          (keeps _ c s h)

  module _ (keeps : (T : OnFrame) (line : String) → Keeps T (output line)) where
    -- Past its guard a teardown is the first since one became due, and its end closes the guard.
    pub finalize-Keeps :
        (files : Option IpsecRuntimeFiles) → Keeps Once (finalize_ipsec_teardown k output files)
    unfolding finalize_ipsec_teardown release
    finalize-Keeps files c s h =
        if_either (Sound c Once) s.teardown_done _ _ (λ e. h)
          (λ e.
            let target = or_files files s.ipsec_files in
            let route = route_of k output s.gateway_route target s in
            let s1 = effect torn_down s in
            let first : teardown_count s1.out ≡ 1 =
              omega (arith, subst (λ b. potential b (teardown_count s.out) ≤ 1) e h.3) in
            let h2 = dns_of-Keeps RunsNow (keeps RunsNow) target c s1 (h.0, h.1, h.2, first) in
            let h3 =
              restore_gateway-Keeps RunsNow (keeps RunsNow) route c (dns_of k output target s1)
                h2 in
            (h3.0, h3.1, h3.2, omega (arith, h3.3)))

    stop_held-Keeps : Keeps Once (stop_held k output)
    unfolding stop_held drop_ipsec
    stop_held-Keeps c s h =
        if_either (Sound c Once) (is_some s.process) _ _ (λ e. h)
          (λ e. finalize-Keeps s.ipsec_files c s h)

    pub disconnect-Keeps : (result : SwanctlCommandResult) → Keeps Once (disconnect k output result)
    unfolding disconnect
    disconnect-Keeps result c s h =
        let s0 = record s { ipsec_cancel = true } in
        stop_held-Keeps c (ipsec_terminate_sa k output result s0)
          (ipsec_terminate_sa-Keeps Once (keeps Once) result c s0 h)

    command_begins-Keeps : (argv : Option (List String)) → Keeps Once (command_begins k output argv)
    command_begins-Keeps none c s h = h
    command_begins-Keeps (some argv) c s h = h

    pub disconnect_begins-Keeps : Keeps Once (disconnect_begins k output)
    unfolding disconnect_begins
    disconnect_begins-Keeps c s h =
        command_begins-Keeps (terminate_command k output s.ipsec_files s.ipsec_swanctl) c
          (record s { ipsec_cancel = true }) h

    pub disconnect_answered-Keeps :
        (result : Option SwanctlCommandResult) → Keeps Once (disconnect_answered k output result)
    unfolding disconnect_answered
    disconnect_answered-Keeps none c s h = stop_held-Keeps c s h
    disconnect_answered-Keeps (some result) c s h =
        stop_held-Keeps c (log_swanctl k output result s)
          (log_swanctl-Keeps Once (keeps Once) result c s h)

    pub await_stop-Keeps :
        (was_killed : Bool) (files : Option IpsecRuntimeFiles)
        → Keeps Once (await_stop k output was_killed files)
    unfolding await_stop
    await_stop-Keeps true files c s h = finalize-Keeps files c (effect killed s) h
    await_stop-Keeps false files c s h = finalize-Keeps files c s h
