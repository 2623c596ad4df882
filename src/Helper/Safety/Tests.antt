-- ===== src/Helper/Safety/Tests.antt =====
-- Runs of the helper service against a small system, and each theorem at one of them
-- (helper/service.py).
use fortigate_vpn_linux_gui.Prelude.{
  pos, suc, ◌≤◌, length, String, Bool, true, false, none, some, List, [], ◌∷◌, ◌++◌, ok, raised,
  str_eq, if◌then◌else◌, ◌≡◌, refl, ap, Result,
}
use mathlib.Core.Path.{subst}
use fortigate_vpn_linux_gui.Vpn.Backend.Types.{
  ConnectRequest, Credentials, standard, openfortivpn, ipsec,
}
use fortigate_vpn_linux_gui.Helper.Service.Types.{
  SwanctlCommandResult, IpsecRuntimeFiles, DnsState, Restored, auth_url, saml_nothing,
  stopped_leftovers, Service, Host, new_service,
}
use fortigate_vpn_linux_gui.Helper.Service.Teardown.{disconnect}
use fortigate_vpn_linux_gui.Helper.Service.Connect.{connect}
use fortigate_vpn_linux_gui.Helper.Service.Openfortivpn.{internal_error}
use fortigate_vpn_linux_gui.Helper.Service.BringUp.{on_output, on_exit}
use fortigate_vpn_linux_gui.Helper.Service.Run.{
  Action, request, line, process_exit, initiated, dies, tested, overtakes, stopped, connect_request,
  credentials_request, step, run,
}
use fortigate_vpn_linux_gui.Helper.Service.Lines.{
  output_from, output_to, on_output_with, apply_ipsec_dns_with,
}
use fortigate_vpn_linux_gui.Helper.Service.Output.{noted, failed_text}
use fortigate_vpn_linux_gui.Helper.Safety.Sound.{
  connected_count, url_count, teardown_count, are_secrets_left, signals, overtaken_count,
}
use fortigate_vpn_linux_gui.Helper.Safety.Run.{out_of, run-reports, run-teardowns, run-startup_logs}
use fortigate_vpn_linux_gui.Helper.Safety.Secrets.{IsCleanOrUnwritten, connect-failed}
use fortigate_vpn_linux_gui.Helper.Safety.Exit.{on_exit-ends, disconnect-on_exit, on_exit-stale}
use fortigate_vpn_linux_gui.Helper.Safety.Depth.{Silent, QuietFailures, output_from-deeper}

abbrev runtime_files : IpsecRuntimeFiles
runtime_files = record {
  identity = 0;
  runtime_dir = "/run/d";
  strongswan_conf = "/run/c";
  swanctl_conf = "/run/s";
  swanctl_client_conf = "/run/k";
  dns_state = "/run/n";
  license_info = none;
  gateway_route = none;
}

abbrev restored : Restored
restored = record { verified = true; detail = "ok"; status_text = [] }

abbrev small_host : Bool → Host
small_host starts = record {
  redact = λ text. text;
  is_noise = λ text. str_eq text "noise";
  cert_feed = λ lines. none;
  cert_snapshot = λ lines. none;
  is_certificate_failure = λ text. false;
  is_connected_line = λ text. str_eq text "up";
  saml_line = λ text. if str_eq text "url" then auth_url (some "https://a") else saml_nothing;
  safe_url = λ text. some text;
  dns_line = λ text. if str_eq text "dns" then some "10.0.0.1" else none;
  vip_line = λ text. if str_eq text "vip" then some "10.0.0.2" else none;
  split_line = λ text. none;
  is_wildcard = λ text. false;
  is_usage_line = λ text. false;
  is_cli_error_line = λ text. false;
  interface_of = λ out vip. some "tun0";
  apply_dns = λ out interface servers domains all. raised "no resolvectl";
  restore_dns = λ out path. some restored;
  has_leftover = λ out. false;
  select = λ out saml. none;
  is_approved = λ path. true;
  helper_argv = λ path r. ok (path ∷ []);
  unsupported_message = λ version. "unsupported";
  starts = λ out argv. starts;
  pid = λ n. some (pos n);
  support_summary = λ settings. "unsupported";
  discover = λ out. some ("/usr/lib/charon", "/usr/sbin/swanctl");
  is_approved_ipsec = λ charon swanctl. true;
  port_conflict = λ out. none;
  runtime_dir = λ out. "/run/d";
  emits_vids = λ settings. false;
  gateway_snapshot = λ out gateway. raised "no route";
  write_runtime = λ out r settings credentials. some runtime_files;
  writes_route = λ out path route. true;
  plugin_missing = λ out path. false;
  license_length = λ out files. none;
  charon_argv = λ charon files. ok (charon ∷ []);
  read_route = λ out path. none;
  restore_route = λ out route. restored;
  swanctl_argv = λ path operation. some (path ∷ operation ∷ []);
  swanctl_load_argv = λ path conf. ok (path ∷ [], path ∷ []);
  initiate_report = λ logs. ("FAILED_TO_START", "failed");
}

abbrev tunnel_request : ConnectRequest
tunnel_request = record {
  gateway = "vpn.example";
  port = 500;
  auth_mode = standard;
  trusted_certificate_fingerprint = none;
  backend = ipsec;
  ipsec = none;
}

abbrev user : Credentials
user = record { psk = "k"; username = "u"; password = "p" }

abbrev done_result : SwanctlCommandResult
done_result = record { returncode = 0; stdout = []; stderr = [] }

abbrev last_line : List String → String
last_line logs = ""

-- An IPsec session that comes up, and says so three times.
abbrev session : List Action
session =
    request (connect_request tunnel_request) none
    ∷ request (credentials_request (ok user)) none
    ∷ line "dns"
    ∷ line "vip"
    ∷ line "up"
    ∷ line "up"
    ∷ initiated done_result (some done_result)
    ∷ []

session_reports : connected_count (run (small_host true) last_line 3 session new_service).out ≡ 1
unfolding step output_to on_output_with apply_ipsec_dns_with noted
session_reports = refl

-- A line of the process and the end of the initiation both find the flag unset.
abbrev raced_session : List Action
raced_session =
    request (connect_request tunnel_request) none
    ∷ request (credentials_request (ok user)) none
    ∷ tested "up"
    ∷ initiated done_result (some done_result)
    ∷ overtakes "up"
    ∷ []

raced_session_reports :
    connected_count (run (small_host true) last_line 3 raced_session new_service).out ≡ 2
unfolding step output_to on_output_with apply_ipsec_dns_with noted
raced_session_reports = refl

run-reports_example :
    (connected_count (run (small_host true) last_line 3 raced_session new_service).out
      ≤ suc (overtaken_count (run (small_host true) last_line 3 raced_session new_service).out))
    × (url_count (run (small_host true) last_line 3 raced_session new_service).out
        ≤ suc (overtaken_count (run (small_host true) last_line 3 raced_session new_service).out))
run-reports_example = run-reports (small_host true) last_line 3 raced_session

run-startup_logs_example :
    length (run (small_host true) last_line 3 session new_service).startup_logs ≤ 32
run-startup_logs_example = run-startup_logs (small_host true) last_line 3 session

run-teardowns_example :
    teardown_count (run (small_host true) last_line 3 session new_service).out
    ≤ (if (run (small_host true) last_line 3 session new_service).teardown_done then 1 else 0)
run-teardowns_example = run-teardowns (small_host true) last_line 3 session

-- The gateway has a route of its own, whose state cannot be written.
abbrev full_disk_host : Host
full_disk_host = record (small_host true) {
  gateway_snapshot =
      λ out gateway. ok (record { destination = "203.0.113.1"; via = none; device = "eth0" });
  write_runtime =
      λ out r settings credentials. some (record runtime_files { gateway_route = some "/run/r" });
  writes_route = λ out path route. false;
}

abbrev failed_on_full_disk : Service
failed_on_full_disk =
    (connect full_disk_host (out_of full_disk_host last_line 3) tunnel_request (some user)
      new_service).0

full_disk_secrets : are_secrets_left failed_on_full_disk.out ≡ true
unfolding connect on_output output_to on_output_with
full_disk_secrets = refl

connect-failed_example : IsCleanOrUnwritten failed_on_full_disk.out
unfolding connect on_output output_to on_output_with
connect-failed_example =
    connect-failed full_disk_host last_line 3 [] tunnel_request (some user) internal_error refl refl

-- The first attempt ends, and a second one starts.
abbrev second_session : List Action
second_session =
    request (connect_request tunnel_request) none
    ∷ request (credentials_request (ok user)) none
    ∷ process_exit (pos 1)
    ∷ request (connect_request tunnel_request) none
    ∷ request (credentials_request (ok user)) none
    ∷ []

abbrev second_files : IpsecRuntimeFiles
second_files = record runtime_files { identity = 1 }

on_exit-ends_example :
    ((on_exit
        (small_host true)
        last_line
        3
        (pos 0)
        (run (small_host true) last_line 3 second_session new_service)).process
      ≡ none)
    × ((on_exit
          (small_host true)
          last_line
          3
          (pos 0)
          (run (small_host true) last_line 3 second_session new_service)).ipsec_files
        ≡ none)
    × ((on_exit
          (small_host true)
          last_line
          3
          (pos 0)
          (run (small_host true) last_line 3 second_session new_service)).teardown_done
        ≡ true)
    × (are_secrets_left
          (on_exit
            (small_host true)
            last_line
            3
            (pos 0)
            (run (small_host true) last_line 3 second_session new_service)).out
        ≡ false)
unfolding step output_to on_output_with apply_ipsec_dns_with noted
on_exit-ends_example =
    on_exit-ends (small_host true) last_line 3 second_session (pos 0) second_files refl refl

abbrev ssl_request : ConnectRequest
ssl_request = record tunnel_request { backend = openfortivpn; ipsec = none }

abbrev ssl_host : Host
ssl_host = record (small_host true) {
  select = λ out saml. some (record {
    executable_path = "/usr/bin/openfortivpn";
    version = none;
    supports_saml = true;
    supports_cookie_stdin = true;
    from_locator = false;
  });
}

-- The exit of the first process is reported when the second one runs.
abbrev late_exit : List Action
late_exit =
    request (connect_request ssl_request) none
    ∷ dies
    ∷ request (connect_request ssl_request) none
    ∷ []

late_exit_processes : (run ssl_host last_line 3 late_exit new_service).process ≡ some 1
unfolding step output_to on_output_with apply_ipsec_dns_with noted
late_exit_processes = refl

disconnect-on_exit_example :
    signals
      (disconnect ssl_host
        (out_of ssl_host last_line 3)
        done_result
        (run ssl_host last_line 3 (late_exit ++ (process_exit (pos 1) ∷ [])) new_service)).out
    ≡ stopped_leftovers
      ∷ signals
          (run ssl_host last_line 3 (late_exit ++ (process_exit (pos 1) ∷ [])) new_service).out
disconnect-on_exit_example = disconnect-on_exit ssl_host last_line 3 late_exit (pos 1) done_result

abbrev failed_result : SwanctlCommandResult
failed_result = record { returncode = 1; stdout = []; stderr = [] }

-- The first session fails and leaves its stop waiting, its process dies, and a second one starts.
abbrev overlapping_session : List Action
overlapping_session =
    request (connect_request tunnel_request) none
    ∷ request (credentials_request (ok user)) none
    ∷ initiated failed_result (some done_result)
    ∷ dies
    ∷ request (connect_request tunnel_request) none
    ∷ request (credentials_request (ok user)) none
    ∷ []

on_exit-stale_example :
    ((run
        (small_host true)
        last_line
        3
        (overlapping_session ++ (stopped false (some runtime_files) ∷ []))
        new_service).teardown_done
      ≡ true)
    × ((run
          (small_host true)
          last_line
          3
          (overlapping_session ++ (stopped false (some runtime_files) ∷ process_exit (pos 0) ∷ []))
          new_service).ipsec_files
        ≡ some second_files)
    × (teardown_count
          (run
            (small_host true)
            last_line
            3
            (overlapping_session
              ++ (stopped false (some runtime_files) ∷ process_exit (pos 0) ∷ []))
            new_service).out
        ≡ teardown_count
            (run
              (small_host true)
              last_line
              3
              (overlapping_session ++ (stopped false (some runtime_files) ∷ []))
              new_service).out)
unfolding step output_to on_output_with apply_ipsec_dns_with noted
on_exit-stale_example =
    on_exit-stale (small_host true) last_line 3 overlapping_session false (pos 0) runtime_files
      second_files refl refl refl

abbrev reason_of : Result String DnsState → String
reason_of (ok state) = ""
reason_of (raised reason) = reason

small_host-QuietFailures : QuietFailures (small_host true)
small_host-QuietFailures out interface servers domains catch_all reason e =
    subst (λ r. Silent (small_host true) (failed_text r)) (ap reason_of e) (refl, refl)

-- A session that has its servers and its address, before the line that says that it is up.
abbrev before_up : Service
before_up =
    run (small_host true) last_line 3
      (request (connect_request tunnel_request) none
        ∷ request (credentials_request (ok user)) none
        ∷ line "dns"
        ∷ line "vip"
        ∷ [])
      new_service

output_from-deeper_example :
    output_from (small_host true) (λ text s. s) 2 "up" before_up
    ≡ output_from (small_host true) (λ text s. s) 3 "up" before_up
output_from-deeper_example =
    output_from-deeper (small_host true) small_host-QuietFailures (λ text s. s) (λ text s. s) 0 1
      "up" before_up
