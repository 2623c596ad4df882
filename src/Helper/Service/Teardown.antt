-- ===== src/Helper/Service/Teardown.antt =====
-- The end of a session: the restoring of DNS and of the gateway's route, `disconnect`,
-- `_await_stop`, `_on_exit` and the commands of swanctl (helper/service.py). Restoring is best
-- effort: it reports a failure in its result and raises nothing.
use fortigate_vpn_linux_gui.Prelude.{
  String, Bool, true, false, ◌&&◌, ◌||◌, Option, none, some, List, [], ◌∷◌, ◌++◌, ◌<>◌, any, joined,
  str_eq, is_some, ◌==◌, ◌▷◌, if◌then◌else◌,
}
use fortigate_vpn_linux_gui.Helper.Service.Types.{
  SwanctlCommandResult, IpsecRuntimeFiles, GatewayHostRoute, Restored, terminated, killed,
  stopped_leftovers, swanctl, restored_dns, restored_route, wiped, torn_down, Service, Host,
}
use fortigate_vpn_linux_gui.Helper.Service.Output.{effect}

abbrev pub via_text : Option String → String
via_text none = "none"
via_text (some via) = if str_eq via "" then "none" else via

abbrev pub endpoint_text : GatewayHostRoute → String
endpoint_text route =
    "endpoint=" <> route.destination <> " via=" <> via_text route.via <> " dev=" <> route.device

abbrev pub or_files : Option IpsecRuntimeFiles → Option IpsecRuntimeFiles → Option IpsecRuntimeFiles
or_files none held = held
or_files (some files) held = some files

abbrev pub same_files : Option IpsecRuntimeFiles → Option IpsecRuntimeFiles → Bool
same_files none none = true
same_files (some a) (some b) = a.identity == b.identity
same_files _ _ = false

-- `files is None or self._ipsec_files is files or target is self._ipsec_files`
abbrev pub releases : Option IpsecRuntimeFiles → Option IpsecRuntimeFiles → Bool
releases none held = true
releases (some files) held = same_files held (some files)

-- What `_finalize_ipsec_teardown` does to the fields at its end.
unfoldable pub release : Option IpsecRuntimeFiles → Service → Service
release files s =
    let gone = releases files s.ipsec_files in
    record s {
      gateway_route = none;
      ipsec_runtime = if gone then none else s.ipsec_runtime;
      ipsec_files = if gone then none else s.ipsec_files;
      ipsec_swanctl = if gone then none else s.ipsec_swanctl;
      teardown_done = true;
    }

unfoldable pub drop_ipsec : Service → Service
drop_ipsec s = record s { ipsec_runtime = none; ipsec_files = none; ipsec_swanctl = none }

module _ (h : Host) (output : String → Service → Service) where
  abbrev pub log_summary : String → Service → Service
  log_summary summary s =
      if str_eq summary "" then s else output ("resolvectl status after DNS cleanup: " <> summary) s

  unfoldable pub log_restored : Option Restored → Service → Service
  log_restored none s = s
  log_restored (some r) s =
      s
      ▷ output (
          "IPsec DNS cleanup "
          <> (if r.verified then "verified" else "unverified")
          <> ": "
          <> r.detail)
      ▷ log_summary (joined " | " r.status_text)

  unfoldable pub restore_ipsec_dns : IpsecRuntimeFiles → Service → Service
  unfolding log_restored
  restore_ipsec_dns files s =
      let result = h.restore_dns s.out files.dns_state in
      record s { dns = record s.dns { applied = false } }
      ▷ effect (restored_dns files.dns_state)
      ▷ log_restored result

  unfoldable pub log_route : GatewayHostRoute → Restored → Service → Service
  log_route route r s =
      if r.verified
      then s
        ▷ output "Gateway route restore completed"
        ▷ output ("Gateway route restore verified: " <> endpoint_text route)
      else output ("Gateway route restore failed: " <> r.detail) s

  unfoldable pub restore_gateway : Option GatewayHostRoute → Service → Service
  unfolding log_route
  restore_gateway none s = s
  restore_gateway (some route) s =
      let s' = output "Gateway route restore starting" s in
      effect (restored_route route) s' ▷ log_route route (h.restore_route s'.out route)

  abbrev pub dns_of : Option IpsecRuntimeFiles → Service → Service
  dns_of none s = s
  dns_of (some files) s = restore_ipsec_dns files s

  abbrev pub written_route : Option IpsecRuntimeFiles → Service → Option GatewayHostRoute
  written_route none s = none
  written_route (some files) s = elim files.gateway_route [
    | none ↦ none
    | some path ↦ h.read_route s.out path
  ]

  abbrev pub route_of :
      Option GatewayHostRoute → Option IpsecRuntimeFiles → Service → Option GatewayHostRoute
  route_of none target s = written_route target s
  route_of (some route) target s = some route

  unfoldable pub finalize_ipsec_teardown : Option IpsecRuntimeFiles → Service → Service
  unfolding restore_ipsec_dns restore_gateway release
  finalize_ipsec_teardown files s =
      let target = or_files files s.ipsec_files in
      if s.teardown_done
      then s
      else s
        ▷ effect torn_down
        ▷ dns_of target
        ▷ restore_gateway (route_of s.gateway_route target s)
        ▷ effect (wiped target)
        ▷ release files

  abbrev pub log_lines : List String → Service → Service
  log_lines [] s = s
  log_lines (line ∷ rest) s = log_lines rest (output line s)

  abbrev pub useful : List String → List String
  useful [] = []
  useful (line ∷ rest) =
      if str_eq line "" || h.is_usage_line line then useful rest else line ∷ useful rest

  -- What `_run_swanctl` does with the output of a command that has ended.
  unfoldable pub log_swanctl : SwanctlCommandResult → Service → Service
  log_swanctl result s =
      let lines = useful (result.stdout ++ result.stderr) in
      let cli_error = any h.is_cli_error_line lines in
      let s' = record s {
        reported = record s.reported { cli_error = s.reported.cli_error || cli_error };
      } in
      if cli_error && s.reported.cli_error then s' else log_lines lines s'

  abbrev pub run_terminate : Option (List String) → SwanctlCommandResult → Service → Service
  run_terminate none result s = s
  run_terminate (some argv) result s = s ▷ effect (swanctl argv) ▷ log_swanctl result

  abbrev pub terminate_with :
      Option IpsecRuntimeFiles → Option String → SwanctlCommandResult → Service → Service
  terminate_with (some files) (some path) result s =
      run_terminate (if str_eq path "" then none else h.swanctl_argv path "terminate") result s
  terminate_with _ _ result s = s

  -- `result` is what the command answers.
  unfoldable pub ipsec_terminate_sa : SwanctlCommandResult → Service → Service
  unfolding log_swanctl
  ipsec_terminate_sa result s = terminate_with s.ipsec_files s.ipsec_swanctl result s

  -- The end of `disconnect`, with the wait for the process left to `await_stop`.
  unfoldable pub stop_held : Service → Service
  unfolding finalize_ipsec_teardown drop_ipsec
  stop_held s =
      if is_some s.process
      then effect terminated s
      else s ▷ finalize_ipsec_teardown s.ipsec_files ▷ effect stopped_leftovers ▷ drop_ipsec

  -- `disconnect` up to the wait for the process, for which `await_stop` stands.
  unfoldable pub disconnect : SwanctlCommandResult → Service → Service
  unfolding ipsec_terminate_sa stop_held
  disconnect result s = record s { ipsec_cancel = true } ▷ ipsec_terminate_sa result ▷ stop_held

  abbrev pub terminate_command : Option IpsecRuntimeFiles → Option String → Option (List String)
  terminate_command (some files) (some path) =
      if str_eq path "" then none else h.swanctl_argv path "terminate"
  terminate_command _ _ = none

  abbrev pub command_begins : Option (List String) → Service → Service
  command_begins none s = s
  command_begins (some argv) s = effect (swanctl argv) s

  -- `disconnect` in two halves, before and after the wait for the terminate command, where other
  -- threads may act in between.
  unfoldable pub disconnect_begins : Service → Service
  disconnect_begins s =
      record s { ipsec_cancel = true }
      ▷ command_begins (terminate_command s.ipsec_files s.ipsec_swanctl)

  unfoldable pub disconnect_answered : Option SwanctlCommandResult → Service → Service
  unfolding log_swanctl stop_held
  disconnect_answered none s = stop_held s
  disconnect_answered (some result) s = s ▷ log_swanctl result ▷ stop_held

  -- The process did not end within the grace period: `was_killed`.
  unfoldable pub await_stop : Bool → Option IpsecRuntimeFiles → Service → Service
  unfolding finalize_ipsec_teardown
  await_stop was_killed files s =
      (if was_killed then effect killed s else s)
      ▷ finalize_ipsec_teardown files
      ▷ effect stopped_leftovers
