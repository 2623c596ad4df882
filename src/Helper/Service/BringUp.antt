-- ===== src/Helper/Service/BringUp.antt =====
-- `_on_exit` and the worker `_ipsec_bring_up` (helper/service.py). The worker stands still at each
-- of its waits: a step begins where an answer arrives. `detail` is what the last lines of the
-- process say, as the message of an early exit quotes it.
use fortigate_vpn_linux_gui.Prelude.{
  ℕ, ℤ, String, Bool, true, false, not, ◌&&◌, ◌||◌, Option, none, some, List, [], ◌<>◌, Result, ok,
  raised, str_eq, is_some, ◌==◌, ◌▷◌, if◌then◌else◌, decimal_ℤ,
}
use fortigate_vpn_linux_gui.Vpn.Backend.Types.{exit, connected_kind}
use fortigate_vpn_linux_gui.Helper.Service.Types.{
  SwanctlCommandResult, IpsecRuntimeFiles, swanctl, stopped_leftovers, no_dns, Service, Host,
}
use fortigate_vpn_linux_gui.Helper.Service.Output.{bare, with_line, error_event, effect, emit}
use fortigate_vpn_linux_gui.Helper.Service.Teardown.{
  finalize_ipsec_teardown, log_swanctl, disconnect, disconnect_begins,
}
use fortigate_vpn_linux_gui.Helper.Service.Lines.{output_to, apply_to, report_overtaken}

-- The fields that `_on_exit` changes under the lock, given whether the start counts as failed.
unfoldable pub exit_locked : Bool → Service → Service
exit_locked failing s = record s {
  process = none;
  alive = false;
  argv = [];
  reported = record s.reported { start_error = s.reported.start_error || failing };
  startup_logs = [];
  dns = no_dns;
}

unfoldable pub start_failed : Service → Bool
start_failed s =
    (is_some s.ipsec_runtime || is_some s.ipsec_files)
    && not s.reported.connected
    && not s.ipsec_cancel
    && not s.reported.start_error

unfoldable pub charon_exit_message : ℤ → String → String
charon_exit_message code detail =
    let message =
      "The IPsec daemon exited before opening its control socket (status "
      <> decimal_ℤ code
      <> ")." in
    if str_eq detail "" then message else message <> " Last output: " <> detail

-- `_emit_ipsec_daemon_start_failed`, and `_emit_ipsec_initiate_failed` with its report.
unfoldable pub emit_start_error : String → String → Service → Service
emit_start_error code message s =
    if s.reported.start_error
    then s
    else emit (error_event code message)
        (record s { reported = record s.reported { start_error = true } })

pub data WaitOutcome : Type 0 where
  ready exited cancelled timed_out : WaitOutcome

module _ (h : Host) (detail : List String → String) (depth : ℕ) where
  -- `_on_output`
  unfoldable pub on_output : String → Service → Service
  on_output = output_to h depth

  unfoldable pub on_exit : ℤ → Service → Service
  unfolding exit_locked start_failed charon_exit_message on_output finalize_ipsec_teardown
  on_exit code s =
      let failing = start_failed s in
      let s' =
        exit_locked failing s
        ▷ finalize_ipsec_teardown h on_output s.ipsec_files
        ▷ effect stopped_leftovers in
      let failure =
        error_event "IPSEC_DAEMON_START_FAILED"
          (charon_exit_message code (detail s.startup_logs)) in
      (if failing then emit failure s' else s')
      ▷ emit (record (bare exit) { exit_code = some code; argv = s.argv })

  -- `self.disconnect(wait=False)`; `stop` is what the terminate command answers, if the answer is
  -- there before another thread acts.
  abbrev pub stopping : Option SwanctlCommandResult → Service → Service
  stopping none = disconnect_begins h on_output
  stopping (some result) = disconnect h on_output result

  abbrev pub run_load :
      Result String (List String × List String) → Option SwanctlCommandResult → Service → Service
  run_load (raised reason) stop s =
      s ▷ emit (error_event "INVALID_EXECUTABLE" reason) ▷ stopping stop
  run_load (ok (load, initiate)) stop s = effect (swanctl load) s

  -- The wait for the control socket has ended.
  unfoldable pub bring_up_waited :
      WaitOutcome → IpsecRuntimeFiles → String → Option SwanctlCommandResult → Service → Service
  unfolding emit_start_error on_output disconnect disconnect_begins
  bring_up_waited cancelled files path stop s = s
  bring_up_waited exited files path stop s = s
  bring_up_waited timed_out files path stop s =
      s
      ▷ emit_start_error "IPSEC_DAEMON_START_FAILED"
          "The IPsec daemon did not open its control socket."
      ▷ stopping stop
  bring_up_waited ready files path stop s =
      if s.ipsec_cancel then s else run_load (h.swanctl_load_argv path files.swanctl_conf) stop s

  -- The command that loads the configuration has ended.
  unfoldable pub bring_up_loaded :
      SwanctlCommandResult → List String → Option SwanctlCommandResult → Service → Service
  unfolding log_swanctl on_output disconnect disconnect_begins
  bring_up_loaded load initiate stop s =
      let s' = log_swanctl h on_output load s in
      if not (load.returncode == 0)
      then s'
        ▷ emit (error_event "FAILED_TO_START" "IPsec configuration could not be loaded.")
        ▷ stopping stop
      else if s'.ipsec_cancel
      then s'
      else effect (swanctl initiate) s'

  abbrev pub report_initiated : Service → Service
  report_initiated s =
      if s.reported.connected
      then s
      else record s { reported = record s.reported { connected = true } }
        ▷ apply_to h depth
        ▷ emit (with_line connected_kind "IPsec CHILD SA established")

  -- The same, by a worker whose test of the flag another thread has overtaken.
  abbrev pub initiation_overtaken : Service → Service
  initiation_overtaken = report_overtaken h (apply_to h depth) "IPsec CHILD SA established"

  -- The command that initiates the CHILD SA has ended.
  unfoldable pub bring_up_initiated :
      SwanctlCommandResult → Option SwanctlCommandResult → Service → Service
  unfolding log_swanctl on_output disconnect disconnect_begins emit_start_error
  bring_up_initiated initiate stop s =
      let s' = log_swanctl h on_output initiate s in
      let (code, message) = h.initiate_report s'.startup_logs in
      if not (initiate.returncode == 0)
      then s' ▷ emit_start_error code message ▷ stopping stop
      else report_initiated s'
