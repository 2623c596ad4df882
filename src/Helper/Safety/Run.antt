-- ===== src/Helper/Safety/Run.antt =====
-- Every step of the helper service keeps the invariant, and what follows for any run
-- (helper/service.py).
use fortigate_vpn_linux_gui.Prelude.{
  ℕ, suc, ℤ, ◌≤◌, String, Bool, true, false, not, Option, none, some, List, [], ◌∷◌, ◌++◌, ◌≡◌,
  refl, Result, ok, raised, length, is_some, ◌==◌, if◌then◌else◌, arith,
}
use fortigate_vpn_linux_gui.Vpn.Backend.Types.{ConnectRequest, Credentials}
use fortigate_vpn_linux_gui.Helper.Protocol.{HelperEvent, HelperError}
use fortigate_vpn_linux_gui.Helper.Service.Types.{
  SwanctlCommandResult, IpsecRuntimeFiles, Service, Host, new_service,
}
use fortigate_vpn_linux_gui.Helper.Service.Output.{emit, error_event}
use fortigate_vpn_linux_gui.Helper.Service.Lines.{apply_to}
use fortigate_vpn_linux_gui.Helper.Service.Teardown.{log_swanctl, disconnect, disconnect_answered}
use fortigate_vpn_linux_gui.Helper.Service.Connect.{connect}
use fortigate_vpn_linux_gui.Helper.Service.Openfortivpn.{
  helper_error, internal_error, Outcome, is_ipsec,
}
use fortigate_vpn_linux_gui.Helper.Service.BringUp.{
  exit_locked, start_failed, emit_start_error, stopping, WaitOutcome, ready, exited, cancelled,
  timed_out, on_output, on_exit, run_load, bring_up_waited, bring_up_loaded, bring_up_initiated,
}
use fortigate_vpn_linux_gui.Helper.Service.Run.{
  Request, hello_request, status_request, disconnect_request, connect_request, credentials_request,
  Action, request, line, dies, process_exit, waited, loaded, initiated, stopped, stopped_ack,
  tested, overtakes, url_overtakes, initiation_overtakes, disconnecting, answered, answered_ack,
  acknowledged, and_ack, with_credentials, with_pending, handle_request, reported_failure, step,
  run, ack_event, ipsec_ack,
}
use fortigate_vpn_linux_gui.Helper.Safety.Sound.{
  OnFrame, Keeps, if_either, connected-Sound, connected_count, url_count, teardown_count, potential,
  overtaken_count,
}
use fortigate_vpn_linux_gui.Helper.Safety.Lines.{output_to-Keeps, apply_to-Keeps}
use fortigate_vpn_linux_gui.Helper.Safety.Overtaken.{
  output_tested-Keeps, output_overtaken-Keeps, url_overtaken-Keeps, report_overtaken-Keeps,
}
use fortigate_vpn_linux_gui.Helper.Safety.Teardown.{
  Once, finalize-Keeps, disconnect-Keeps, disconnect_begins-Keeps, disconnect_answered-Keeps,
  await_stop-Keeps, log_swanctl-Keeps,
}
use fortigate_vpn_linux_gui.Helper.Safety.Connect.{Safe, SafeOutcome, connect-Safe}

module _ (k : Host) (detail : List String → String) (depth : ℕ) where
  abbrev pub out_of : String → Service → Service
  out_of = on_output k detail depth

  pub on_output-Keeps : (T : OnFrame) (text : String) → Keeps T (out_of text)
  unfolding on_output
  on_output-Keeps T text = output_to-Keeps T k depth text

  stopping-Safe :
      (stop : Option SwanctlCommandResult) (s : Service)
      → Safe s
      → Safe (stopping k detail depth stop s)
  stopping-Safe none s h = disconnect_begins-Keeps k out_of on_output-Keeps 1 s h
  stopping-Safe (some result) s h = disconnect-Keeps k out_of on_output-Keeps result 1 s h

  acknowledged-Safe :
      (id : Option String) (s : Service) → Safe s → Safe (acknowledged k detail depth id s)
  acknowledged-Safe id s h = if_either Safe (is_some s.process) _ _ (λ e. h) (λ e. h)

  emit_start_error-Safe :
      (code message : String) (s : Service) → Safe s → Safe (emit_start_error code message s)
  unfolding emit_start_error
  emit_start_error-Safe code message s h =
      if_either Safe s.reported.start_error _ _ (λ e. h) (λ e. h)

  on_exit-Safe : (code : ℤ) (s : Service) → Safe s → Safe (on_exit k detail depth code s)
  unfolding on_exit exit_locked
  on_exit-Safe code s h =
      let h' =
        finalize-Keeps k out_of on_output-Keeps s.ipsec_files 1 (exit_locked (start_failed s) s)
          (omega arith, h.1, h.2, h.3) in
      if_either Safe (start_failed s) _ _ (λ e. h') (λ e. h')

  run_load-Safe :
      (r : Result String (List String × List String)) (stop : Option SwanctlCommandResult)
      (s : Service)
      → Safe s
      → Safe (run_load k detail depth r stop s)
  run_load-Safe (raised reason) stop s h =
      stopping-Safe stop (emit (error_event "INVALID_EXECUTABLE" reason) s) h
  run_load-Safe (ok (load, initiate)) stop s h = h

  bring_up_waited-Safe :
      (o : WaitOutcome) (files : IpsecRuntimeFiles) (path : String)
      (stop : Option SwanctlCommandResult) (s : Service)
      → Safe s
      → Safe (bring_up_waited k detail depth o files path stop s)
  unfolding bring_up_waited
  bring_up_waited-Safe cancelled files path stop s h = h
  bring_up_waited-Safe exited files path stop s h = h
  bring_up_waited-Safe timed_out files path stop s h =
      let code : String = "IPSEC_DAEMON_START_FAILED" in
      let message : String = "The IPsec daemon did not open its control socket." in
      stopping-Safe stop (emit_start_error code message s) (emit_start_error-Safe code message s h)
  bring_up_waited-Safe ready files path stop s h =
      if_either Safe s.ipsec_cancel _ _ (λ e. h)
        (λ e. run_load-Safe (k.swanctl_load_argv path files.swanctl_conf) stop s h)

  bring_up_loaded-Safe :
      (load : SwanctlCommandResult) (initiate : List String) (stop : Option SwanctlCommandResult)
      (s : Service)
      → Safe s
      → Safe (bring_up_loaded k detail depth load initiate stop s)
  unfolding bring_up_loaded
  bring_up_loaded-Safe load initiate stop s h =
      let s' = log_swanctl k out_of load s in
      let h' = log_swanctl-Keeps k out_of Once (on_output-Keeps Once) load 1 s h in
      if_either Safe (not (load.returncode == 0)) _ _
        (λ e.
          stopping-Safe stop
            (emit (error_event "FAILED_TO_START" "IPsec configuration could not be loaded.") s') h')
        (λ e. if_either Safe s'.ipsec_cancel _ _ (λ e'. h') (λ e'. h'))

  bring_up_initiated-Safe :
      (initiate : SwanctlCommandResult) (stop : Option SwanctlCommandResult) (s : Service)
      → Safe s
      → Safe (bring_up_initiated k detail depth initiate stop s)
  unfolding bring_up_initiated
  bring_up_initiated-Safe initiate stop s h =
      let s' = log_swanctl k out_of initiate s in
      let h' = log_swanctl-Keeps k out_of Once (on_output-Keeps Once) initiate 1 s h in
      if_either Safe (not (initiate.returncode == 0)) _ _
        (λ e.
          let (code, message) = k.initiate_report s'.startup_logs in
          stopping-Safe stop (emit_start_error code message s')
            (emit_start_error-Safe code message s' h'))
        (λ e.
          if_either Safe s'.reported.connected _ _ (λ e'. h')
            (λ e'.
              connected-Sound Once 1 (apply_to k depth) "IPsec CHILD SA established" s'
                (apply_to-Keeps Once k depth) h' e'))

  and_ack-Safe :
      (e : HelperEvent) (o : Outcome)
      → Safe (emit e o.0)
      → SafeOutcome o
      → SafeOutcome (and_ack k detail depth e o)
  and_ack-Safe e (s, none) g h = g
  and_ack-Safe e (s, some failure) g h = h

  with_credentials-Safe :
      (r : ConnectRequest) (id : Option String) (parsed : Result HelperError Credentials)
      (s : Service)
      → Safe s
      → SafeOutcome (with_credentials k detail depth r id parsed s)
  with_credentials-Safe r id (raised e) s h = h
  with_credentials-Safe r id (ok credentials) s h =
      let g = connect-Safe k out_of on_output-Keeps r (some credentials) s h in
      and_ack-Safe (ipsec_ack id) (connect k out_of r (some credentials) s) g g

  with_pending-Safe :
      (p : Option ConnectRequest) (id : Option String) (parsed : Result HelperError Credentials)
      (s : Service)
      → Safe s
      → SafeOutcome (with_pending k detail depth p id parsed s)
  with_pending-Safe none id parsed s h = h
  with_pending-Safe (some r) id parsed s h = with_credentials-Safe r id parsed s h

  handle_request-Safe :
      (r : Request) (id : Option String) (s : Service)
      → Safe s
      → SafeOutcome (handle_request k detail depth r id s)
  unfolding handle_request
  handle_request-Safe hello_request id s h = h
  handle_request-Safe status_request id s h = h
  handle_request-Safe (disconnect_request none) id s h = stopping-Safe none s h
  handle_request-Safe (disconnect_request (some result)) id s h =
      acknowledged-Safe id (disconnect k out_of result s) (stopping-Safe (some result) s h)
  handle_request-Safe (connect_request r) id s h =
      let g = connect-Safe k out_of on_output-Keeps r none s h in
      if_either SafeOutcome (is_ipsec r.backend) _ _ (λ e. h)
        (λ e. and_ack-Safe (ack_event id "starting") (connect k out_of r none s) g g)
  handle_request-Safe (credentials_request parsed) id s h =
      with_pending-Safe s.pending_ipsec id parsed (record s { pending_ipsec = none }) h

  reported_failure-Safe : (o : Outcome) → SafeOutcome o → Safe (reported_failure k detail depth o)
  reported_failure-Safe (s, none) h = h
  reported_failure-Safe (s, some (helper_error code message)) h = h
  reported_failure-Safe (s, some internal_error) h = h

  pub step-Safe : (a : Action) (s : Service) → Safe s → Safe (step k detail depth a s)
  unfolding step
  step-Safe (request r id) s h =
      reported_failure-Safe (handle_request k detail depth r id s) (handle_request-Safe r id s h)
  step-Safe (line text) s h = on_output-Keeps Once text 1 s h
  step-Safe dies s h = h
  step-Safe (process_exit code) s h = on_exit-Safe code s h
  step-Safe (waited o files path stop) s h = bring_up_waited-Safe o files path stop s h
  step-Safe (loaded load initiate stop) s h = bring_up_loaded-Safe load initiate stop s h
  step-Safe (initiated initiate stop) s h = bring_up_initiated-Safe initiate stop s h
  step-Safe (tested text) s h =
      output_tested-Keeps Once k (apply_to k depth) (apply_to-Keeps Once k depth) text 1 s h
  step-Safe (overtakes text) s h =
      output_overtaken-Keeps Once k (apply_to k depth) (apply_to-Keeps Once k depth) text 1 s h
  step-Safe (url_overtakes url) s h = url_overtaken-Keeps Once k url 1 s h
  step-Safe initiation_overtakes s h =
      report_overtaken-Keeps Once k (apply_to k depth) (apply_to-Keeps Once k depth)
        "IPsec CHILD SA established" 1 s h
  step-Safe disconnecting s h = disconnect_begins-Keeps k out_of on_output-Keeps 1 s h
  step-Safe (answered result) s h = disconnect_answered-Keeps k out_of on_output-Keeps result 1 s h
  step-Safe (answered_ack result id) s h =
      acknowledged-Safe id (disconnect_answered k out_of result s)
        (disconnect_answered-Keeps k out_of on_output-Keeps result 1 s h)
  step-Safe (stopped was_killed files) s h =
      await_stop-Keeps k out_of on_output-Keeps was_killed files 1 s h
  step-Safe (stopped_ack was_killed files id) s h =
      await_stop-Keeps k out_of on_output-Keeps was_killed files 1 s h

  pub run-append :
      (before after : List Action) (s : Service)
      → run k detail depth (before ++ after) s
        ≡ run k detail depth after (run k detail depth before s)
  run-append [] after s = refl
  run-append (a ∷ before) after s = run-append before after (step k detail depth a s)

  run-Safe : (actions : List Action) (s : Service) → Safe s → Safe (run k detail depth actions s)
  run-Safe [] s h = h
  run-Safe (a ∷ rest) s h = run-Safe rest (step k detail depth a s) (step-Safe a s h)

  new_service-Safe : Safe new_service
  new_service-Safe = (omega arith, omega arith, omega arith, omega arith)

  pub run_new-Safe : (actions : List Action) → Safe (run k detail depth actions new_service)
  run_new-Safe actions = run-Safe actions new_service new_service-Safe

  potential-le : (b : Bool) (n m : ℕ) → potential b n ≤ m → n ≤ m
  potential-le true n m h = h
  potential-le false n m h = omega (arith, h)

  le-flag : (b : Bool) (n : ℕ) → potential b n ≤ 1 → n ≤ (if b then 1 else 0)
  le-flag true n h = h
  le-flag false n h = omega (arith, h)

  -- Whatever requests, lines of output, deaths and exits of the process, ends of the worker's waits
  -- and ends of a stop a new helper service went through: since the fields of the session were last
  -- reset, it has reported a connection at most once, and once more for each report of a thread whose
  -- test of a flag another thread's setting of it has overtaken; and a sign-in address likewise.
  pub run-reports :
      (actions : List Action)
      → (connected_count (run k detail depth actions new_service).out
          ≤ suc (overtaken_count (run k detail depth actions new_service).out))
        × (url_count (run k detail depth actions new_service).out
            ≤ suc (overtaken_count (run k detail depth actions new_service).out))
  run-reports actions =
      let s = run k detail depth actions new_service in
      let h = run_new-Safe actions in
      (
        potential-le s.reported.connected (connected_count s.out) (suc (overtaken_count s.out))
            (omega (arith, h.1)),
        potential-le s.reported.saml_url (url_count s.out) (suc (overtaken_count s.out)) h.2,
      )

  -- Whatever a new helper service went through: since a teardown last became due, one has run at
  -- most once, and only if it counts as done.
  pub run-teardowns :
      (actions : List Action)
      → teardown_count (run k detail depth actions new_service).out
        ≤ (if (run k detail depth actions new_service).teardown_done then 1 else 0)
  run-teardowns actions =
      let s = run k detail depth actions new_service in
      le-flag s.teardown_done (teardown_count s.out) (run_new-Safe actions).3

  -- Whatever a new helper service went through, it keeps at most 32 lines of a session's start.
  pub run-startup_logs :
      (actions : List Action) → length (run k detail depth actions new_service).startup_logs ≤ 32
  run-startup_logs actions = (run_new-Safe actions).0
