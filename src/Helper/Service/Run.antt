-- ===== src/Helper/Service/Run.antt =====
-- `status`, `handle_line`, and one step for each request,
-- line, exit and end of a wait (helper/service.py, helper/main.py).
use fortigate_vpn_linux_gui.Prelude.{
  ℕ, ℤ, pos, String, Bool, false, ◌&&◌, Option, none, some, List, [], ◌∷◌, Result, ok, raised,
  is_some, ◌▷◌, if◌then◌else◌,
}
use fortigate_vpn_linux_gui.Vpn.Backend.Types.{hello, ack, status, ConnectRequest, Credentials}
use fortigate_vpn_linux_gui.Helper.Protocol.{HelperEvent, HelperError}
use fortigate_vpn_linux_gui.Helper.Service.Types.{
  SwanctlCommandResult, IpsecRuntimeFiles, Service, Host,
}
use fortigate_vpn_linux_gui.Helper.Service.Output.{bare, error_event, emit}
use fortigate_vpn_linux_gui.Helper.Service.Teardown.{
  disconnect, disconnect_begins, disconnect_answered, await_stop,
}
use fortigate_vpn_linux_gui.Helper.Service.Lines.{
  apply_to, output_tested, output_overtaken, url_overtaken, report_overtaken,
}
use fortigate_vpn_linux_gui.Helper.Service.Connect.{connect}
use fortigate_vpn_linux_gui.Helper.Service.Openfortivpn.{
  helper_error, internal_error, Outcome, is_ipsec,
}
use fortigate_vpn_linux_gui.Helper.Service.BringUp.{
  WaitOutcome, on_output, on_exit, bring_up_waited, bring_up_loaded, bring_up_initiated,
  initiation_overtaken,
}

-- A parsed request line; `credentials` has what `parse_credentials_payload` returned.
pub data Request : Type 0 where
  hello_request status_request : Request
  disconnect_request : Option SwanctlCommandResult → Request
  connect_request : ConnectRequest → Request
  credentials_request : Result HelperError Credentials → Request

abbrev pub ack_event : Option String → String → HelperEvent
ack_event id state = record (bare ack) { request_id = id; state = some state }

abbrev pub ipsec_ack : Option String → HelperEvent
ipsec_ack id = record (ack_event id "starting") { backend = some "ipsec" }

-- `tested` and `overtakes` are the halves of a line of output before and after its test of the flag,
-- `disconnecting` and `answered` (for a request `answered_ack`) those of a disconnect before and after its command.
pub data Action : Type 0 where
  request : Request → Option String → Action
  line : String → Action
  dies : Action
  process_exit : ℤ → Action
  waited : WaitOutcome → IpsecRuntimeFiles → String → Option SwanctlCommandResult → Action
  loaded : SwanctlCommandResult → List String → Option SwanctlCommandResult → Action
  initiated : SwanctlCommandResult → Option SwanctlCommandResult → Action
  tested overtakes url_overtakes : String → Action
  initiation_overtakes : Action
  disconnecting : Action
  answered : Option SwanctlCommandResult → Action
  answered_ack : Option SwanctlCommandResult → Option String → Action
  stopped : Bool → Option IpsecRuntimeFiles → Action
  stopped_ack : Bool → Option IpsecRuntimeFiles → Option String → Action

module _ (h : Host) (detail : List String → String) (depth : ℕ) where
  abbrev pub and_ack : HelperEvent → Outcome → Outcome
  and_ack e (s, none) = (emit e s, none)
  and_ack e (s, some failure) = (s, some failure)

  abbrev pub with_credentials :
      ConnectRequest → Option String → Result HelperError Credentials → Service → Outcome
  with_credentials r id (raised e) s = (s, some (helper_error e.code e.message))
  with_credentials r id (ok credentials) s =
      and_ack (ipsec_ack id) (connect h (on_output h detail depth) r (some credentials) s)

  abbrev pub with_pending :
      Option ConnectRequest → Option String → Result HelperError Credentials → Service → Outcome
  with_pending none id parsed s = (
    s,
    some (
        helper_error "INVALID_CREDENTIALS"
          "Credentials were sent without an IPsec connect request."),
  )
  with_pending (some r) id parsed s = with_credentials r id parsed s

  -- A disconnect that need not wait for a process is acknowledged at once.
  abbrev pub acknowledged : Option String → Service → Service
  acknowledged id s = if is_some s.process then s else emit (ack_event id "disconnecting") s

  unfoldable pub handle_request : Request → Option String → Service → Outcome
  unfolding on_output connect disconnect disconnect_begins
  handle_request hello_request id s = (
    emit
        (record (bare hello) {
          request_id = id;
          helper_version = some "0.9.0";
          protocol_version = some (pos 1);
          capabilities = "ipsec_ikev1_psk_xauth" ∷ "ipsec_ikev2_eap" ∷ [];
        })
        s,
    none,
  )
  handle_request status_request id s = (
    emit
        (record (bare status) {
          request_id = id;
          running = some (is_some s.process && s.alive);
          pid = elim s.process [ none ↦ none | some n ↦ h.pid n ];
          argv = s.argv;
          helper_version = some "0.9.0";
          protocol_version = some (pos 1);
        })
        s,
    none,
  )
  handle_request (disconnect_request none) id s =
      (disconnect_begins h (on_output h detail depth) s, none)
  handle_request (disconnect_request (some result)) id s =
      (acknowledged id (disconnect h (on_output h detail depth) result s), none)
  handle_request (connect_request r) id s =
      if is_ipsec r.backend
      then (emit (ipsec_ack id) (record s { pending_ipsec = some r }), none)
      else and_ack (ack_event id "starting") (connect h (on_output h detail depth) r none s)
  handle_request (credentials_request parsed) id s =
      with_pending s.pending_ipsec id parsed (record s { pending_ipsec = none })

  -- The loop of `main`: what a request raises is reported, and the loop goes on.
  abbrev pub reported_failure : Outcome → Service
  reported_failure (s, none) = s
  reported_failure (s, some (helper_error code message)) = emit (error_event code message) s
  reported_failure (s, some internal_error) =
      emit (error_event "HELPER_INTERNAL" "Helper request failed.") s

  unfoldable pub step : Action → Service → Service
  unfolding handle_request on_output on_exit bring_up_waited bring_up_loaded bring_up_initiated
      apply_to output_tested output_overtaken url_overtaken report_overtaken disconnect_begins
      disconnect_answered
  step (request r id) s = reported_failure (handle_request r id s)
  step (line text) s = on_output h detail depth text s
  step dies s = record s { alive = false }
  step (process_exit code) s = on_exit h detail depth code s
  step (waited outcome files path stop) s = bring_up_waited h detail depth outcome files path stop s
  step (loaded load initiate stop) s = bring_up_loaded h detail depth load initiate stop s
  step (initiated initiate stop) s = bring_up_initiated h detail depth initiate stop s
  step (tested text) s = output_tested h (apply_to h depth) text s
  step (overtakes text) s = output_overtaken h (apply_to h depth) text s
  step (url_overtakes url) s = url_overtaken h url s
  step initiation_overtakes s = initiation_overtaken h detail depth s
  step disconnecting s = disconnect_begins h (on_output h detail depth) s
  step (answered result) s = disconnect_answered h (on_output h detail depth) result s
  step (answered_ack result id) s =
      acknowledged id (disconnect_answered h (on_output h detail depth) result s)
  step (stopped was_killed files) s = await_stop h (on_output h detail depth) was_killed files s
  step (stopped_ack was_killed files id) s =
      await_stop h (on_output h detail depth) was_killed files s
      ▷ emit (ack_event id "disconnecting")

  abbrev pub run : List Action → Service → Service
  run [] s = s
  run (a ∷ rest) s = run rest (step a s)
