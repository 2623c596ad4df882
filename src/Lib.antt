-- ===== src/Lib.antt =====
-- fortigate-vpn-linux-gui: a VPN client whose unprivileged side asks a privileged helper to start and
-- stop tunnels, and the helper that does so.
--
-- The program's centre is `VpnBackend` (src/fortigate_vpn_gui/vpn/backend.py). The GUI calls its
-- methods; the helper client reports events from its reader thread; timers and the worker of the
-- IPsec SAML sign-in call back. Every method changes the fields under one lock, tells subscribers,
-- writes log lines and calls the helper.
--
-- Files (the paths of the code are relative to src/fortigate_vpn_gui):
--   Prelude                the names that all files share, with tests and lemmas on lists and texts
--   Profiles/Ipsec, Model  profiles/ipsec.py and profiles/model.py: the stored profile, the supported
--                          IPsec combinations and what the backend asks of a profile
--   Profiles/Ipsec/Parse, Payload
--                          profiles/ipsec.py: parse_ipsec_settings and to_json; Stored, Written, Reparse
--                          and RoundTrip have the lemmas on them
--   Profiles/Manager       profiles/manager.py: ProfileManager, with Laws and Tests below it
--   Vpn/State              vpn/models.py: the states, ALLOWED_TRANSITIONS, the sets of states
--   Vpn/Backend/Errors     the error codes, the output hints, the user messages, _CODE_MAP
--   Vpn/Backend/Types      the events and collaborators, and the fields of the object: `Backend`;
--                          Data below it has helper/protocol.py and the snapshot
--   Vpn/Backend/Core       _transition, _snapshot_locked, timers, _fail_without_process,
--                          _fail_and_clear, _fail_saml_session
--   Vpn/Backend/Session    _probe_helper, _resolve_executable, the fields of a new session
--   Vpn/Backend/Connect    connect, _begin_session, _begin_ipsec_saml_preauth
--   Vpn/Backend/Stop       disconnect
--   Vpn/Backend/Reconnect  reconnect, _start_pending_reconnect, set_auto_reconnect
--   Vpn/Backend/Retry      _maybe_schedule_reconnect, _on_reconnect_timer
--   Vpn/Backend/Shutdown   begin_shutdown, _finish_shutdown, _on_shutdown_timeout, shutdown
--   Vpn/Backend/Events     the handlers of the helper's events; Saml below it has those of a sign-in
--   Vpn/Backend/Failure    _exit_error and the messages of vpn/classify.py
--   Vpn/Backend/Exit       _on_exit
--   Vpn/Backend/SignIn     the worker: _run_ipsec_saml_preauth, _start_ipsec_after_saml,
--                          _continue_ipsec_after_saml, _on_ipsec_saml_waiting
--   Vpn/Backend/Machine    _on_helper_event, the new object, one step for each call or callback, and
--                          runs of steps
--   Vpn/SplitInclude       vpn/ipsec/split_include.py: the split-tunnel attributes of a reply, with
--                          Laws and Tests below it
--   Json                   the values of Python's json module and their lookups
--   Helper/Protocol        helper/protocol.py: the events of the helper and their JSON form, with
--                          RoundTrip, Received and Tests below it
--   Helper/Validation      helper/validation.py: the checks of a request; Client below it has the object
--                          that `connect` of system/helper_client.py sends, Again, Sent and Accepted
--                          the theorems
--   Helper/Service/Types   helper/service.py: the fields of HelperService, what it does and asks for
--   Helper/Service/Output  _note_ipsec_dns_line and the parts of _on_output
--   Helper/Service/Lines   _on_output and _apply_ipsec_dns
--   Helper/Service/Teardown
--                          _finalize_ipsec_teardown, _run_swanctl, disconnect, _await_stop
--   Helper/Service/Openfortivpn, Connect
--                          connect, _connect_openfortivpn, _connect_ipsec
--   Helper/Service/BringUp _on_exit, _ipsec_bring_up
--   Helper/Service/Run     handle_line, the loop of helper/main.py, one step for each input, and runs
--   Helper/Safety          the theorems on the service: Sound, Lines, Teardown, Connect keep the
--                          invariant; Overtaken has the races; Finalize, Run, Secrets, Exit and
--                          Depth have the results
--   Vpn/Safety             the theorems on the backend: Sound has the invariant and its proof for each
--                          method, Halted what a closing backend no longer does
--
-- How state and operations correspond: `Backend` has a field for each attribute that the methods
-- read or write. A method is a function from the object to the object; the block under the lock is
-- one or more functions where it has many branches (`stop_locked`, `exit_locked`). What leaves the
-- object (log lines, events, calls of the helper, the browser and timers) is added to the trace
-- `out`, newest first. `_transition` never fails: a change outside the table is made all the same
-- and leaves a `forced` effect, which stands for the warning that the code logs.
--
-- The collaborators are the record `Ports`: the helper client, the check of a connect request, the
-- search for an executable, the URL checks, the browser and the classification of a line. The
-- theorems hold for all of them. An answer of the helper may depend on the whole trace. The field
-- `running` is what `is_running()` answers; it changes when the helper is asked to start, stop or
-- close, and by the step `helper_runs` at any other time.
--
-- Concurrency: a step is one call of a method, one callback of a timer, one event of the helper or
-- one end of a worker, from its beginning to its end; the interleavings considered are the sequences
-- of steps. Two calls that overlap between two blocks under the lock are not modelled. Message
-- constants are named constructors of `Message`, since only their identity matters. Numbers are
-- natural, but for exit codes; no loop of the backend is unbounded, so nothing runs on fuel.
--
-- The helper service is modelled in the same way: `Service` has its fields, `Host` what it asks of the
-- system and of the modules that read lines, and `out` is its trace. A method that raises returns the
-- object as it stands with the error. Its worker and its stopping thread wait for the system; each end
-- of a wait is a step of its own, and the steps come in any order. Between its waits a step is atomic,
-- but for the unlocked tests of the flags that say what was reported and for the wait of `disconnect`
-- for swanctl: `tested`, `overtakes`, `url_overtakes` and `initiation_overtakes` are the halves of a
-- report whose test another thread overtakes; `disconnecting` and `answered` (or `answered_ack`) those
-- of a disconnect.
-- Other races of two threads within a step, such as two applications of the DNS, are not modelled.
-- The runtime directory is the live one in every session, so wiping it wipes what any attempt wrote.
-- `_on_output` and `_apply_ipsec_dns` call each other: the recursion runs to a depth that is a
-- parameter of the theorems, and two levels are enough where no message of a failed DNS change reads
-- as an attribute or as a connection.
-- Restoring DNS and the route is best effort, as the code says, and raises nothing.
--
-- The checks of requests and of stored settings ask Python's text methods, regular expressions and
-- `ipaddress` through the records `Texts` and `Checks`; a theorem states what it needs of them.
--
-- Not modelled: the wiping of credential objects, the length of delays (`seconds` is the delay as
-- the log shows it), the order among subscribers; the graphical interface, diagnostics, backup,
-- the commands, files and sockets of the helper and the network side of the sign-in, which are I/O or
-- lie behind the ports.
pub mod Prelude
pub mod Helper
pub mod Json
pub mod Profiles
pub mod Vpn
