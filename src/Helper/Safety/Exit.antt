-- ===== src/Helper/Safety/Exit.antt =====
-- What the exit of a process and a teardown leave of a session (helper/service.py).
use fortigate_vpn_linux_gui.Prelude.{
  ℕ, ℤ, String, Bool, true, false, Option, none, some, List, [], ◌∷◌, ◌==◌, ==_iff, is_some,
  if◌then◌else◌, ◌≡◌, refl, sym, ap, ◌∙◌, ◌++◌, arith,
}
use mathlib.Core.Path.{subst}
use fortigate_vpn_linux_gui.Helper.Protocol.{HelperEvent}
use fortigate_vpn_linux_gui.Helper.Service.Types.{
  SwanctlCommandResult, IpsecRuntimeFiles, Effect, stopped_leftovers, killed, Service, Host,
  new_service,
}
use fortigate_vpn_linux_gui.Helper.Service.Output.{effect, emit}
use fortigate_vpn_linux_gui.Helper.Service.Teardown.{
  finalize_ipsec_teardown, releases, ipsec_terminate_sa, disconnect, drop_ipsec, stop_held,
  await_stop,
}
use fortigate_vpn_linux_gui.Helper.Service.BringUp.{exit_locked, start_failed, on_exit}
use fortigate_vpn_linux_gui.Helper.Service.Run.{Action, process_exit, stopped, step, run}
use fortigate_vpn_linux_gui.Helper.Safety.Sound.{
  OnFrame, Sound, if_either, are_secrets_left, signals, teardown_count,
}
use fortigate_vpn_linux_gui.Helper.Safety.Teardown.{ipsec_terminate_sa-Keeps}
use fortigate_vpn_linux_gui.Helper.Safety.Finalize.{
  Holds, finalize-process, finalize-files, finalize-done, finalize-wiped,
}
use fortigate_vpn_linux_gui.Helper.Safety.Run.{
  out_of, on_output-Keeps, run_new-Safe, run-append, step-Safe,
}
use fortigate_vpn_linux_gui.Helper.Safety.Connect.{Safe}

releases_itself : (files : Option IpsecRuntimeFiles) → releases files files ≡ true
releases_itself none = refl
releases_itself (some files) = (==_iff files.identity files.identity).1 refl

module _ (k : Host) (detail : List String → String) (depth : ℕ) where
  abbrev finalized : Option IpsecRuntimeFiles → Service → Service
  finalized = finalize_ipsec_teardown k (out_of k detail depth)

  held : (s : Service) → Safe s → Sound 1 (Holds s.process s.ipsec_files (signals s.out)) s
  held s h = (h.0, h.1, h.2, (refl, refl, refl))

  -- A fact that events do not touch holds after an exit if it holds after its teardown.
  exit-by :
      (P : Service → Type 0)
      → ((e : HelperEvent) (t : Service) → P t → P (emit e t))
      → (code : ℤ) (s : Service)
      → P (effect stopped_leftovers (finalized s.ipsec_files (exit_locked (start_failed s) s)))
      → P (on_exit k detail depth code s)
  unfolding on_exit
  exit-by P stable code s h =
      stable _ _ (if_either P (start_failed s) _ _ (λ e. stable _ _ h) (λ e. h))

  exit_locked-held :
      (s : Service)
      → Safe s
      → Sound 1 (Holds none s.ipsec_files (signals s.out)) (exit_locked (start_failed s) s)
  unfolding exit_locked
  exit_locked-held s h = (omega arith, h.1, h.2, (refl, refl, refl))

  abbrev Ended : Service → Type 0
  Ended t =
      (t.process ≡ none)
      × (t.ipsec_files ≡ none)
      × (t.teardown_done ≡ true)
      × (are_secrets_left t.out ≡ false)

  exit-Ended :
      (code : ℤ) (files : IpsecRuntimeFiles) (s : Service)
      → Safe s
      → s.ipsec_files ≡ some files
      → s.teardown_done ≡ false
      → Ended (on_exit k detail depth code s)
  unfolding exit_locked
  exit-Ended code files s h holds due =
      let l = exit_locked (start_failed s) s in
      let (process, terminations) =
        finalize-process k (out_of k detail depth) (on_output-Keeps k detail depth) s.ipsec_files l
          (exit_locked-held s h) in
      let (released, done) =
        finalize-files k (out_of k detail depth) (on_output-Keeps k detail depth) s.ipsec_files l
          (exit_locked-held s h) due in
      exit-by Ended (λ e t ended. ended) code s
        (
          process,
          released
              ∙ ap (λ (b : Bool). if b then none else s.ipsec_files)
                  (releases_itself s.ipsec_files),
          done,
          subst (λ o. are_secrets_left (finalized o l).out ≡ false) (sym holds)
              (finalize-wiped k (out_of k detail depth) (on_output-Keeps k detail depth) files l
                due),
        )

  -- The exit of the process of an IPsec session whose teardown is due: no process and no files are
  -- held any more, the files with the secrets are wiped, and the teardown counts as done.
  pub on_exit-ends :
      (actions : List Action) (code : ℤ) (files : IpsecRuntimeFiles)
      → (run k detail depth actions new_service).ipsec_files ≡ some files
      → (run k detail depth actions new_service).teardown_done ≡ false
      → ((on_exit k detail depth code (run k detail depth actions new_service)).process ≡ none)
        × ((on_exit k detail depth code (run k detail depth actions new_service)).ipsec_files
            ≡ none)
        × ((on_exit k detail depth code (run k detail depth actions new_service)).teardown_done
            ≡ true)
        × (are_secrets_left
              (on_exit k detail depth code (run k detail depth actions new_service)).out
            ≡ false)
  on_exit-ends actions code files holds due =
      exit-Ended code files (run k detail depth actions new_service)
        (run_new-Safe k detail depth actions) holds due

  exit-process : (code : ℤ) (s : Service) → Safe s → (on_exit k detail depth code s).process ≡ none
  unfolding exit_locked
  exit-process code s h =
      let l = exit_locked (start_failed s) s in
      let (process, terminations) =
        finalize-process k (out_of k detail depth) (on_output-Keeps k detail depth) s.ipsec_files l
          (exit_locked-held s h) in
      exit-by (λ t. t.process ≡ none) (λ e t p. p) code s process

  disconnect-ended :
      (stop : SwanctlCommandResult) (s : Service)
      → Safe s
      → s.process ≡ none
      → signals (disconnect k (out_of k detail depth) stop s).out
        ≡ stopped_leftovers ∷ signals s.out
  unfolding disconnect stop_held drop_ipsec
  disconnect-ended stop s h ended =
      let s0 = record s { ipsec_cancel = true } in
      let s1 = ipsec_terminate_sa k (out_of k detail depth) stop s0 in
      let T : OnFrame = λ f. (f.process ≡ none) × (f.signalled ≡ signals s.out) in
      let h1 =
        ipsec_terminate_sa-Keeps k (out_of k detail depth) T (on_output-Keeps k detail depth T) stop
          1 s0 (h.0, h.1, h.2, (ended, refl)) in
      let (process, terminations) =
        finalize-process k (out_of k detail depth) (on_output-Keeps k detail depth) s1.ipsec_files
          s1 (h1.0, h1.1, h1.2, (refl, refl, refl)) in
      if_either (λ (t : Service). signals t.out ≡ stopped_leftovers ∷ signals s.out)
        (is_some s1.process) _ _ (λ e. cc (h1.3.0))
        (λ e. ap (λ (sent : List Effect). stopped_leftovers ∷ sent) (terminations ∙ h1.3.1))

  -- Whatever a new helper service went through: once the exit of a process has been reported, a
  -- request to disconnect sends no signals but those of `stop_owned_leftover_charon`, which knows
  -- charon daemons alone, also where the process held was started after the one that ended.
  pub disconnect-on_exit :
      (actions : List Action) (code : ℤ) (stop : SwanctlCommandResult)
      → signals
          (disconnect k
            (out_of k detail depth)
            stop
            (run k detail depth (actions ++ (process_exit code ∷ [])) new_service)).out
        ≡ stopped_leftovers
          ∷ signals (run k detail depth (actions ++ (process_exit code ∷ [])) new_service).out
  unfolding step
  disconnect-on_exit actions code stop =
      let s = run k detail depth actions new_service in
      rw (run-append k detail depth actions (process_exit code ∷ []) new_service) (
        disconnect-ended stop (on_exit k detail depth code s)
          (step-Safe k detail depth (process_exit code) s (run_new-Safe k detail depth actions))
          (exit-process code s (run_new-Safe k detail depth actions)))

  finalized-stale :
      (files now : IpsecRuntimeFiles) (s : Service)
      → Safe s
      → s.ipsec_files ≡ some now
      → s.teardown_done ≡ false
      → (now.identity == files.identity) ≡ false
      → ((finalized (some files) s).ipsec_files ≡ some now)
        × ((finalized (some files) s).teardown_done ≡ true)
  finalized-stale files now s h holds due other =
      let (left, done) =
        finalize-files k (out_of k detail depth) (on_output-Keeps k detail depth) (some files) s
          (held s h) due in
      let kept : releases (some files) s.ipsec_files ≡ false = rw holds other in
      (left ∙ ap (λ (b : Bool). if b then none else s.ipsec_files) kept ∙ holds, done)

  stop-stale :
      (was_killed : Bool) (files now : IpsecRuntimeFiles) (s : Service)
      → Safe s
      → s.ipsec_files ≡ some now
      → s.teardown_done ≡ false
      → (now.identity == files.identity) ≡ false
      → ((await_stop k (out_of k detail depth) was_killed (some files) s).ipsec_files ≡ some now)
        × ((await_stop k (out_of k detail depth) was_killed (some files) s).teardown_done ≡ true)
  unfolding await_stop
  stop-stale true files now s h holds due other =
      finalized-stale files now (effect killed s) h holds due other
  stop-stale false files now s h holds due other = finalized-stale files now s h holds due other

  exit-stale :
      (was_killed : Bool) (code : ℤ) (files now : IpsecRuntimeFiles) (s : Service)
      → Safe s
      → s.ipsec_files ≡ some now
      → s.teardown_done ≡ false
      → (now.identity == files.identity) ≡ false
      → ((on_exit k detail depth code
            (await_stop k (out_of k detail depth) was_killed (some files) s)).ipsec_files
          ≡ some now)
        × (teardown_count
              (on_exit k detail depth code
                (await_stop k (out_of k detail depth) was_killed (some files) s)).out
            ≡ teardown_count (await_stop k (out_of k detail depth) was_killed (some files) s).out)
  unfolding exit_locked
  exit-stale was_killed code files now s h holds due other =
      let t = await_stop k (out_of k detail depth) was_killed (some files) s in
      let (left, done) = stop-stale was_killed files now s h holds due other in
      let l = exit_locked (start_failed t) t in
      let same =
        finalize-done k (out_of k detail depth) (on_output-Keeps k detail depth) t.ipsec_files l
          done in
      exit-by (λ u. (u.ipsec_files ≡ some now) × (teardown_count u.out ≡ teardown_count t.out))
        (λ e u p. p) code t
        (
          ap (λ (u : Service). u.ipsec_files) same ∙ left,
          ap (λ (u : Service). teardown_count u.out) same,
        )

  -- A stop of other files that ends while a session's teardown is due: the session's teardown counts
  -- as done from then on, and the exit of the session's process runs no teardown and leaves the
  -- session's files in their field.
  pub on_exit-stale :
      (actions : List Action) (was_killed : Bool) (code : ℤ) (files now : IpsecRuntimeFiles)
      → (run k detail depth actions new_service).ipsec_files ≡ some now
      → (run k detail depth actions new_service).teardown_done ≡ false
      → (now.identity == files.identity) ≡ false
      → ((run k detail depth
            (actions ++ (stopped was_killed (some files) ∷ []))
            new_service).teardown_done
          ≡ true)
        × ((run k detail depth
              (actions ++ (stopped was_killed (some files) ∷ process_exit code ∷ []))
              new_service).ipsec_files
            ≡ some now)
        × (teardown_count
              (run k detail depth
                (actions ++ (stopped was_killed (some files) ∷ process_exit code ∷ []))
                new_service).out
            ≡ teardown_count
                (run k detail depth
                  (actions ++ (stopped was_killed (some files) ∷ []))
                  new_service).out)
  unfolding step
  on_exit-stale actions was_killed code files now holds due other =
      let s = run k detail depth actions new_service in
      let safe = run_new-Safe k detail depth actions in
      rw
        (
          run-append k detail depth actions
              (stopped was_killed (some files) ∷ process_exit code ∷ []) new_service,
          run-append k detail depth actions (stopped was_killed (some files) ∷ []) new_service,
        )
        (
          (stop-stale was_killed files now s safe holds due other).1,
          (exit-stale was_killed code files now s safe holds due other).0,
          (exit-stale was_killed code files now s safe holds due other).1,
        )
