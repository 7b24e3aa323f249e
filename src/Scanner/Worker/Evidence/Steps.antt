-- ===== src/Scanner/Worker/Evidence/Steps.antt =====
-- The steps of a phase (scanner/nmap/src/portscanner_scanner/worker.py): a run in time, and a question
-- for a termination.
use mathlib.Core.List.{Mem}
use portscanner.Prelude.{
  ℕ, ◌≡◌, refl, ◌==◌, ==_iff, Bool, true, false, some, List, [], ◌∷◌, ap₂, if◌then◌else◌,
}
use portscanner.Prelude.Text.{Text}
use portscanner.Prelude.Exec.{Ends, Ends-bind, Ends-when}
use portscanner.Prelude.Exec.Steps.{Ends-pure, Ends-raise}
use portscanner.Prelude.Result.{ok}
use portscanner.Prelude.Calls.{Logged}
use portscanner.Scanner.Worker.{
  Phase, discovery, enrichment, Fault, termination, timeout_expired, os_error, xml_error,
  already_exists, other_fault, PhaseFailure, NmapTuning, PreparedScan, PhaseBudget, NmapCommands,
  Collaborators, Call, read_clock, asked, ran, Progress, fault,
}
use portscanner.Scanner.Worker.Budget.{phase_budget-Fits}
use portscanner.Scanner.Worker.Failures.{
  retryable_failure, run_failure, xml_failure, is_success, same_ports,
}
use portscanner.Scanner.Worker.Execution.{run_phase, stop_if_asked, budget_of}
use portscanner.Scanner.Worker.Evidence.{
  Stable, Within, Scanned, Failing, Holds, Fails, call_or-Ends,
}

pub same_ports-eq : (xs ys : List ℕ) → same_ports xs ys ≡ true → xs ≡ ys
unfolding same_ports
same_ports-eq [] [] h = refl
same_ports-eq [] (y ∷ ys) h = absurd (cc)
same_ports-eq (x ∷ xs) [] h = absurd (cc)
same_ports-eq (x ∷ xs) (y ∷ ys) h = by_first (x == y) refl (same_ports-eq xs ys) h
  where
    by_first :
        (b : Bool)
        → (x == y) ≡ b
        → (same_ports xs ys ≡ true → xs ≡ ys)
        → (if b then same_ports xs ys else false) ≡ true
        → (x ∷ xs) ≡ (y ∷ ys)
    by_first true e rest k = ap₂ (λ a zs. a ∷ zs) ((==_iff x y).0 e) (rest k)
    by_first false e rest k = absurd (cc)

module _ {W : Type 0} (with_whom : Collaborators W) (commands : NmapCommands) (tuning : NmapTuning)
    (prepared : PreparedScan) where
  pub budget_of-Within :
      (phase : Phase) (now : ℕ) (calls : List Call) (b : PhaseBudget)
      → budget_of with_whom commands tuning prepared phase now ≡ some b
      → Mem (read_clock (ok now)) calls
      → Within commands tuning prepared b.process_timeout_seconds calls
  unfolding budget_of
  budget_of-Within discovery now calls b e m =
      (now, m, (phase_budget-Fits _ _ _ prepared.not_after now b e).in_time)
  budget_of-Within enrichment now calls b e m =
      (now, m, (phase_budget-Fits _ _ _ prepared.not_after now b e).in_time)

  -- The failures of a run, all of which claim the same.
  pub run_failure-Failing :
      (phase : Phase) (complete : Bool) (ports : List ℕ) (p : Progress) (e : Fault)
      (calls : List Call)
      → (complete ≡ true → Scanned commands tuning prepared ports calls)
      → Failing commands tuning prepared (run_failure phase complete ports p e) calls
  unfolding run_failure retryable_failure
  run_failure-Failing phase complete ports p termination calls h = h
  run_failure-Failing phase complete ports p timeout_expired calls h = h
  run_failure-Failing phase complete ports p os_error calls h = h
  run_failure-Failing phase complete ports p xml_error calls h = tt
  run_failure-Failing phase complete ports p already_exists calls h = tt
  run_failure-Failing phase complete ports p other_fault calls h = tt

  pub xml_failure-Failing :
      (f : PhaseFailure) (p : Progress) (e : Fault) (calls : List Call)
      → (f.scanned_coverage_complete ≡ true → Scanned commands tuning prepared f.open_ports calls)
      → Failing commands tuning prepared (xml_failure f p e) calls
  unfolding xml_failure
  xml_failure-Failing f p xml_error calls h = h
  xml_failure-Failing f p termination calls h = tt
  xml_failure-Failing f p timeout_expired calls h = tt
  xml_failure-Failing f p os_error calls h = tt
  xml_failure-Failing f p already_exists calls h = tt
  xml_failure-Failing f p other_fault calls h = tt

  module _ (F : List Call → Type 0) (is_stable : Stable F) where
    pub run_phase-Ends :
        (phase : Phase) (argv : List Text) (timeout : ℕ) (complete : Bool) (ports : List ℕ)
        (p : Progress) (s : Logged W Call)
        → Holds commands tuning prepared F s
        → Within commands tuning prepared timeout s.calls
        → ((calls : List Call)
            → F calls
            → complete ≡ true
            → Scanned commands tuning prepared ports calls)
        → Ends
            (λ code s'. Holds commands tuning prepared F s')
            (Fails commands tuning prepared)
            (run_phase with_whom phase argv timeout complete ports p s)
    unfolding run_phase retryable_failure
    run_phase-Ends phase argv timeout complete ports p s h within known =
        Ends-bind
          (λ code s'.
            Holds commands tuning prepared
              (λ calls. F calls × Mem (ran argv timeout (ok code)) calls) s')
          (λ code s'. Holds commands tuning prepared F s') (Fails commands tuning prepared) _ _ s
          (call_or-Ends commands tuning prepared F is_stable (run_failure phase complete ports p)
            (ran argv timeout) (with_whom.run argv timeout) s h (λ r. within)
            (λ e calls f. run_failure-Failing phase complete ports p e calls (known calls f)))
          (λ code s' k.
            Ends-when (λ code s'. Holds commands tuning prepared F s')
              (Fails commands tuning prepared) (is_success code) _ _ s'
              (λ e. Ends-pure _ (Fails commands tuning prepared) code s' (k.0, k.1.0))
              (λ e. Ends-raise _ (Fails commands tuning prepared) _ s' (k.0, known s'.calls k.1.0)))

    pub stop_if_asked-Ends :
        (f : PhaseFailure) (p : Progress) (s : Logged W Call)
        → Holds commands tuning prepared F s
        → ((calls : List Call)
            → F calls
            → f.scanned_coverage_complete ≡ true
            → Scanned commands tuning prepared f.open_ports calls)
        → Ends
            (λ u s'.
              Holds commands tuning prepared (λ calls. F calls × Mem (asked (ok false)) calls) s')
            (Fails commands tuning prepared)
            (stop_if_asked with_whom f p s)
    unfolding stop_if_asked
    stop_if_asked-Ends f p s h known =
        Ends-bind
          (λ stop s'.
            Holds commands tuning prepared (λ calls. F calls × Mem (asked (ok stop)) calls) s')
          (λ u s'.
            Holds commands tuning prepared (λ calls. F calls × Mem (asked (ok false)) calls) s')
          (Fails commands tuning prepared) _ _ s
          (call_or-Ends commands tuning prepared F is_stable fault asked
            with_whom.termination_requested s h (λ r. tt) (λ e calls g. tt))
          (λ stop s' k.
            Ends-when _ (Fails commands tuning prepared) stop _ _ s'
              (λ e. Ends-raise _ (Fails commands tuning prepared) _ s' (k.0, known s'.calls k.1.0))
              (λ e. Ends-pure _ (Fails commands tuning prepared) tt s' (rw (← e) k)))
