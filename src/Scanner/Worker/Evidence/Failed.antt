-- ===== src/Scanner/Worker/Evidence/Failed.antt =====
-- The publication of a failure (scanner/nmap/src/portscanner_scanner/worker.py,
-- `_publish_failed_scan`).
use mathlib.Core.List.{mem-cons_of_mem}
use portscanner.Prelude.{ℕ, ◌≡◌, true, none, some, List}
use portscanner.Prelude.Text.{Text}
use portscanner.Prelude.Exec.{
  Exec, ◌>>=◌, Ends, Ends-bind, Ends-attempt, Ends-of-Preserves, Preserves, Preserves-pure,
  Preserves-when,
}
use portscanner.Prelude.Exec.Steps.{Ends-pure, Ends-raise}
use portscanner.Prelude.Calls.{Logged}
use portscanner.Scanner.Worker.{
  discovery, enrichment, PhaseFailure, NmapTuning, PreparedScan, PhaseBudget, ScanResult,
  NmapCommands, Collaborators, Call, Progress, ScanError, fault, phase_failure, execution_error,
  runtime_error,
}
use portscanner.Scanner.Worker.Scan.{failed_result, publish_failed_scan, on_failure}
use portscanner.Scanner.Worker.Evidence.{Stable, Scanned, Sound, Holds, Fails}
use portscanner.Scanner.Worker.Evidence.Published.{
  StaysSound, WasPublished, clock-Preserves, try_put_raw-Preserves, failed_outcome-Preserves,
  publish_result-Ends,
}

module _ {W : Type 0} (with_whom : Collaborators W) (commands : NmapCommands) (tuning : NmapTuning)
    (prepared : PreparedScan) where
  abbrev Kept : (List Call → Type 0) → Logged W Call → Type 0
  Kept F s = Holds commands tuning prepared F s

  abbrev Raised : {E : Type 0} → E → Logged W Call → Type 0
  Raised e s = StaysSound with_whom commands tuning prepared e s

  abbrev Returned : ScanResult → Logged W Call → Type 0
  Returned payload s = WasPublished with_whom commands tuning prepared payload s

  -- A step that keeps a fact, and what follows.
  pub step_bind-Ends :
      {A B : Type 0} (F : List Call → Type 0) (R : B → Logged W Call → Type 0)
      (m : Exec (Logged W Call) ScanError A) (f : A → Exec (Logged W Call) ScanError B)
      (s : Logged W Call)
      → Preserves (Kept F) m
      → Kept F s
      → ((a : A) (s' : Logged W Call) → Kept F s' → Ends R Raised (f a s'))
      → Ends R Raised ((m >>= f) s)
  step_bind-Ends F R m f s keeps h k =
      Ends-bind (λ a s'. Kept F s') R Raised m f s
        (Ends-of-Preserves (Kept F) (λ s'. Sound commands tuning prepared s'.calls) m s (λ t x. x.0)
          keeps h)
        k

  abbrev Claimed : PhaseFailure → List Call → Type 0
  Claimed f calls =
      f.scanned_coverage_complete ≡ true → Scanned commands tuning prepared f.open_ports calls

  Claimed-Stable : (f : PhaseFailure) → Stable (Claimed f)
  Claimed-Stable f = record { at = λ c calls k e. mem-cons_of_mem c (k e) }

  publish_failed_scan-Ends :
      (started completed : ℕ) (argv : List Text) (budget : PhaseBudget) (f : PhaseFailure)
      (p : Progress) (s : Logged W Call)
      → Kept (Claimed f) s
      → Ends Raised Raised (
          publish_failed_scan with_whom commands tuning prepared started completed argv budget f p
            s)
  unfolding publish_failed_scan failed_result
  publish_failed_scan-Ends started completed argv budget f p s h =
      step_bind-Ends (Claimed f) Raised _ _ s
        (try_put_raw-Preserves with_whom commands tuning prepared (Claimed f) (Claimed-Stable f)
          discovery)
        h
        (λ raw_d s₁ h₁.
          step_bind-Ends (Claimed f) Raised _ _ s₁
            (Preserves-when _ _ _
              (try_put_raw-Preserves with_whom commands tuning prepared (Claimed f)
                (Claimed-Stable f) enrichment)
              (Preserves-pure none))
            h₁
            (λ raw_e s₂ h₂.
              step_bind-Ends (Claimed f) Raised _ _ s₂
                (failed_outcome-Preserves with_whom commands tuning prepared (Claimed f)
                  (Claimed-Stable f))
                h₂
                (λ outcome s₃ h₃.
                  Ends-attempt Raised Raised Raised _ _ s₃
                    (step_bind-Ends (Claimed f) Raised _ _ s₃
                      (clock-Preserves with_whom commands tuning prepared (Claimed f)
                        (Claimed-Stable f) with_whom.clock)
                      h₃
                      (λ uploaded s₄ h₄.
                        Ends-bind Returned Raised Raised _ _ s₄
                          (publish_result-Ends with_whom commands tuning prepared (Claimed f)
                            (Claimed-Stable f) _ s₄ h₄ (λ calls k e. absurd (cc)) (λ calls k. k))
                          (λ payload s₅ h₅. Ends-pure Raised Raised (some payload) s₅ h₅.0)))
                    (λ e s₄ h₄. Ends-pure Raised Raised none s₄ h₄))))

  pub on_failure-Ends :
      (started : ℕ) (argv : List Text) (budget : PhaseBudget) (e : ScanError) (s : Logged W Call)
      (P : List ℕ × Progress → Logged W Call → Type 0)
      → Fails commands tuning prepared e s
      → Ends P Raised (on_failure with_whom commands tuning prepared started argv budget e s)
  unfolding on_failure
  on_failure-Ends started argv budget (phase_failure f p) s P h =
      step_bind-Ends (Claimed f) P _ _ s
        (clock-Preserves with_whom commands tuning prepared (Claimed f) (Claimed-Stable f)
          with_whom.clock)
        h
        (λ completed s₁ h₁.
          Ends-bind Raised P Raised _ _ s₁
            (publish_failed_scan-Ends started completed argv budget f p s₁ h₁)
            (λ payload s₂ h₂. Ends-raise P Raised _ s₂ h₂))
  on_failure-Ends started argv budget (fault e) s P h = Ends-raise P Raised (fault e) s h.0
  on_failure-Ends started argv budget (execution_error t r) s P h =
      Ends-raise P Raised (execution_error t r) s h.0
  on_failure-Ends started argv budget runtime_error s P h = Ends-raise P Raised runtime_error s h.0
