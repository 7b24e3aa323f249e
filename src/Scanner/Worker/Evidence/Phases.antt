-- ===== src/Scanner/Worker/Evidence/Phases.antt =====
-- The phases of a scan (scanner/nmap/src/portscanner_scanner/worker.py, the `try` of `execute_scan`):
-- the ports that they end with are proven.
use mathlib.Core.List.{Mem}
use portscanner.Prelude.{ℕ, ◌≡◌, sym, true, false, Option, none, some, List, []}
use portscanner.Prelude.Text.{Text}
use portscanner.Prelude.Exec.{Ends, Ends-bind}
use portscanner.Prelude.Exec.Steps.{Ends-pure, Ends-raise}
use portscanner.Prelude.Result.{ok}
use portscanner.Prelude.Calls.{Logged}
use portscanner.Scanner.Worker.{
  discovery, ReturnCode, NmapTuning, PreparedScan, PhaseBudget, NmapCommands, Collaborators, Call,
  read_clock, asked, validated, Progress,
}
use portscanner.Scanner.Worker.Failures.{
  insufficient_budget_failure, retryable_failure, termination_failure, xml_failure,
  discovery_incomplete,
}
use portscanner.Scanner.Worker.Execution.{budget_of, enriched_ports, prove_discovery, phases}
use portscanner.Scanner.Worker.Evidence.{
  Mem-Stable, both-Stable, Enriched-Stable, Scanned, Enriched, Proven, Sound, Holds, Fails,
  call_or-Ends,
}
use portscanner.Scanner.Worker.Evidence.Steps.{
  budget_of-Within, xml_failure-Failing, run_phase-Ends, stop_if_asked-Ends,
}
use portscanner.Scanner.Worker.Evidence.Enrichment.{enrich_if_any-Ends}

module _ {W : Type 0} (with_whom : Collaborators W) (commands : NmapCommands) (tuning : NmapTuning)
    (prepared : PreparedScan) where
  enriched_ports-Ends :
      (ports : List ℕ) (p : Progress) (s : Logged W Call)
      → Holds commands tuning prepared (Scanned commands tuning prepared ports) s
      → Ends
          (λ x s'. Holds commands tuning prepared (Proven commands tuning prepared x.0) s')
          (Fails commands tuning prepared)
          (enriched_ports with_whom commands tuning prepared ports p s)
  unfolding enriched_ports retryable_failure
  enriched_ports-Ends ports p s h =
      Ends-bind
        (λ after s'.
          Holds commands tuning prepared
            (λ calls.
              Scanned commands tuning prepared ports calls
              × Enriched commands tuning prepared ports calls)
            s')
        _ (Fails commands tuning prepared) _ _ s
        (enrich_if_any-Ends with_whom commands tuning prepared ports p s h)
        (λ after s' k.
          Ends-bind
            (λ u t.
              Holds commands tuning prepared
                (λ calls.
                  (Scanned commands tuning prepared ports calls
                    × Enriched commands tuning prepared ports calls)
                  × Mem (asked (ok false)) calls)
                t)
            _ (Fails commands tuning prepared) _ _ s'
            (stop_if_asked-Ends with_whom commands tuning prepared
              (λ calls.
                Scanned commands tuning prepared ports calls
                × Enriched commands tuning prepared ports calls)
              (both-Stable (Mem-Stable (validated discovery prepared.coverage (ok ports)))
                (Enriched-Stable commands tuning prepared ports))
              (termination_failure true ports) after s' k (λ calls f e. f.0))
            (λ u t m.
              Ends-pure _ (Fails commands tuning prepared) (ports, after) t
                (m.0, (m.1.0.0, (m.1.0.1, m.1.1)))))

  prove_discovery-Ends :
      (code : ReturnCode) (p : Progress) (s : Logged W Call)
      → Sound commands tuning prepared s.calls
      → Ends
          (λ x s'. Holds commands tuning prepared (Proven commands tuning prepared x.0) s')
          (Fails commands tuning prepared)
          (prove_discovery with_whom commands tuning prepared code p s)
  unfolding prove_discovery retryable_failure
  prove_discovery-Ends code p s h =
      Ends-bind
        (λ ports s'.
          Holds commands tuning prepared
            (λ calls. Unit {0} × Scanned commands tuning prepared ports calls) s')
        _ (Fails commands tuning prepared) _ _ s
        (call_or-Ends commands tuning prepared (λ calls. Unit {0}) (record { at = λ c calls u. tt })
          (xml_failure (discovery_incomplete code) p) (validated discovery prepared.coverage)
          (with_whom.validate_complete_scan discovery prepared.coverage) s (h, tt) (λ r. tt)
          (λ e calls f.
            xml_failure-Failing with_whom commands tuning prepared (discovery_incomplete code) p e
              calls (λ c. absurd (cc))))
        (λ ports s' k. enriched_ports-Ends ports p s' (k.0, k.1.1))

  -- Where the phases end with ports, these are proven; a failure claims no more than is known.
  pub phases-Ends :
      (argv : List Text) (started : ℕ) (b : Option PhaseBudget) (s : Logged W Call)
      → b ≡ budget_of with_whom commands tuning prepared discovery started
      → Holds commands tuning prepared (Mem (read_clock (ok started))) s
      → Ends
          (λ x s'. Holds commands tuning prepared (Proven commands tuning prepared x.0) s')
          (Fails commands tuning prepared)
          (phases with_whom commands tuning prepared argv b s)
  unfolding phases insufficient_budget_failure retryable_failure
  phases-Ends argv started none s e h =
      Ends-raise _ (Fails commands tuning prepared) _ s (h.0, λ c. absurd (cc))
  phases-Ends argv started (some budget) s e h =
      Ends-bind
        (λ u s'.
          Holds commands tuning prepared
            (λ calls. Mem (read_clock (ok started)) calls × Mem (asked (ok false)) calls) s')
        _ (Fails commands tuning prepared) _ _ s
        (stop_if_asked-Ends with_whom commands tuning prepared (Mem (read_clock (ok started)))
          (Mem-Stable (read_clock (ok started))) (termination_failure false []) _ s h
          (λ calls f c. absurd (cc)))
        (λ u s₁ h₁.
          Ends-bind (λ code s'. Holds commands tuning prepared (Mem (read_clock (ok started))) s') _
            (Fails commands tuning prepared) _ _ s₁
            (run_phase-Ends with_whom commands tuning prepared (Mem (read_clock (ok started)))
              (Mem-Stable (read_clock (ok started))) discovery argv budget.process_timeout_seconds
              false [] _ s₁ (h₁.0, h₁.1.0)
              (budget_of-Within with_whom commands tuning prepared discovery started s₁.calls budget
                (sym e) h₁.1.0)
              (λ calls f c. absurd (cc)))
            (λ code s₂ h₂.
              Ends-bind
                (λ u s'.
                  Holds commands tuning prepared
                    (λ calls. Mem (read_clock (ok started)) calls × Mem (asked (ok false)) calls)
                    s')
                _ (Fails commands tuning prepared) _ _ s₂
                (stop_if_asked-Ends with_whom commands tuning prepared
                  (Mem (read_clock (ok started))) (Mem-Stable (read_clock (ok started)))
                  (termination_failure false []) _ s₂ h₂ (λ calls f c. absurd (cc)))
                (λ u s₃ h₃. prove_discovery-Ends code _ s₃ h₃.0)))
