-- ===== src/Scanner/Worker/Evidence/Enrichment.antt =====
-- The second phase of a scan (scanner/nmap/src/portscanner_scanner/worker.py): its ports are those of
-- the first.
use mathlib.Core.List.{Mem}
use portscanner.Prelude.{ℕ, ◌≡◌, refl, true, false, inl, inr, Option, none, some, List, [], ◌∷◌}
use portscanner.Prelude.Text.{Text}
use portscanner.Prelude.Exec.{lift, ◌>>=◌, Ends, Ends-bind, Ends-when, Ends-weaken}
use portscanner.Prelude.Exec.Steps.{Ends-pure, Ends-raise}
use portscanner.Prelude.Result.{Result, ok, err}
use portscanner.Prelude.Calls.{Logged}
use portscanner.Scanner.Coverage.{PortCoverage}
use portscanner.Scanner.Worker.{
  discovery, enrichment, ReturnCode, Fault, NmapTuning, PreparedScan, PhaseBudget, NmapCommands,
  Collaborators, Call, read_clock, asked, validated, extracted, Progress, fault, Action, turned,
}
use portscanner.Scanner.Worker.Failures.{
  insufficient_budget_failure, retryable_failure, termination_failure, xml_failure,
  enrichment_incomplete, same_ports, or_least,
}
use portscanner.Scanner.Worker.Execution.{
  budget_of, prove_enrichment, enrich_within, enrich, enrich_if_any,
}
use portscanner.Scanner.Worker.Evidence.{
  Stable, Mem-Stable, both-Stable, Within, Scanned, Enriched, Sound, Holds, Fails, call_or-Ends,
}
use portscanner.Scanner.Worker.Evidence.Steps.{
  same_ports-eq, budget_of-Within, xml_failure-Failing, run_phase-Ends, stop_if_asked-Ends,
}

module _ {W : Type 0} (with_whom : Collaborators W) (commands : NmapCommands) (tuning : NmapTuning)
    (prepared : PreparedScan) where
  -- A value that is looked up first, whose fault is not caught.
  faulty_bind-Ends :
      {A B : Type 0} (R : B → Logged W Call → Type 0) (r : Result Fault A) (f : A → Action W B)
      (s : Logged W Call)
      → Sound commands tuning prepared s.calls
      → ((a : A) → r ≡ ok a → Ends R (Fails commands tuning prepared) (f a s))
      → Ends R (Fails commands tuning prepared) ((lift (turned fault r) >>= f) s)
  unfolding ◌>>=◌ lift
  faulty_bind-Ends R (ok a) f s h k = k a refl
  faulty_bind-Ends R (err e) f s h k = (h, tt)

  module _ (F : List Call → Type 0) (is_stable : Stable F) (ports : List ℕ)
      (known : (calls : List Call) → F calls → Scanned commands tuning prepared ports calls) where
    prove_enrichment-Ends :
        (coverage : PortCoverage) (code : ReturnCode) (p : Progress) (s : Logged W Call)
        → commands.from_ports ports ≡ ok coverage
        → Holds commands tuning prepared F s
        → Ends
            (λ after s'.
              Holds commands tuning prepared
                (λ calls. F calls × Enriched commands tuning prepared ports calls)
                s')
            (Fails commands tuning prepared)
            (prove_enrichment with_whom commands tuning prepared ports coverage code p s)
    unfolding prove_enrichment retryable_failure
    prove_enrichment-Ends coverage code p s from h =
        Ends-bind
          (λ found s'.
            Holds commands tuning prepared
              (λ calls. F calls × Mem (extracted enrichment (ok found)) calls) s')
          _ (Fails commands tuning prepared) _ _ s
          (call_or-Ends commands tuning prepared F is_stable
            (xml_failure (enrichment_incomplete code ports) p) (extracted enrichment)
            (with_whom.extract_open_tcp_ports enrichment) s h (λ r. tt)
            (λ e calls f.
              xml_failure-Failing with_whom commands tuning prepared
                (enrichment_incomplete code ports) p e calls (λ c. known calls f)))
          (λ found s' k.
            Ends-bind
              (λ u t.
                Holds commands tuning prepared
                  (λ calls. F calls × Mem (extracted enrichment (ok ports)) calls) t)
              _ (Fails commands tuning prepared) _ _ s'
              (Ends-when _ (Fails commands tuning prepared) (same_ports found ports) _ _ s'
                (λ e.
                  Ends-pure _ (Fails commands tuning prepared) tt s'
                    (rw (← same_ports-eq found ports e) k))
                (λ e. Ends-raise _ (Fails commands tuning prepared) _ s' (k.0, λ c. absurd (cc))))
              (λ u t m.
                Ends-bind
                  (λ proven t'.
                    Holds commands tuning prepared
                      (λ calls.
                        (F calls × Mem (extracted enrichment (ok ports)) calls)
                        × Mem (validated enrichment coverage (ok proven)) calls)
                      t')
                  _ (Fails commands tuning prepared) _ _ t
                  (call_or-Ends commands tuning prepared
                    (λ calls. F calls × Mem (extracted enrichment (ok ports)) calls)
                    (both-Stable is_stable (Mem-Stable (extracted enrichment (ok ports))))
                    (xml_failure (enrichment_incomplete code ports) p)
                    (validated enrichment coverage)
                    (with_whom.validate_complete_scan enrichment coverage) t m (λ r. tt)
                    (λ e calls f.
                      xml_failure-Failing with_whom commands tuning prepared
                        (enrichment_incomplete code ports) p e calls (λ c. known calls f.0)))
                  (λ proven t' n.
                    Ends-pure _ (Fails commands tuning prepared) p t'
                      (n.0, (n.1.0.0, inr (coverage, proven, from, n.1.0.1, n.1.1))))))

    enrich_within-Ends :
        (coverage : PortCoverage) (argv : List Text) (p : Progress) (b : Option PhaseBudget)
        (s : Logged W Call)
        → commands.from_ports ports ≡ ok coverage
        → Holds commands tuning prepared F s
        → ((budget : PhaseBudget) (calls : List Call)
            → b ≡ some budget
            → F calls
            → Within commands tuning prepared budget.process_timeout_seconds calls)
        → Ends
            (λ after s'.
              Holds commands tuning prepared
                (λ calls.
                  Scanned commands tuning prepared ports calls
                  × Enriched commands tuning prepared ports calls)
                s')
            (Fails commands tuning prepared)
            (enrich_within with_whom commands tuning prepared ports coverage argv p b s)
    unfolding enrich_within insufficient_budget_failure retryable_failure
    enrich_within-Ends coverage argv p none s from h within =
        Ends-raise _ (Fails commands tuning prepared) _ s (h.0, λ e. known s.calls h.1)
    enrich_within-Ends coverage argv p (some budget) s from h within =
        Ends-bind
          (λ u s'.
            Holds commands tuning prepared (λ calls. F calls × Mem (asked (ok false)) calls) s')
          _ (Fails commands tuning prepared) _ _ s
          (stop_if_asked-Ends with_whom commands tuning prepared F is_stable
            (termination_failure true ports) _ s h (λ calls f e. known calls f))
          (λ u s' k.
            Ends-bind (λ code t. Holds commands tuning prepared F t) _
              (Fails commands tuning prepared) _ _ s'
              (run_phase-Ends with_whom commands tuning prepared F is_stable enrichment argv
                budget.process_timeout_seconds true ports _ s' (k.0, k.1.0)
                (within budget s'.calls refl k.1.0) (λ calls f e. known calls f))
              (λ code t m.
                Ends-weaken
                  (λ after t'.
                    Holds commands tuning prepared
                      (λ calls. F calls × Enriched commands tuning prepared ports calls) t')
                  _ (Fails commands tuning prepared) _
                  (λ after t' n. (n.0, (known t'.calls n.1.0, n.1.1)))
                  (prove_enrichment-Ends coverage code _ t from m)))

  enrich-Ends :
      (ports : List ℕ) (p : Progress) (s : Logged W Call)
      → Holds commands tuning prepared (Scanned commands tuning prepared ports) s
      → Ends
          (λ after s'.
            Holds commands tuning prepared
              (λ calls.
                Scanned commands tuning prepared ports calls
                × Enriched commands tuning prepared ports calls)
              s')
          (Fails commands tuning prepared)
          (enrich with_whom commands tuning prepared ports p s)
  unfolding enrich
  enrich-Ends ports p s h = faulty_bind-Ends _ (commands.from_ports ports) _ s h.0 (λ coverage from.
      Ends-bind
        (λ now s'.
          Holds commands tuning prepared
            (λ calls.
              Scanned commands tuning prepared ports calls × Mem (read_clock (ok now)) calls)
            s')
        _ (Fails commands tuning prepared) _ _ s
        (call_or-Ends commands tuning prepared (Scanned commands tuning prepared ports)
          (Mem-Stable (validated discovery prepared.coverage (ok ports))) fault read_clock
          with_whom.clock s h (λ r. tt) (λ e calls f. tt))
        (λ now s' k.
          faulty_bind-Ends _
            (commands.build_enrichment_command ports
              (or_least
                (budget_of with_whom commands tuning prepared enrichment now)).host_timeout_seconds)
            _ s' k.0
            (λ argv built.
              enrich_within-Ends
                (λ calls.
                  Scanned commands tuning prepared ports calls × Mem (read_clock (ok now)) calls)
                (both-Stable (Mem-Stable (validated discovery prepared.coverage (ok ports)))
                  (Mem-Stable (read_clock (ok now))))
                ports (λ calls f. f.0) coverage argv p
                (budget_of with_whom commands tuning prepared enrichment now) s' from k
                (λ budget calls e f.
                  budget_of-Within with_whom commands tuning prepared enrichment now calls budget e
                    f.1))))

  pub enrich_if_any-Ends :
      (ports : List ℕ) (p : Progress) (s : Logged W Call)
      → Holds commands tuning prepared (Scanned commands tuning prepared ports) s
      → Ends
          (λ after s'.
            Holds commands tuning prepared
              (λ calls.
                Scanned commands tuning prepared ports calls
                × Enriched commands tuning prepared ports calls)
              s')
          (Fails commands tuning prepared)
          (enrich_if_any with_whom commands tuning prepared ports p s)
  enrich_if_any-Ends [] p s h =
      Ends-pure _ (Fails commands tuning prepared) p s (h.0, (h.1, inl refl))
  enrich_if_any-Ends (port ∷ ports) p s h = enrich-Ends (port ∷ ports) p s h
