-- ===== src/Scanner/Worker/Execution.antt =====
-- The phases of `execute_scan` (scanner/nmap/src/portscanner_scanner/worker.py), and the uploads.
use portscanner.Prelude.{
  ℕ, Bool, true, false, Option, none, some, List, [], ◌∷◌, ◌++◌, if◌then◌else◌,
}
use portscanner.Prelude.Text.{Text, codes}
use portscanner.Prelude.Exec.{pure, raise, lift, attempt, ◌>>=◌, ◌>>◌, when◌run◌otherwise◌}
use portscanner.Scanner.Coverage.{PortCoverage}
use portscanner.Scanner.Worker.{
  Phase, discovery, enrichment, ReturnCode, os_error, PhaseFailure, NmapTuning, PreparedScan,
  PhaseBudget, phase_budget, CommandMetadata, ScanResult, NmapCommands, Collaborators, read_clock,
  asked, ran, validated, extracted, looked, stored, checked, published, Progress, ScanError, fault,
  phase_failure, Action, turned, call_or, call,
}
use portscanner.Scanner.Worker.Failures.{
  phase_name, insufficient_budget_failure, retryable_failure, termination_failure, port_set_changed,
  run_failure, xml_failure, is_success, discovery_incomplete, enrichment_incomplete, same_ports,
  or_least, or_one,
}

module _ {W : Type 0} (with_whom : Collaborators W) where
  unfoldable pub run_phase : Phase → List Text → ℕ → Bool → List ℕ → Progress → Action W ReturnCode
  run_phase phase argv timeout complete ports p = do
    code ←
        call_or (run_failure phase complete ports p) (ran argv timeout) (with_whom.run argv timeout)
    when is_success code
        run pure code
        otherwise raise (
            phase_failure
              (retryable_failure (phase_name phase ++ codes "_failed")
                (codes "Nmap " ++ phase_name phase ++ codes " exited unsuccessfully") (some code)
                complete ports)
              p)

  unfoldable pub stop_if_asked : PhaseFailure → Progress → Action W (Unit {0})
  stop_if_asked f p = do
    stop ← call asked with_whom.termination_requested
    when stop run raise (phase_failure f p) otherwise pure tt

  abbrev pub false_if_os_error : ScanError → Action W Bool
  false_if_os_error (fault os_error) = pure false
  false_if_os_error e = raise e

  unfoldable pub existing_nonempty : Phase → Action W Bool
  existing_nonempty phase =
      attempt (call (looked phase) (with_whom.is_nonempty_file phase)) false_if_os_error

  unfoldable pub put_raw_if_present : Phase → Action W (Option Text)
  put_raw_if_present phase = do
    present ← existing_nonempty phase
    when present
        run (do digest ← call (stored phase) (with_whom.put_file phase); pure (some digest))
        otherwise pure none

  -- A best effort: no artifact where its upload raises.
  unfoldable pub try_put_raw : Phase → Action W (Option Text)
  try_put_raw phase = attempt (put_raw_if_present phase) (λ e. pure none)

  -- The validation of a result and the writing of its envelope.
  unfoldable pub publish_result : ScanResult → Action W ScanResult
  publish_result result = do
    payload ← call (checked result) (with_whom.validate_scan_result result)
    call (published payload) (with_whom.put_envelope payload)
    pure payload

  -- `_existing_nonempty(discovery_path) or _existing_nonempty(enrichment_path)`.
  unfoldable pub failed_outcome : Action W Text
  failed_outcome = do
    first ← existing_nonempty discovery
    second ← when first run pure true otherwise existing_nonempty enrichment
    pure (if second then codes "partial" else codes "failed")

  module _ (commands : NmapCommands) (tuning : NmapTuning) (prepared : PreparedScan) where
    abbrev pub discovery_meta : List Text → PhaseBudget → Option ReturnCode → CommandMetadata
    discovery_meta argv budget code = record {
      argv = commands.redact_command discovery argv;
      timeout_seconds = budget.process_timeout_seconds;
      exit_code = code;
    }

    abbrev pub enrichment_meta : Progress → Option CommandMetadata
    enrichment_meta p = elim p.enrichment_argv [
      | none ↦ none
      | some argv ↦ some (record {
        argv = commands.redact_command enrichment argv;
        timeout_seconds = or_one p.enrichment_timeout_seconds;
        exit_code = p.enrichment_exit_code;
      })
    ]

    unfoldable pub budget_of : Phase → ℕ → Option PhaseBudget
    budget_of discovery now =
        phase_budget prepared.not_after now tuning.upload_reserve_seconds
          tuning.discovery_process_timeout_seconds tuning.discovery_host_timeout_seconds
    budget_of enrichment now =
        phase_budget prepared.not_after now tuning.upload_reserve_seconds
          tuning.enrichment_process_timeout_seconds tuning.enrichment_host_timeout_seconds

    abbrev with_command : List Text → ℕ → Option ReturnCode → Progress → Progress
    with_command argv timeout code p = record p {
      enrichment_argv = some argv;
      enrichment_timeout_seconds = some timeout;
      enrichment_exit_code = code;
    }

    -- The checks of the second report.
    unfoldable pub prove_enrichment :
        List ℕ → PortCoverage → ReturnCode → Progress → Action W Progress
    prove_enrichment ports coverage code p = do
      found ←
          call_or (xml_failure (enrichment_incomplete code ports) p) (extracted enrichment)
            (with_whom.extract_open_tcp_ports enrichment)
      when same_ports found ports
          run pure tt
          otherwise raise (phase_failure (port_set_changed code) p)
      proven ←
          call_or (xml_failure (enrichment_incomplete code ports) p) (validated enrichment coverage)
            (with_whom.validate_complete_scan enrichment coverage)
      pure p

    -- The second phase, once its command is built.
    unfoldable pub enrich_within :
        List ℕ → PortCoverage → List Text → Progress → Option PhaseBudget → Action W Progress
    enrich_within ports coverage argv p none = raise (
        phase_failure (insufficient_budget_failure enrichment true ports)
          (with_command argv 1 none p))
    enrich_within ports coverage argv p (some budget) = do
      stop_if_asked (termination_failure true ports)
          (with_command argv budget.process_timeout_seconds none p)
      code ←
          run_phase enrichment argv budget.process_timeout_seconds true ports
            (with_command argv budget.process_timeout_seconds none p)
      prove_enrichment ports coverage code
          (with_command argv budget.process_timeout_seconds (some code) p)

    unfoldable pub enrich : List ℕ → Progress → Action W Progress
    enrich ports p = do
      coverage ← lift (turned fault (commands.from_ports ports))
      now ← call read_clock with_whom.clock
      argv ← lift (
          turned fault (
            commands.build_enrichment_command ports
              (or_least (budget_of enrichment now)).host_timeout_seconds))
      enrich_within ports coverage argv p (budget_of enrichment now)

    abbrev pub enrich_if_any : List ℕ → Progress → Action W Progress
    enrich_if_any [] p = pure p
    enrich_if_any (port ∷ ports) p = enrich (port ∷ ports) p

    abbrev pub no_progress : Progress
    no_progress = record {
      discovery_exit_code = none;
      enrichment_argv = none;
      enrichment_timeout_seconds = none;
      enrichment_exit_code = none;
    }

    -- The enrichment of the open ports, and the last question for a termination.
    unfoldable pub enriched_ports : List ℕ → Progress → Action W (List ℕ × Progress)
    enriched_ports ports p = do
      after ← enrich_if_any ports p
      stop_if_asked (termination_failure true ports) after
      pure (ports, after)

    -- What follows the discovery: its report, with the open ports.
    unfoldable pub prove_discovery : ReturnCode → Progress → Action W (List ℕ × Progress)
    prove_discovery code p = do
      ports ←
          call_or (xml_failure (discovery_incomplete code) p)
            (validated discovery prepared.coverage)
            (with_whom.validate_complete_scan discovery prepared.coverage)
      enriched_ports ports p

    -- The body of the `try`: the open ports and the variables at its end.
    unfoldable pub phases : List Text → Option PhaseBudget → Action W (List ℕ × Progress)
    phases argv none =
        raise (phase_failure (insufficient_budget_failure discovery false []) no_progress)
    phases argv (some budget) = do
      stop_if_asked (termination_failure false []) no_progress
      code ← run_phase discovery argv budget.process_timeout_seconds false [] no_progress
      let p : Progress = record no_progress { discovery_exit_code = some code } in
          do stop_if_asked (termination_failure false []) p; prove_discovery code p
