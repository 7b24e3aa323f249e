-- ===== src/Scanner/Worker/Scan.antt =====
-- `execute_scan` as a whole (scanner/nmap/src/portscanner_scanner/worker.py): the phases, then the
-- publication of the result or of the failure. `prepare` is `prepare_scan` of the request.
use portscanner.Prelude.{ℕ, true, false, Option, none, some, List}
use portscanner.Prelude.Text.{Text, codes}
use portscanner.Prelude.Exec.{pure, raise, lift, attempt, ◌>>=◌, ◌>>◌, when◌run◌otherwise◌}
use portscanner.Prelude.Result.{Result}
use portscanner.Scanner.Worker.{
  discovery, enrichment, exited, Fault, already_exists, other_fault, PhaseFailure, NmapTuning,
  PreparedScan, PhaseBudget, ScanResult, NmapCommands, Collaborators, read_clock, checked_directory,
  looked, Progress, ScanError, fault, phase_failure, execution_error, runtime_error, Action, turned,
  call,
}
use portscanner.Scanner.Worker.Failures.{or_least}
use portscanner.Scanner.Worker.Execution.{
  put_raw_if_present, try_put_raw, publish_result, failed_outcome, discovery_meta, enrichment_meta,
  budget_of, phases,
}

-- What an exception of the publication becomes.
unfoldable pub upload_error : ScanError → ScanError
upload_error (fault already_exists) = execution_error (codes "duplicate_result") none
upload_error _ = execution_error (codes "result_upload_failed") none

module _ {W : Type 0} (with_whom : Collaborators W) (commands : NmapCommands) (tuning : NmapTuning)
    (prepared : PreparedScan) where
  unfoldable pub failed_result :
      ℕ
      → ℕ
      → List Text
      → PhaseBudget
      → PhaseFailure
      → Progress
      → Option Text
      → Option Text
      → Text
      → ℕ
      → ScanResult
  failed_result started completed argv budget f p raw_d raw_e outcome uploaded = record {
    complete = false;
    scanned_coverage_complete = f.scanned_coverage_complete;
    open_ports = f.open_ports;
    started_at = started;
    completed_at = completed;
    result_uploaded_at = uploaded;
    outcome = outcome;
    exit_code = f.exit_code;
    discovery_command =
        discovery_meta with_whom commands tuning prepared argv budget p.discovery_exit_code;
    enrichment_command = enrichment_meta with_whom commands tuning prepared p;
    raw_discovery = raw_d;
    raw_enrichment = raw_e;
    error = some (record { type = f.error_type; message = f.message; retryable = f.retryable });
  }

  -- `_publish_failed_scan`: the payload, if it was published.
  unfoldable pub publish_failed_scan :
      ℕ → ℕ → List Text → PhaseBudget → PhaseFailure → Progress → Action W (Option ScanResult)
  publish_failed_scan started completed argv budget f p = do
    raw_d ← try_put_raw with_whom discovery
    raw_e ←
        when f.publish_enrichment_artifact run try_put_raw with_whom enrichment otherwise pure none
    outcome ← failed_outcome with_whom
    attempt
        (do
          uploaded ← call read_clock with_whom.clock
          payload ←
              publish_result with_whom
                (failed_result started completed argv budget f p raw_d raw_e outcome uploaded)
          pure (some payload))
        (λ e. pure none)

  -- The handler of a failure of a phase; what else is raised is not caught.
  unfoldable pub on_failure : ℕ → List Text → PhaseBudget → ScanError → Action W (List ℕ × Progress)
  on_failure started argv budget (phase_failure f p) = do
    completed ← call read_clock with_whom.clock
    payload ← publish_failed_scan started completed argv budget f p
    raise (execution_error f.error_type payload)
  on_failure started argv budget (fault e) = raise (fault e)
  on_failure started argv budget (execution_error t r) = raise (execution_error t r)
  on_failure started argv budget runtime_error = raise runtime_error

  unfoldable pub complete_result :
      ℕ → ℕ → List Text → PhaseBudget → List ℕ → Progress → Text → Option Text → ℕ → ScanResult
  complete_result started completed argv budget ports p raw_d raw_e uploaded = record {
    complete = true;
    scanned_coverage_complete = true;
    open_ports = ports;
    started_at = started;
    completed_at = completed;
    result_uploaded_at = uploaded;
    outcome = codes "complete";
    exit_code = some (exited 0);
    discovery_command =
        discovery_meta with_whom commands tuning prepared argv budget p.discovery_exit_code;
    enrichment_command = enrichment_meta with_whom commands tuning prepared p;
    raw_discovery = some raw_d;
    raw_enrichment = raw_e;
    error = none;
  }

  abbrev pub must_be_present : Option Text → Action W Text
  must_be_present none = raise runtime_error
  must_be_present (some digest) = pure digest

  -- What follows the upload of the discovery's report.
  unfoldable pub upload_rest :
      ℕ → ℕ → List Text → PhaseBudget → List ℕ → Progress → Text → Action W ScanResult
  upload_rest started completed argv budget ports p raw_d = do
    raw_e ← put_raw_if_present with_whom enrichment
    uploaded ← call read_clock with_whom.clock
    publish_result with_whom
        (complete_result started completed argv budget ports p raw_d raw_e uploaded)

  -- The publication of a completed scan.
  unfoldable pub publish_complete :
      ℕ → List Text → PhaseBudget → List ℕ → Progress → Action W ScanResult
  publish_complete started argv budget ports p = do
    completed ← call read_clock with_whom.clock
    attempt
        (do
          found ← put_raw_if_present with_whom discovery
          raw_d ← must_be_present found
          upload_rest started completed argv budget ports p raw_d)
        (λ e. raise (upload_error e))

  -- The scan, in a directory that is found dedicated and empty.
  unfoldable pub scan_from : ℕ → List Text → Option PhaseBudget → Action W ScanResult
  scan_from started argv budget = do
    (ports, p) ←
        attempt (phases with_whom commands tuning prepared argv budget)
          (on_failure started argv (or_least budget))
    publish_complete started argv (or_least budget) ports p

  -- The directory has to be there, and without the two files.
  unfoldable pub check_directory : Action W (Unit {0})
  check_directory = do
    is_there ← call checked_directory with_whom.is_directory
    when is_there run pure tt otherwise raise (fault other_fault)
    first ← call (looked discovery) (with_whom.file_exists discovery)
    second ←
        when first
        run pure true
        otherwise call (looked enrichment) (with_whom.file_exists enrichment)
    when second run raise (fault other_fault) otherwise pure tt

  unfoldable pub execute_prepared : Action W ScanResult
  execute_prepared = do
    check_directory
    started ← call read_clock with_whom.clock
    let budget : Option PhaseBudget =
          budget_of with_whom commands tuning prepared discovery started in
        scan_from started (commands.build_discovery_command (or_least budget).host_timeout_seconds)
          budget

module _ {W : Type 0} (with_whom : Collaborators W) (commands : NmapCommands)
    (tuning : NmapTuning) where
  unfoldable pub execute_scan : Result Fault PreparedScan → Action W ScanResult
  execute_scan prepare = do
    prepared ← lift (turned fault prepare)
    execute_prepared with_whom commands tuning prepared
