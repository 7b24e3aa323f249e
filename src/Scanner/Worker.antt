-- ===== src/Scanner/Worker.antt =====
-- The Nmap worker (scanner/nmap/src/portscanner_scanner/worker.py): what a scan works on, its
-- collaborators, a record of the calls, and the time that a phase is given. Times of the clock are
-- microseconds, time limits seconds. The ports of a report are in order, as `sorted` gives them.
pub mod Failures
pub mod Execution
pub mod Scan
pub mod Budget
pub mod Evidence
use portscanner.Prelude.{ℕ, ◌-◌, ◌/◌, min, Bool, Option, none, some, List, ◌∷◌, ltb, if◌then◌else◌}
use portscanner.Prelude.Text.{Text}
use portscanner.Prelude.Exec.{Exec}
use portscanner.Prelude.Result.{Result, ok, err}
use portscanner.Prelude.Calls.{Logged}
use portscanner.Scanner.Coverage.{PortCoverage}

-- The file of a phase, and the phase.
pub data Phase : Type 0 where
  discovery enrichment : Phase

-- How a process ends: with a code, or by a signal (a negative `returncode`).
pub data ReturnCode : Type 0 where
  exited : ℕ → ReturnCode
  signalled : ℕ → ReturnCode

-- What the collaborators raise: `NmapTerminationError`, `TimeoutExpired`, `OSError`, `NmapXmlError`,
-- `ObjectAlreadyExistsError`, and the rest.
pub data Fault : Type 0 where
  termination timeout_expired os_error xml_error already_exists other_fault : Fault

-- `_PhaseFailureError`.
pub record PhaseFailure : Type 0 where
  pub error_type : Text
  pub message : Text
  pub retryable : Bool
  pub exit_code : Option ReturnCode
  pub scanned_coverage_complete : Bool
  pub open_ports : List ℕ
  pub publish_enrichment_artifact : Bool

pub record NmapTuning : Type 0 where
  pub discovery_host_timeout_seconds : ℕ
  pub enrichment_host_timeout_seconds : ℕ
  pub discovery_process_timeout_seconds : ℕ
  pub enrichment_process_timeout_seconds : ℕ
  pub upload_reserve_seconds : ℕ

-- Of a `PreparedScan` what the phases depend on.
pub record PreparedScan : Type 0 where
  pub coverage : PortCoverage
  pub not_after : ℕ

pub record PhaseBudget : Type 0 where
  pub process_timeout_seconds : ℕ
  pub host_timeout_seconds : ℕ

abbrev pub min_phase_execution_seconds : ℕ
min_phase_execution_seconds = 2

abbrev if_any : ℕ → ℕ → Option PhaseBudget
if_any process_timeout host_timeout =
    if ltb host_timeout 1
    then none
    else some
        (record { process_timeout_seconds = process_timeout; host_timeout_seconds = host_timeout })

-- The seconds left for a phase. (Where the source's difference is negative, this one is 0, and both
-- are less than the least time of a phase.)
abbrev pub execution_seconds : ℕ → ℕ → ℕ → ℕ
execution_seconds not_after now reserve = (not_after - now) / 1000000 - reserve

unfoldable pub phase_budget : ℕ → ℕ → ℕ → ℕ → ℕ → Option PhaseBudget
phase_budget not_after now reserve process_seconds host_seconds =
    if ltb (execution_seconds not_after now reserve) min_phase_execution_seconds
    then none
    else if_any (min process_seconds (execution_seconds not_after now reserve))
        (min host_seconds (min process_seconds (execution_seconds not_after now reserve) - 1))

-- A command as it was run, with its limit and how it ended.
pub record CommandMetadata : Type 0 where
  pub argv : List Text
  pub timeout_seconds : ℕ
  pub exit_code : Option ReturnCode

pub record ScanFailed : Type 0 where
  pub type : Text
  pub message : Text
  pub retryable : Bool

-- The envelope, without the fields that are copied from the request. An artifact stands as its digest.
pub record ScanResult : Type 0 where
  pub complete : Bool
  pub scanned_coverage_complete : Bool
  pub open_ports : List ℕ
  pub started_at : ℕ
  pub completed_at : ℕ
  pub result_uploaded_at : ℕ
  pub outcome : Text
  pub exit_code : Option ReturnCode
  pub discovery_command : CommandMetadata
  pub enrichment_command : Option CommandMetadata
  pub raw_discovery : Option Text
  pub raw_enrichment : Option Text
  pub error : Option ScanFailed

-- The commands of nmap.py, of a time limit of the host (the builder of the second may raise), how a
-- command is redacted for the result, and the coverage of open ports.
pub record NmapCommands : Type 0 where
  pub build_discovery_command : ℕ → List Text
  pub build_enrichment_command : List ℕ → ℕ → Result Fault (List Text)
  pub redact_command : Phase → List Text → List Text
  pub from_ports : List ℕ → Result Fault PortCoverage

-- The clock, the runner, the reports of Nmap, the files, and the store of objects. `is_nonempty_file`
-- raises where `Path.stat` does.
pub record Collaborators (W : Type 0) : Type 0 where
  pub clock : Exec W Fault ℕ
  pub termination_requested : Exec W Fault Bool
  pub run : List Text → ℕ → Exec W Fault ReturnCode
  pub validate_complete_scan : Phase → PortCoverage → Exec W Fault (List ℕ)
  pub extract_open_tcp_ports : Phase → Exec W Fault (List ℕ)
  pub is_directory : Exec W Fault Bool
  pub file_exists : Phase → Exec W Fault Bool
  pub is_nonempty_file : Phase → Exec W Fault Bool
  pub put_file : Phase → Exec W Fault Text
  pub validate_scan_result : ScanResult → Exec W Fault ScanResult
  pub put_envelope : ScanResult → Exec W Fault (Unit {0})

-- The calls that have been made, with how they ended. A run has its limit.
pub data Call : Type 0 where
  read_clock : Result Fault ℕ → Call
  asked : Result Fault Bool → Call
  ran : List Text → ℕ → Result Fault ReturnCode → Call
  validated : Phase → PortCoverage → Result Fault (List ℕ) → Call
  extracted : Phase → Result Fault (List ℕ) → Call
  checked_directory : Result Fault Bool → Call
  looked : Phase → Result Fault Bool → Call
  stored : Phase → Result Fault Text → Call
  checked : ScanResult → Result Fault ScanResult → Call
  published : ScanResult → Result Fault (Unit {0}) → Call

-- The variables of `execute_scan` that its handler of a failure reads.
pub record Progress : Type 0 where
  pub discovery_exit_code : Option ReturnCode
  pub enrichment_argv : Option (List Text)
  pub enrichment_timeout_seconds : Option ℕ
  pub enrichment_exit_code : Option ReturnCode

-- What the code raises: a fault that is not caught, a `_PhaseFailureError`, a `ScanExecutionError`
-- with its type and payload, and a `RuntimeError`.
pub data ScanError : Type 0 where
  fault : Fault → ScanError
  phase_failure : PhaseFailure → Progress → ScanError
  execution_error : Text → Option ScanResult → ScanError
  runtime_error : ScanError

abbrev pub Action : Type 0 → Type 0 → Type 0
Action W A = Exec (Logged W Call) ScanError A

abbrev pub turned : {A : Type 0} → (Fault → ScanError) → Result Fault A → Result ScanError A
turned raising (ok a) = ok a
turned raising (err e) = err (raising e)

module _ {W A : Type 0} where
  -- A call, with its entry, whose faults become errors of the scan.
  unfoldable pub call_or :
      (Fault → ScanError) → (Result Fault A → Call) → Exec W Fault A → Action W A
  call_or raising entry m s = (
    turned raising (m s.world).0,
    record { world = (m s.world).1; calls = entry (m s.world).0 ∷ s.calls },
  )

  abbrev pub call : (Result Fault A → Call) → Exec W Fault A → Action W A
  call entry m = call_or fault entry m
