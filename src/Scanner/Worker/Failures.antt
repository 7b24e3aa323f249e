-- ===== src/Scanner/Worker/Failures.antt =====
-- The failures of the phases of a scan (scanner/nmap/src/portscanner_scanner/worker.py).
use portscanner.Prelude.{
  ℕ, Bool, true, false, ◌==◌, Option, none, some, List, [], ◌∷◌, ◌++◌, if◌then◌else◌,
}
use portscanner.Prelude.Text.{Text, codes}
use portscanner.Scanner.Worker.{
  Phase, discovery, enrichment, ReturnCode, exited, signalled, Fault, termination, timeout_expired,
  os_error, xml_error, already_exists, other_fault, PhaseFailure, PhaseBudget, Progress, ScanError,
  fault, phase_failure,
}

abbrev pub phase_name : Phase → Text
phase_name discovery = codes "discovery"
phase_name enrichment = codes "enrichment"

unfoldable pub insufficient_budget_failure : Phase → Bool → List ℕ → PhaseFailure
insufficient_budget_failure phase complete ports = record {
  error_type = codes "insufficient_execution_budget";
  message = codes "insufficient time remains before notAfter to start Nmap " ++ phase_name phase;
  retryable = false;
  exit_code = none;
  scanned_coverage_complete = complete;
  open_ports = ports;
  publish_enrichment_artifact = true;
}

-- A failure that may be tried again.
unfoldable pub retryable_failure : Text → Text → Option ReturnCode → Bool → List ℕ → PhaseFailure
retryable_failure error_type message code complete ports = record {
  error_type = error_type;
  message = message;
  retryable = true;
  exit_code = code;
  scanned_coverage_complete = complete;
  open_ports = ports;
  publish_enrichment_artifact = true;
}

abbrev pub termination_failure : Bool → List ℕ → PhaseFailure
termination_failure complete ports =
    retryable_failure (codes "terminated") (codes "scan termination was requested") none complete
      ports

abbrev pub port_set_changed : ReturnCode → PhaseFailure
port_set_changed code = record {
  error_type = codes "enrichment_port_set_changed";
  message = codes "open TCP port set changed between discovery and enrichment";
  retryable = true;
  exit_code = some code;
  scanned_coverage_complete = false;
  open_ports = [];
  publish_enrichment_artifact = false;
}

-- What a fault of the runner becomes.
unfoldable pub run_failure : Phase → Bool → List ℕ → Progress → Fault → ScanError
run_failure phase complete ports p termination =
    phase_failure (termination_failure complete ports) p
run_failure phase complete ports p timeout_expired =
    phase_failure
      (retryable_failure (phase_name phase ++ codes "_timeout")
        (codes "Nmap " ++ phase_name phase ++ codes " exceeded its configured timeout") none
        complete ports)
      p
run_failure phase complete ports p os_error =
    phase_failure
      (retryable_failure (phase_name phase ++ codes "_execution_failed")
        (codes "Nmap " ++ phase_name phase ++ codes " could not be executed") none complete ports)
      p
run_failure phase complete ports p xml_error = fault xml_error
run_failure phase complete ports p already_exists = fault already_exists
run_failure phase complete ports p other_fault = fault other_fault

-- What a fault of the reading of a report becomes.
unfoldable pub xml_failure : PhaseFailure → Progress → Fault → ScanError
xml_failure f p xml_error = phase_failure f p
xml_failure f p e = fault e

abbrev pub is_success : ReturnCode → Bool
is_success (exited n) = n == 0
is_success (signalled n) = false

abbrev pub discovery_incomplete : ReturnCode → PhaseFailure
discovery_incomplete code =
    retryable_failure (codes "discovery_incomplete")
      (codes "Nmap discovery XML did not prove complete coverage") (some code) false []

abbrev pub enrichment_incomplete : ReturnCode → List ℕ → PhaseFailure
enrichment_incomplete code ports =
    retryable_failure (codes "enrichment_incomplete") (codes "Nmap enrichment XML was incomplete")
      (some code) true ports

unfoldable pub same_ports : List ℕ → List ℕ → Bool
same_ports [] [] = true
same_ports (x ∷ xs) (y ∷ ys) = let rest = same_ports xs ys in if x == y then rest else false
same_ports _ _ = false

abbrev pub or_least : Option PhaseBudget → PhaseBudget
or_least none = record { process_timeout_seconds = 1; host_timeout_seconds = 1 }
or_least (some b) = b

-- `n or 1`, of a number or `None`.
abbrev pub or_one : Option ℕ → ℕ
or_one none = 1
or_one (some n) = if n == 0 then 1 else n
