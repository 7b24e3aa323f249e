-- ===== src/Scanner/Tests/Worker.antt =====
-- The scan of a target at concrete inputs.
use mathlib.Core.List.{Mem}
use portscanner.Prelude.{ℕ, ◌≡◌, refl, true, false, some, List, [], ◌∷◌}
use portscanner.Prelude.Text.{codes}
use portscanner.Prelude.Exec.{pure, raise, lift, attempt, ◌>>=◌, when◌run◌otherwise◌, Ends}
use portscanner.Prelude.Result.{Result, ok, err}
use portscanner.Prelude.Calls.{Logged}
use portscanner.Scanner.Coverage.{PortCoverage}
use portscanner.Scanner.Worker.{
  exited, NmapTuning, PreparedScan, phase_budget, ScanResult, NmapCommands, Collaborators, Call,
  published, ScanError, call_or,
}
use portscanner.Scanner.Worker.Failures.{same_ports}
use portscanner.Scanner.Worker.Execution.{
  run_phase, stop_if_asked, existing_nonempty, put_raw_if_present, publish_result, budget_of,
  prove_enrichment, enrich_within, enrich, enriched_ports, prove_discovery, phases,
}
use portscanner.Scanner.Worker.Scan.{
  complete_result, upload_rest, publish_complete, scan_from, check_directory, execute_prepared,
  execute_scan,
}
use portscanner.Scanner.Worker.Budget.{Fits, phase_budget-Fits}
use portscanner.Scanner.Worker.Evidence.{Sound}
use portscanner.Scanner.Worker.Evidence.Whole.{execute_scan-Backed}

abbrev web : PortCoverage
web = record { ranges = record { start = 443; end = 443 } ∷ [] }

abbrev everything : PortCoverage
everything = record { ranges = record { start = 1; end = 65535 } ∷ [] }

abbrev defaults : NmapTuning
defaults = record {
  discovery_host_timeout_seconds = 1200;
  enrichment_host_timeout_seconds = 600;
  discovery_process_timeout_seconds = 1260;
  enrichment_process_timeout_seconds = 660;
  upload_reserve_seconds = 30;
}

-- A hundred seconds are left.
abbrev soon : PreparedScan
soon = record { coverage = everything; not_after = 100000000 }

abbrev nmap : NmapCommands
nmap = record {
  build_discovery_command = λ seconds. codes "nmap" ∷ [];
  build_enrichment_command = λ ports seconds. ok (codes "nmap" ∷ codes "-sV" ∷ []);
  redact_command = λ phase argv. argv;
  from_ports = λ ports. ok web;
}

-- Port 443 is open.
abbrev host : Collaborators (Unit {0})
host = record {
  clock = pure 0;
  termination_requested = pure false;
  run = λ argv timeout. pure (exited 0);
  validate_complete_scan = λ phase coverage. pure (443 ∷ []);
  extract_open_tcp_ports = λ phase. pure (443 ∷ []);
  is_directory = pure true;
  file_exists = λ phase. pure false;
  is_nonempty_file = λ phase. pure true;
  put_file = λ phase. pure (codes "digest");
  validate_scan_result = λ r. pure r;
  put_envelope = λ r. pure tt;
}

abbrev start : Logged (Unit {0}) Call
start = record { world = tt; calls = [] }

abbrev ports_of : Result ScanError ScanResult → List ℕ
ports_of (ok r) = r.open_ports
ports_of (err e) = []

scanned : ports_of (execute_scan host nmap defaults (ok soon) start).0 ≡ 443 ∷ []
unfolding execute_scan execute_prepared check_directory scan_from phases prove_discovery
    enriched_ports enrich enrich_within prove_enrichment budget_of stop_if_asked run_phase
    publish_complete upload_rest publish_result put_raw_if_present existing_nonempty call_or
    phase_budget same_ports complete_result ◌>>=◌ lift when◌run◌otherwise◌ attempt pure raise
scanned = refl

budgeted :
    phase_budget 100000000 0 30 1260 1200
    ≡ some (record { process_timeout_seconds = 70; host_timeout_seconds = 69 })
unfolding phase_budget
budgeted = refl

phase_budget-Fits_example :
    Fits 30 1260 1200 100 (record { process_timeout_seconds = 70; host_timeout_seconds = 69 })
phase_budget-Fits_example =
    phase_budget-Fits 30 1260 1200 100000000 0
      (record { process_timeout_seconds = 70; host_timeout_seconds = 69 }) budgeted

execute_scan-Backed_example :
    Ends
      (λ payload s'. Sound nmap defaults soon s'.calls × Mem (published payload (ok tt)) s'.calls)
      (λ e s'. Sound nmap defaults soon s'.calls)
      (execute_scan host nmap defaults (ok soon) start)
execute_scan-Backed_example = execute_scan-Backed host nmap defaults soon start tt
