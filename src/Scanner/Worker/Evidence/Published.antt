-- ===== src/Scanner/Worker/Evidence/Published.antt =====
-- The publication of a scan's result or failure (scanner/nmap/src/portscanner_scanner/worker.py): what
-- is published is backed by the calls before it.
use mathlib.Core.List.{Mem}
use portscanner.Prelude.{ℕ, ◌≡◌, Bool, true, List}
use portscanner.Prelude.Text.{Text}
use portscanner.Prelude.Exec.{Exec, Ends, Ends-bind, Preserves, Preserves-attempt, preserves_rules}
use portscanner.Prelude.Exec.Steps.{Ends-pure}
use portscanner.Prelude.Result.{Result, ok, err}
use portscanner.Prelude.Calls.{Logged}
use portscanner.Scanner.Worker.{
  Phase, Fault, termination, timeout_expired, os_error, xml_error, already_exists, other_fault,
  NmapTuning, PreparedScan, ScanResult, NmapCommands, Collaborators, Call, read_clock, looked,
  stored, checked, published, ScanError, fault, phase_failure, execution_error, runtime_error,
  call_or, call,
}
use portscanner.Scanner.Worker.Execution.{
  false_if_os_error, existing_nonempty, put_raw_if_present, try_put_raw, publish_result,
  failed_outcome,
}
use portscanner.Scanner.Worker.Evidence.{
  Stable, Scanned, Complete, Backed, Sound, Holds, Fails, call_or-Ends,
}

module _ {W : Type 0} (with_whom : Collaborators W) (commands : NmapCommands) (tuning : NmapTuning)
    (prepared : PreparedScan) where
  -- The calls are sound, whatever is raised.
  abbrev pub StaysSound : {E : Type 0} → E → Logged W Call → Type 0
  StaysSound e s = Sound commands tuning prepared s.calls

  pub sound_at_least :
      {A : Type 0} (P : A → Logged W Call → Type 0) (x : Result ScanError A × Logged W Call)
      → Ends P (Fails commands tuning prepared) x
      → Ends P StaysSound x
  sound_at_least P (ok a, s) h = h
  sound_at_least P (err e, s) h = h.0

  -- The calls are sound, and the payload was published.
  abbrev pub WasPublished : ScanResult → Logged W Call → Type 0
  WasPublished payload s = Holds commands tuning prepared (Mem (published payload (ok tt))) s

  module _ {A : Type 0} (F : List Call → Type 0) (is_stable : Stable F)
      (entry : Result Fault A → Call)
      (back : (r : Result Fault A) (calls : List Call)
        → Backed commands tuning prepared (entry r) calls) where
    pub call-Ends :
        (m : Exec W Fault A) (s : Logged W Call)
        → Holds commands tuning prepared F s
        → Ends
            (λ a s'.
              Holds commands tuning prepared (λ calls. F calls × Mem (entry (ok a)) calls) s')
            StaysSound
            (call entry m s)
    call-Ends m s h =
        sound_at_least
          (λ a s'. Holds commands tuning prepared (λ calls. F calls × Mem (entry (ok a)) calls) s')
          (call entry m s)
          (call_or-Ends commands tuning prepared F is_stable fault entry m s h (λ r. back r s.calls)
            (λ e calls f. tt))

    pub call-Preserves :
        (m : Exec W Fault A) → Preserves (Holds commands tuning prepared F) (call entry m)
    unfolding call_or
    call-Preserves m = record {
      at = λ s h.
          ((back (m s.world).0 s.calls, h.0), is_stable.at (entry (m s.world).0) s.calls h.1);
    }

  module _ (F : List Call → Type 0) (is_stable : Stable F) where
    pub looked-Preserves :
        (phase : Phase) (m : Exec W Fault Bool)
        → Preserves (Holds commands tuning prepared F) (call (looked phase) m)
    looked-Preserves phase m = call-Preserves F is_stable (looked phase) (λ r calls. tt) m

    stored-Preserves :
        (phase : Phase) (m : Exec W Fault Text)
        → Preserves (Holds commands tuning prepared F) (call (stored phase) m)
    stored-Preserves phase m = call-Preserves F is_stable (stored phase) (λ r calls. tt) m

    pub clock-Preserves :
        (m : Exec W Fault ℕ) → Preserves (Holds commands tuning prepared F) (call read_clock m)
    clock-Preserves m = call-Preserves F is_stable read_clock (λ r calls. tt) m

    pub existing_nonempty-Preserves :
        (phase : Phase)
        → Preserves (Holds commands tuning prepared F) (existing_nonempty with_whom phase)
    unfolding existing_nonempty
    existing_nonempty-Preserves phase =
        Preserves-attempt _ _ (looked-Preserves phase (with_whom.is_nonempty_file phase)) by_error
      where
        by_error :
            (e : ScanError)
            → Preserves (Holds commands tuning prepared F) (false_if_os_error with_whom e)
        by_error (fault os_error) = search (preserves_rules) depth 3
        by_error (fault termination) = search (preserves_rules) depth 3
        by_error (fault timeout_expired) = search (preserves_rules) depth 3
        by_error (fault xml_error) = search (preserves_rules) depth 3
        by_error (fault already_exists) = search (preserves_rules) depth 3
        by_error (fault other_fault) = search (preserves_rules) depth 3
        by_error (phase_failure f p) = search (preserves_rules) depth 3
        by_error (execution_error t r) = search (preserves_rules) depth 3
        by_error runtime_error = search (preserves_rules) depth 3

    pub put_raw-Preserves :
        (phase : Phase)
        → Preserves (Holds commands tuning prepared F) (put_raw_if_present with_whom phase)
    unfolding put_raw_if_present
    put_raw-Preserves phase =
        search (preserves_rules, existing_nonempty-Preserves, stored-Preserves) depth 8

    pub try_put_raw-Preserves :
        (phase : Phase) → Preserves (Holds commands tuning prepared F) (try_put_raw with_whom phase)
    unfolding try_put_raw
    try_put_raw-Preserves phase = search (preserves_rules, put_raw-Preserves) depth 6

    pub failed_outcome-Preserves :
        Preserves (Holds commands tuning prepared F) (failed_outcome with_whom)
    unfolding failed_outcome
    failed_outcome-Preserves = search (preserves_rules, existing_nonempty-Preserves) depth 8

    -- A result that claims no more than is known may be published.
    pub publish_result-Ends :
        (result : ScanResult) (s : Logged W Call)
        → Holds commands tuning prepared F s
        → ((calls : List Call)
            → F calls
            → result.complete ≡ true
            → Complete commands tuning prepared result.open_ports calls)
        → ((calls : List Call)
            → F calls
            → result.scanned_coverage_complete ≡ true
            → Scanned commands tuning prepared result.open_ports calls)
        → Ends WasPublished StaysSound (publish_result with_whom result s)
    unfolding publish_result
    publish_result-Ends result s h whole known =
        Ends-bind
          (λ payload s'.
            Holds commands tuning prepared
              (λ calls. F calls × Mem (checked result (ok payload)) calls) s')
          WasPublished StaysSound _ _ s
          (call-Ends F is_stable (checked result) (λ r calls. tt)
            (with_whom.validate_scan_result result) s h)
          (λ payload s' k.
            Ends-bind
              (λ u t.
                Holds commands tuning prepared
                  (λ calls. Unit {0} × Mem (published payload (ok u)) calls) t)
              WasPublished StaysSound _ _ s'
              (sound_at_least
                (λ u t.
                  Holds commands tuning prepared
                    (λ calls. Unit {0} × Mem (published payload (ok u)) calls) t)
                (call (published payload) (with_whom.put_envelope payload) s')
                (call_or-Ends commands tuning prepared (λ calls. Unit {0})
                  (record { at = λ c calls u. tt }) fault (published payload)
                  (with_whom.put_envelope payload) s' (k.0, tt)
                  (λ r. (result, k.1.1, whole s'.calls k.1.0, known s'.calls k.1.0))
                  (λ e calls f. tt)))
              (λ u t m. Ends-pure WasPublished StaysSound payload t (m.0, m.1.1)))
