-- ===== src/Scanner/Worker/Evidence/Whole.antt =====
-- A scan as a whole (scanner/nmap/src/portscanner_scanner/worker.py, `execute_scan`).
use mathlib.Core.List.{Mem}
use portscanner.Prelude.{ℕ, ◌≡◌, refl, true, Option, none, some, List}
use portscanner.Prelude.Text.{Text}
use portscanner.Prelude.Exec.{
  raise, lift, ◌>>=◌, Ends, Ends-bind, Ends-when, Ends-attempt, Preserves, Preserves-pure,
  Preserves-raise, Preserves-when, Preserves-bind,
}
use portscanner.Prelude.Exec.Steps.{Ends-pure, Ends-raise}
use portscanner.Prelude.Result.{ok}
use portscanner.Prelude.Calls.{Logged}
use portscanner.Scanner.Worker.{
  Phase, discovery, enrichment, NmapTuning, PreparedScan, PhaseBudget, ScanResult, NmapCommands,
  Collaborators, Call, read_clock, checked_directory, looked, other_fault, stored, published,
  Progress, ScanError, fault, runtime_error, call,
}
use portscanner.Scanner.Worker.Failures.{or_least}
use portscanner.Scanner.Worker.Execution.{put_raw_if_present, budget_of}
use portscanner.Scanner.Worker.Scan.{
  complete_result, must_be_present, upload_error, upload_rest, publish_complete, scan_from,
  check_directory, execute_prepared, execute_scan,
}
use portscanner.Scanner.Worker.Evidence.{
  Stable, Mem-Stable, both-Stable, Proven-Stable, Proven, Sound, Holds, Fails,
}
use portscanner.Scanner.Worker.Evidence.Phases.{phases-Ends}
use portscanner.Scanner.Worker.Evidence.Published.{
  StaysSound, WasPublished, call-Ends, call-Preserves, looked-Preserves, clock-Preserves,
  existing_nonempty-Preserves, put_raw-Preserves, publish_result-Ends,
}
use portscanner.Scanner.Worker.Evidence.Failed.{step_bind-Ends, on_failure-Ends}

module _ {W : Type 0} (with_whom : Collaborators W) (commands : NmapCommands) (tuning : NmapTuning)
    (prepared : PreparedScan) where
  abbrev Kept : (List Call → Type 0) → Logged W Call → Type 0
  Kept F s = Holds commands tuning prepared F s

  abbrev Raised : {E : Type 0} → E → Logged W Call → Type 0
  Raised e s = StaysSound with_whom commands tuning prepared e s

  abbrev Returned : ScanResult → Logged W Call → Type 0
  Returned payload s = WasPublished with_whom commands tuning prepared payload s

  abbrev Stored : Option Text → List Call → Type 0
  Stored none calls = Unit
  Stored (some digest) calls = Mem (stored discovery (ok digest)) calls

  put_raw-Stored :
      (ports : List ℕ) (s : Logged W Call)
      → Kept (Proven commands tuning prepared ports) s
      → Ends
          (λ found s'.
            Kept (λ calls. Proven commands tuning prepared ports calls × Stored found calls) s')
          Raised
          (put_raw_if_present with_whom discovery s)
  unfolding put_raw_if_present
  put_raw-Stored ports s h =
      step_bind-Ends with_whom commands tuning prepared (Proven commands tuning prepared ports) _ _
        _ s
        (existing_nonempty-Preserves with_whom commands tuning prepared
          (Proven commands tuning prepared ports) (Proven-Stable commands tuning prepared ports)
          discovery)
        h
        (λ present s₁ h₁.
          Ends-when _ Raised present _ _ s₁
            (λ e.
              Ends-bind
                (λ digest s'.
                  Kept
                    (λ calls.
                      Proven commands tuning prepared ports calls
                      × Mem (stored discovery (ok digest)) calls)
                    s')
                _ Raised _ _ s₁
                (call-Ends with_whom commands tuning prepared
                  (Proven commands tuning prepared ports)
                  (Proven-Stable commands tuning prepared ports) (stored discovery) (λ r calls. tt)
                  (with_whom.put_file discovery) s₁ h₁)
                (λ digest s₂ h₂. Ends-pure _ Raised (some digest) s₂ h₂))
            (λ e. Ends-pure _ Raised none s₁ (h₁.0, (h₁.1, tt))))

  module _ (ports : List ℕ) (digest : Text) where
    abbrev Found : List Call → Type 0
    Found calls =
        Proven commands tuning prepared ports calls × Mem (stored discovery (ok digest)) calls

    Found-Stable : Stable Found
    Found-Stable =
        both-Stable (Proven-Stable commands tuning prepared ports)
          (Mem-Stable (stored discovery (ok digest)))

    -- Once the report is stored.
    upload-Ends :
        (started completed : ℕ) (argv : List Text) (budget : PhaseBudget) (p : Progress)
        (s : Logged W Call)
        → Kept Found s
        → Ends Returned Raised (
            upload_rest with_whom commands tuning prepared started completed argv budget ports p
              digest s)
    unfolding upload_rest complete_result
    upload-Ends started completed argv budget p s h =
        step_bind-Ends with_whom commands tuning prepared Found Returned _ _ s
          (put_raw-Preserves with_whom commands tuning prepared Found Found-Stable enrichment) h
          (λ raw_e s₁ h₁.
            step_bind-Ends with_whom commands tuning prepared Found Returned _ _ s₁
              (clock-Preserves with_whom commands tuning prepared Found Found-Stable
                with_whom.clock)
              h₁
              (λ uploaded s₂ h₂.
                publish_result-Ends with_whom commands tuning prepared Found Found-Stable _ s₂ h₂
                  (λ calls f e. (f.0, (digest, f.1))) (λ calls f e. f.0.0)))

  present-Ends :
      (ports : List ℕ) (found : Option Text) (s : Logged W Call)
      → Kept (λ calls. Proven commands tuning prepared ports calls × Stored found calls) s
      → Ends
          (λ digest s'. Kept (Found ports digest) s')
          Raised
          (must_be_present with_whom commands tuning prepared found s)
  present-Ends ports none s h = Ends-raise _ Raised runtime_error s h.0
  present-Ends ports (some digest) s h =
      Ends-pure (λ digest s'. Kept (Found ports digest) s') Raised digest s h

  upload_error-Ends :
      (e : ScanError) (s : Logged W Call)
      → Raised e s
      → Ends Returned Raised (raise (upload_error e) s)
  upload_error-Ends e s h = Ends-raise Returned Raised (upload_error e) s h

  publish_complete-Ends :
      (started : ℕ) (argv : List Text) (budget : PhaseBudget) (ports : List ℕ) (p : Progress)
      (s : Logged W Call)
      → Kept (Proven commands tuning prepared ports) s
      → Ends Returned Raised
          (publish_complete with_whom commands tuning prepared started argv budget ports p s)
  unfolding publish_complete
  publish_complete-Ends started argv budget ports p s h =
      step_bind-Ends with_whom commands tuning prepared (Proven commands tuning prepared ports)
        Returned _ _ s
        (clock-Preserves with_whom commands tuning prepared (Proven commands tuning prepared ports)
          (Proven-Stable commands tuning prepared ports) with_whom.clock)
        h
        (λ completed s₁ h₁.
          Ends-attempt Returned Raised Raised _ _ s₁
            (Ends-bind
              (λ found s'.
                Kept (λ calls. Proven commands tuning prepared ports calls × Stored found calls) s')
              Returned Raised _ _ s₁ (put_raw-Stored ports s₁ h₁)
              (λ found s₂ h₂.
                Ends-bind (λ digest s'. Kept (Found ports digest) s') Returned Raised
                  (must_be_present with_whom commands tuning prepared found) _ s₂
                  (present-Ends ports found s₂ h₂)
                  (λ digest s₃ h₃. upload-Ends ports digest started completed argv budget p s₃ h₃)))
            (λ e s₂ h₂. upload_error-Ends e s₂ h₂))

  scan_from-Ends :
      (started : ℕ) (argv : List Text) (b : Option PhaseBudget) (s : Logged W Call)
      → b ≡ budget_of with_whom commands tuning prepared discovery started
      → Kept (Mem (read_clock (ok started))) s
      → Ends Returned Raised (scan_from with_whom commands tuning prepared started argv b s)
  unfolding scan_from
  scan_from-Ends started argv b s e h =
      Ends-bind (λ x s'. Kept (Proven commands tuning prepared x.0) s') Returned Raised _ _ s
        (Ends-attempt (λ x s'. Kept (Proven commands tuning prepared x.0) s')
          (Fails commands tuning prepared) Raised _ _ s
          (phases-Ends with_whom commands tuning prepared argv started b s e h)
          (λ x s₁ h₁.
            on_failure-Ends with_whom commands tuning prepared started argv (or_least b) x s₁ _ h₁))
        (λ x s₁ h₁. publish_complete-Ends started argv (or_least b) x.0 x.1 s₁ h₁)

  nothing-Stable : Stable (λ calls. Unit {0})
  nothing-Stable = record { at = λ c calls u. tt }

  check_directory-Preserves :
      Preserves (Kept (λ calls. Unit {0})) (check_directory with_whom commands tuning prepared)
  unfolding check_directory
  check_directory-Preserves =
      Preserves-bind _ _
        (call-Preserves with_whom commands tuning prepared (λ calls. Unit {0}) nothing-Stable
          checked_directory (λ r calls. tt) with_whom.is_directory)
        (λ is_there.
          Preserves-bind _ _
            (Preserves-when is_there _ _ (Preserves-pure tt) (Preserves-raise (fault other_fault)))
            (λ u. Preserves-bind _ _ (file_exists-Preserves discovery) (λ first.
              Preserves-bind _ _
                (Preserves-when first _ _ (Preserves-pure true) (file_exists-Preserves enrichment))
                (λ second.
                  Preserves-when second _ _ (Preserves-raise (fault other_fault))
                    (Preserves-pure tt)))))
    where
      file_exists-Preserves :
          (phase : Phase)
          → Preserves (Kept (λ calls. Unit {0})) (call (looked phase) (with_whom.file_exists phase))
      file_exists-Preserves phase =
          looked-Preserves with_whom commands tuning prepared (λ calls. Unit {0}) nothing-Stable
            phase (with_whom.file_exists phase)

  execute_prepared-Ends :
      (s : Logged W Call)
      → Sound commands tuning prepared s.calls
      → Ends Returned Raised (execute_prepared with_whom commands tuning prepared s)
  unfolding execute_prepared
  execute_prepared-Ends s h =
      step_bind-Ends with_whom commands tuning prepared (λ calls. Unit {0}) Returned _ _ s
        check_directory-Preserves (h, tt)
        (λ u s₁ h₁.
          Ends-bind
            (λ started s'. Kept (λ calls. Unit {0} × Mem (read_clock (ok started)) calls) s')
            Returned Raised _ _ s₁
            (call-Ends with_whom commands tuning prepared (λ calls. Unit {0}) nothing-Stable
              read_clock (λ r calls. tt) with_whom.clock s₁ h₁)
            (λ started s₂ h₂.
              scan_from-Ends started _
                (budget_of with_whom commands tuning prepared discovery started) s₂ refl
                (h₂.0, h₂.1.1)))

module _ {W : Type 0} (with_whom : Collaborators W) (commands : NmapCommands)
    (tuning : NmapTuning) where
  -- If the calls made before a scan are sound, so are all of them when it returns or raises: Nmap was run
  -- only with a limit that, with the reserve for the upload, fits into the time left before `not_after`
  -- when the clock was read; a published payload is what the validation made of a result; such a result
  -- is complete only if the discovery's report was proven to cover the ports of the request with the
  -- open ports of the result, was stored, a question for a termination was answered with no, and the enrichment
  -- found the same ports open and was proven to cover them, or no port is open; and a result, also one of
  -- a failure, has its coverage complete only with the open ports of the proven discovery. A payload that
  -- is returned was published.
  pub execute_scan-Backed :
      (prepared : PreparedScan) (s : Logged W Call)
      → Sound commands tuning prepared s.calls
      → Ends
          (λ payload s'.
            Sound commands tuning prepared s'.calls × Mem (published payload (ok tt)) s'.calls)
          (λ e s'. Sound commands tuning prepared s'.calls)
          (execute_scan with_whom commands tuning (ok prepared) s)
  unfolding execute_scan ◌>>=◌ lift
  execute_scan-Backed prepared s h = execute_prepared-Ends with_whom commands tuning prepared s h
