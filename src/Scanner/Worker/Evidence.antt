-- ===== src/Scanner/Worker/Evidence.antt =====
-- What stands behind the runs of Nmap and the published results of a scan
-- (scanner/nmap/src/portscanner_scanner/worker.py).
pub mod Steps
pub mod Enrichment
pub mod Phases
pub mod Published
pub mod Failed
pub mod Whole
use mathlib.Core.List.{Mem, mem-cons_self, mem-cons_of_mem}
use portscanner.Prelude.{
  ℕ, ◌+◌, ◌-◌, ◌/◌, ◌≤◌, ◌≡◌, refl, Bool, true, false, ◌⊎◌, inl, inr, Option, none, some, List, [],
  ◌∷◌,
}
use portscanner.Prelude.Text.{Text}
use portscanner.Prelude.Exec.{Exec, Ends}
use portscanner.Prelude.Result.{Result, ok, err}
use portscanner.Prelude.Calls.{Logged}
use portscanner.Scanner.Coverage.{PortCoverage}
use portscanner.Scanner.Worker.{
  Phase, discovery, enrichment, ReturnCode, Fault, PhaseFailure, NmapTuning, PreparedScan,
  ScanResult, NmapCommands, Call, read_clock, asked, ran, validated, extracted, checked_directory,
  looked, stored, checked, published, Progress, ScanError, fault, phase_failure, execution_error,
  runtime_error, Action, turned, call_or,
}

-- A fact about the calls that further calls leave true.
pub record Stable (F : List Call → Type 0) : Type 0 where
  pub at : (c : Call) (calls : List Call) → F calls → F (c ∷ calls)

pub Mem-Stable : (c : Call) → Stable (Mem c)
Mem-Stable c = record { at = λ d calls m. mem-cons_of_mem d m }

pub both-Stable :
    {F G : List Call → Type 0} → Stable F → Stable G → Stable (λ calls. F calls × G calls)
both-Stable f g = record { at = λ c calls x. (f.at c calls x.0, g.at c calls x.1) }

module _ (commands : NmapCommands) (tuning : NmapTuning) (prepared : PreparedScan) where
  -- The limit, with the reserve, fits into the time that was left when the clock was read.
  abbrev pub Within : ℕ → List Call → Type 0
  Within timeout calls =
      (at : ℕ) × Mem (read_clock (ok at)) calls
      × (timeout + tuning.upload_reserve_seconds ≤ (prepared.not_after - at) / 1000000)

  -- The discovery's report was proven complete, with these ports open.
  abbrev pub Scanned : List ℕ → List Call → Type 0
  Scanned ports calls = Mem (validated discovery prepared.coverage (ok ports)) calls

  -- No port is open, or the enrichment's report has the same ports open and was proven to cover them.
  abbrev pub Enriched : List ℕ → List Call → Type 0
  Enriched ports calls =
      (ports ≡ [])
      ⊎ ((coverage : PortCoverage) × (proven : List ℕ) × (commands.from_ports ports ≡ ok coverage)
          × Mem (extracted enrichment (ok ports)) calls
          × Mem (validated enrichment coverage (ok proven)) calls)

  abbrev pub Proven : List ℕ → List Call → Type 0
  Proven ports calls = Scanned ports calls × (Enriched ports calls × Mem (asked (ok false)) calls)

  -- All of that, and the discovery's report is stored.
  abbrev pub Complete : List ℕ → List Call → Type 0
  Complete ports calls =
      Proven ports calls × ((digest : Text) × Mem (stored discovery (ok digest)) calls)

  -- What stands behind a call: a run was started in time; a result that is published is what the
  -- validation made of one that claims no more than is known.
  abbrev pub Backed : Call → List Call → Type 0
  Backed (ran argv timeout r) calls = Within timeout calls
  Backed (published payload r) calls =
      (result : ScanResult) × Mem (checked result (ok payload)) calls
      × (result.complete ≡ true → Complete result.open_ports calls)
      × (result.scanned_coverage_complete ≡ true → Scanned result.open_ports calls)
  Backed _ calls = Unit

  abbrev pub Sound : List Call → Type 0
  Sound [] = Unit
  Sound (c ∷ calls) = Backed c calls × Sound calls

  -- A failure that claims the coverage names the ports of the discovery's report.
  abbrev pub Failing : ScanError → List Call → Type 0
  Failing (phase_failure f p) calls =
      f.scanned_coverage_complete ≡ true → Scanned f.open_ports calls
  Failing _ calls = Unit

  pub Enriched-Stable : (ports : List ℕ) → Stable (Enriched ports)
  Enriched-Stable ports = record {
    at = λ c calls e. elim e [
      | inl is_nil ↦ inl is_nil
      | inr (coverage, proven, from, m, n) ↦
          inr (coverage, proven, from, mem-cons_of_mem c m, mem-cons_of_mem c n)
    ];
  }

  pub Proven-Stable : (ports : List ℕ) → Stable (Proven ports)
  Proven-Stable ports =
      both-Stable (Mem-Stable (validated discovery prepared.coverage (ok ports)))
        (both-Stable (Enriched-Stable ports) (Mem-Stable (asked (ok false))))

  module _ {W : Type 0} where
    -- The calls are sound, and a fact about them holds.
    abbrev pub Holds : (List Call → Type 0) → Logged W Call → Type 0
    Holds F s = Sound s.calls × F s.calls

    abbrev pub Fails : ScanError → Logged W Call → Type 0
    Fails e s = Holds (Failing e) s

    module _ {A : Type 0} (F : List Call → Type 0) (is_stable : Stable F)
        (raising : Fault → ScanError) (entry : Result Fault A → Call) where
      ended-Ends :
          (s : Logged W Call) (x : Result Fault A × W)
          → Holds F s
          → ((r : Result Fault A) → Backed (entry r) s.calls)
          → ((e : Fault) (calls : List Call) → F calls → Failing (raising e) calls)
          → Ends {S = Logged W Call}
              (λ a s'. Holds (λ calls. F calls × Mem (entry (ok a)) calls) s')
              Fails
              (turned raising x.0, record { world = x.1; calls = entry x.0 ∷ s.calls })
      ended-Ends s (ok a, w) h back fails =
          ((back (ok a), h.0), (is_stable.at (entry (ok a)) s.calls h.1, mem-cons_self))
      ended-Ends s (err e, w) h back fails = (
        (back (err e), h.0),
        fails e (entry (err e) ∷ s.calls) (is_stable.at (entry (err e)) s.calls h.1),
      )

      -- A call: its entry is backed, the fact stays, and what is returned is known.
      pub call_or-Ends :
          (m : Exec W Fault A) (s : Logged W Call)
          → Holds F s
          → ((r : Result Fault A) → Backed (entry r) s.calls)
          → ((e : Fault) (calls : List Call) → F calls → Failing (raising e) calls)
          → Ends
              (λ a s'. Holds (λ calls. F calls × Mem (entry (ok a)) calls) s')
              Fails
              (call_or raising entry m s)
      unfolding call_or
      call_or-Ends m s h back fails = ended-Ends s (m s.world) h back fails
