-- ===== src/Scanner/Worker/Budget.antt =====
-- The time of a phase (scanner/nmap/src/portscanner_scanner/worker.py, `_phase_budget`).
use portscanner.Prelude.{
  ℕ, ◌+◌, ◌-◌, ◌/◌, ◌≤◌, ◌<◌, ◌≡◌, min, Bool, true, false, Option, none, some, ltb, if◌then◌else◌,
  arith, refl,
}
use portscanner.Scanner.Worker.{PhaseBudget, phase_budget}

module _ (reserve process_seconds host_seconds : ℕ) where
  -- The limits fit into what is left, with the reserve, and into what is configured; that of the host
  -- is at least a second and less than that of the process.
  pub record Fits (remaining : ℕ) (b : PhaseBudget) : Type 0 where
    pub in_time : b.process_timeout_seconds + reserve ≤ remaining
    pub as_configured : b.process_timeout_seconds ≤ process_seconds
    pub host_as_configured : b.host_timeout_seconds ≤ host_seconds
    pub host_first : b.host_timeout_seconds < b.process_timeout_seconds
    pub host_positive : 1 ≤ b.host_timeout_seconds

  abbrev given : ℕ → PhaseBudget
  given left = record {
    process_timeout_seconds = min process_seconds left;
    host_timeout_seconds = min host_seconds (min process_seconds left - 1);
  }

  given-Fits :
      (remaining : ℕ)
      → ltb (remaining - reserve) 2 ≡ false
      → ltb (min host_seconds (min process_seconds (remaining - reserve) - 1)) 1 ≡ false
      → Fits remaining (given (remaining - reserve))
  given-Fits remaining h k = record {
    in_time = ground arith;
    as_configured = ground arith;
    host_as_configured = ground arith;
    host_first = ground arith;
    host_positive = ground arith;
  }

  abbrev tested : ℕ → Bool → Bool → Option PhaseBudget
  tested left is_short is_small =
      if is_short then none else if is_small then none else some (given left)

  tested-Fits :
      (remaining : ℕ) (b : PhaseBudget) (is_short is_small : Bool)
      → ltb (remaining - reserve) 2 ≡ is_short
      → ltb (min host_seconds (min process_seconds (remaining - reserve) - 1)) 1 ≡ is_small
      → tested (remaining - reserve) is_short is_small ≡ some b
      → Fits remaining b
  tested-Fits remaining b true is_small h k e = absurd (cc)
  tested-Fits remaining b false true h k e = absurd (cc)
  tested-Fits remaining b false false h k e =
      let is_given : given (remaining - reserve) ≡ b = cc in
      rw (← is_given) (given-Fits remaining h k)

  -- A phase is given time only where its limits fit into the time that is left before `not_after`, less
  -- the reserve for the upload, and into the configured ones; the limit of the host is at least a second
  -- and less than the limit of the process.
  pub phase_budget-Fits :
      (not_after now : ℕ) (b : PhaseBudget)
      → phase_budget not_after now reserve process_seconds host_seconds ≡ some b
      → Fits ((not_after - now) / 1000000) b
  unfolding phase_budget
  phase_budget-Fits not_after now b h = tested-Fits ((not_after - now) / 1000000) b _ _ refl refl h
