-- ===== src/Generator/Process/Gate.antt =====
-- The ownership gate stands directly before the creation of a Scanner resource (handler.py).
use portscanner.Prelude.{
  ℕ, ◌<◌, ◌≡◌, ◌∙◌, ap, true, false, ◌||◌, Option, some, List, [], ◌∷◌, leb, arith, not-false,
}
use portscanner.Prelude.Text.{Text}
use portscanner.Prelude.Value.{Value}
use portscanner.Prelude.Exec.{
  Exec, lift, Preserves, Preserves-pure, Preserves-lift, Preserves-bind, Leads, Leads-when,
  Leads-attempt, Leads-bind, Leads-then, Ends-turn, Leads-by, Leads-from, Leads-Preserves,
}
use portscanner.Generator.Error.{Error}
use portscanner.Generator.Revalidation.{OwnershipDecision, OwnershipCheck, dispatch}
use portscanner.Generator.Claims.Item.{ClaimState, EventClaim}
use portscanner.Generator.World.{
  Scan, Event, Services, Run, Call, read_clock, checked_ownership, listed, deleting, creating,
  call_as, clock, connect, create, call-calls, call_now-calls, call_as-entries, CreateResult,
}
use portscanner.Generator.Cancellation.{CancellationResult, scanner_name}
use portscanner.Generator.Dispatch.{
  Hashes, create_scanner, create_in_time, by_final_check, is_dispatch,
}
use portscanner.Generator.Process.Quiet.{
  Stable, give_back-Preserves, complete_claim-Preserves, settle_final-Preserves, expire-Preserves,
}

-- No resource has been created.
abbrev pub NoCreation : List Call → Type 0
NoCreation [] = Unit
NoCreation (creating body ∷ calls) = ⊥
NoCreation (read_clock t ∷ calls) = NoCreation calls
NoCreation (checked_ownership c ∷ calls) = NoCreation calls
NoCreation (listed hash rs ∷ calls) = NoCreation calls
NoCreation (deleting name ∷ calls) = NoCreation calls

-- The calls before a creation, the last one first: the clock was read just before, at a time before
-- the deadline and the end of the event's scan; just before that the ownership check said DISPATCH;
-- and there was no earlier creation.
abbrev pub Admitted : Option Scan → List Call → Type 0
Admitted (some scan) (read_clock t ∷ checked_ownership c ∷ calls) =
    (c.decision ≡ dispatch) × (t < scan.deadline_at) × (t < scan.not_after) × NoCreation calls
Admitted _ _ = ⊥

-- Every creation was admitted.
abbrev pub Gated : Option Scan → List Call → Type 0
Gated scan [] = Unit
Gated scan (creating body ∷ calls) = Admitted scan calls
Gated scan (read_clock t ∷ calls) = Gated scan calls
Gated scan (checked_ownership c ∷ calls) = Gated scan calls
Gated scan (listed hash rs ∷ calls) = Gated scan calls
Gated scan (deleting name ∷ calls) = Gated scan calls

pub NoCreation-Gated :
    (scan : Option Scan) (calls : List Call) → NoCreation calls → Gated scan calls
NoCreation-Gated scan [] h = tt
NoCreation-Gated scan (creating body ∷ calls) h = absurd h
NoCreation-Gated scan (read_clock t ∷ calls) h = NoCreation-Gated scan calls h
NoCreation-Gated scan (checked_ownership c ∷ calls) h = NoCreation-Gated scan calls h
NoCreation-Gated scan (listed hash rs ∷ calls) h = NoCreation-Gated scan calls h
NoCreation-Gated scan (deleting name ∷ calls) h = NoCreation-Gated scan calls h

pub NoCreation-stable : Stable NoCreation
NoCreation-stable = record {
  on_clock = λ t calls h. h;
  on_check = λ c calls h. h;
  on_list = λ hash rs calls h. h;
  on_delete = λ name calls h. h;
}

pub Gated-stable : (scan : Option Scan) → Stable (Gated scan)
Gated-stable scan = record {
  on_clock = λ t calls h. h;
  on_check = λ c calls h. h;
  on_list = λ hash rs calls h. h;
  on_delete = λ name calls h. h;
}

module _ {W : Type 0} (services : Services W) (scan : Option Scan) where
  abbrev Quiet : Run W → Type 0
  Quiet s = NoCreation s.calls

  abbrev Guarded : Run W → Type 0
  Guarded s = Gated scan s.calls

  Quiet-Guarded : (s : Run W) → Quiet s → Guarded s
  Quiet-Guarded s h = NoCreation-Gated scan s.calls h

  -- The calls are exactly these.
  abbrev After : List Call → Run W → Type 0
  After calls s = s.calls ≡ calls

  create-Leads :
      (calls : List Call) (body : Value)
      → Admitted scan calls
      → Leads (After calls) Guarded (create services body)
  unfolding create
  create-Leads calls body h = record {
    at = λ s e. rw (call_now-calls (creating body) (services.create body) s) (rw e h);
  }

  connect-After : (calls : List Call) → Preserves (After calls) (connect services)
  unfolding connect
  connect-After calls = record { at = λ s e. call-calls services.scanner_client s ∙ e }

  create_scanner-Leads :
      (sha256 : Text → Text) (event : Event) (h : Hashes) (claim : EventClaim)
      (check : OwnershipCheck) (c : CancellationResult) (resource : Value) (calls : List Call)
      → Admitted scan calls
      → Gated scan calls
      → Leads (After calls) Guarded (create_scanner services sha256 event h claim check c resource)
  unfolding create_scanner
  create_scanner-Leads sha256 event h claim check c resource calls admitted gated =
      let weaker : (s : Run W) → After calls s → Guarded s = λ s e. rw e gated in
      let stable = Gated-stable scan in
      let finish = λ (r : CreateResult).
        Preserves-bind {P = Guarded} (lift (scanner_name sha256 event.event_id)) _
          (Preserves-lift _)
          (λ name.
            Preserves-bind _ _
              (complete_claim-Preserves (Gated scan) stable services claim ClaimState.dispatched
                check (some name) c.deleted)
              (λ u. Preserves-pure r)) in
      Leads-then (After calls) Guarded _ _
        (Leads-attempt (After calls) Guarded _ _
          (Leads-bind (After calls) Guarded (connect services) _ weaker (connect-After calls) (λ u.
            Leads-then (After calls) Guarded (create services resource) _
              (create-Leads calls resource admitted) finish))
          (λ e. give_back-Preserves (Gated scan) stable services claim _ _))
        (λ r. Preserves-pure _)

is_dispatch_sound : (d : OwnershipDecision) → is_dispatch d ≡ true → d ≡ dispatch
is_dispatch_sound d h = ground arith

module _ {W : Type 0} (services : Services W) (sha256 : Text → Text) (scan : Scan) where
  abbrev pub Guards : Run W → Type 0
  Guards s = Gated (some scan) s.calls

  in_time-Admitted :
      (t : ℕ) (c : OwnershipCheck) (calls : List Call)
      → (leb scan.deadline_at t || leb scan.not_after t) ≡ false
      → c.decision ≡ dispatch
      → NoCreation calls
      → Admitted (some scan) (read_clock t ∷ checked_ownership c ∷ calls)
  in_time-Admitted t c calls h d n = (d, ground arith, ground arith, n)

  create_in_time-Leads :
      (event : Event) (h : Hashes) (claim : EventClaim) (check : OwnershipCheck)
      (c : CancellationResult) (resource : Value) (calls : List Call)
      → check.decision ≡ dispatch
      → NoCreation calls
      → Leads
          (After services (some scan) (checked_ownership check ∷ calls))
          Guards
          (create_in_time services sha256 event h claim scan check c resource)
  unfolding create_in_time clock
  create_in_time-Leads event h claim check c resource calls d n =
      let gated = NoCreation-Gated (some scan) calls n in
      let before = checked_ownership check ∷ calls in
      Leads-by (After services (some scan) before) Guards (λ t s. s.calls ≡ read_clock t ∷ before) _
        _
        (λ s e.
          Ends-turn (λ t s'. s'.calls ≡ read_clock t ∷ s.calls)
            (λ t s'. s'.calls ≡ read_clock t ∷ before) (λ x s'. s'.calls ≡ s.calls)
            (λ x s'. Guards s') (call_as read_clock services.clock s)
            (λ t s' same. same ∙ ap (◌∷◌ (read_clock t)) e) (λ x s' same. rw (same ∙ e) gated)
            (call_as-entries read_clock services.clock s))
        (λ t.
          Leads-when _ _ _ _ _
            (λ late.
              Leads-from _ Guards Guards _ (λ s q. rw q gated)
                (Leads-Preserves Guards _ (
                  expire-Preserves (Gated (some scan)) (Gated-stable (some scan)) services sha256
                    event h claim check c)))
            (λ timely.
              create_scanner-Leads services (some scan) sha256 event h claim check c resource _
                (in_time-Admitted t check calls timely d n) gated))

  -- The state after a check: its entry stands on calls with no creation.
  abbrev pub Checked : OwnershipCheck → Run W → Type 0
  Checked c s = (calls : List Call) × (s.calls ≡ checked_ownership c ∷ calls) × NoCreation calls

  Checked-quiet : (c : OwnershipCheck) (s : Run W) → Checked c s → NoCreation s.calls
  Checked-quiet c s h = rw h.1 h.2

  Quiet-Leads :
      {A : Type 0} (c : OwnershipCheck) (m : Exec (Run W) Error A)
      → Preserves (λ s. NoCreation s.calls) m
      → Leads (Checked c) Guards m
  Quiet-Leads c m h = record {
    at = λ s k. NoCreation-Gated (some scan) (m s).1.calls (h.at s (Checked-quiet c s k));
  }

  pub by_final_check-Leads :
      (event : Event) (h : Hashes) (claim : EventClaim) (c : CancellationResult) (resource : Value)
      (check : OwnershipCheck)
      → Leads
          (Checked check)
          Guards
          (by_final_check services sha256 event h claim scan c resource check)
  unfolding by_final_check
  by_final_check-Leads event h claim c resource check =
      Leads-when _ _ _ _ _
        (λ again.
          Quiet-Leads check _ (give_back-Preserves NoCreation NoCreation-stable services claim _ _))
        (λ x.
          Leads-when _ _ _ _ _
            (λ other. Quiet-Leads check _ (
              settle_final-Preserves NoCreation NoCreation-stable services sha256 event h claim
                check c))
            (λ go. record {
              at = λ s k.
                  (create_in_time-Leads event h claim check c resource k.0
                      (is_dispatch_sound check.decision (not-false (is_dispatch check.decision) go))
                      k.2).at
                    s k.1;
            }))
