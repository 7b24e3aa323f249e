-- ===== src/Generator/Process/Creation.antt =====
-- Processing an event creates a Scanner resource at most once, and only through the ownership gate
-- (handler.py, `process_sqs_record`).
use portscanner.Prelude.{ℕ, ◌≡◌, Bool, true, false, ◌||◌, not, Option, none, some, List, [], ◌∷◌}
use portscanner.Prelude.Text.{Text, codes}
use portscanner.Prelude.Value.{Value}
use portscanner.Prelude.Exec.{
  Exec, pure, raise, lift, ◌>>=◌, when◌run◌otherwise◌, Preserves, Preserves-pure, Preserves-raise,
  Preserves-lift, Ends, Ends-of, Ends-bind, Ends-attempt, Leads, Leads-of, Leads-when, Leads-bind,
  Ends-of-Preserves, Ends-turn, Leads-by,
}
use portscanner.Prelude.Result.{Result, ok, ok_inj}
use portscanner.Generator.Error.{Error}
use portscanner.Generator.Revalidation.{OwnershipCheck}
use portscanner.Generator.Claims.Item.{
  EventClaim, StoreConfig, ClaimDisposition, acquired, duplicate, busy,
}
use portscanner.Generator.World.{
  Scan, Event, Services, Run, Call, read_clock, checked_ownership, listed, deleting, creating,
  account_allowed, target_allowed, revalidate_event, call_as-entries,
}
use portscanner.Generator.Dispatch.{
  Hashes, RecordOutcome, give_back, retry_claim, is_removal, removal_or_scan, target_scope,
  outcome_of,
}
use portscanner.Generator.Process.{
  check_or_give_back, dispatch_event, by_check, process_claimed, acquire_claim, with_claim,
  process_event,
}
use portscanner.Generator.Process.Quiet.{
  clock-Preserves, give_back-Preserves, retry_claim-Preserves, settle-Preserves, prepare-Preserves,
  check_or_give_back-Preserves, acquire_claim-Preserves, hashes_of-Preserves,
}
use portscanner.Generator.Process.Gate.{
  NoCreation, Gated, Admitted, NoCreation-Gated, NoCreation-stable, Checked, Guards,
  by_final_check-Leads,
}

module _ {W : Type 0} (services : Services W) (store : StoreConfig) (sha256 : Text → Text)
    (show : Value → Text) (build : Event → Result Error Value) where
  abbrev Quiet : Run W → Type 0
  Quiet s = NoCreation s.calls

  give_back-raises :
      (claim : EventClaim) (code : Text) (calls : List Call) (s : Run W)
      → NoCreation s.calls
      → Ends
          (λ (c : OwnershipCheck) (t : Run W). t.calls ≡ checked_ownership c ∷ calls)
          (λ e t. Quiet t)
          (give_back services claim code none s)
  unfolding give_back raise
  give_back-raises claim code calls s n =
      Ends-bind (λ u t. Quiet t) (λ c t. t.calls ≡ checked_ownership c ∷ calls) (λ e t. Quiet t)
        (retry_claim services claim code) _ s
        (Ends-of-Preserves Quiet Quiet (retry_claim services claim code) s (λ t q. q)
          (retry_claim-Preserves NoCreation NoCreation-stable services claim code) n)
        (λ u t q. q)

  -- An ownership check leaves its entry on top of calls with no creation, or ends with a raise.
  check-Ends :
      (event : Event) (claim : EventClaim) (code : Text) (s : Run W)
      → NoCreation s.calls
      → Ends
          (λ c s'. s'.calls ≡ checked_ownership c ∷ s.calls)
          (λ e s'. Quiet s')
          (check_or_give_back services store sha256 show build event claim code s)
  unfolding check_or_give_back revalidate_event
  check-Ends event claim code s n =
      Ends-attempt (λ c s'. s'.calls ≡ checked_ownership c ∷ s.calls) (λ e s'. s'.calls ≡ s.calls)
        (λ e s'. Quiet s') _ _ s (call_as-entries checked_ownership _ s)
        (λ e s' same. give_back-raises claim code s.calls s' (rw same n))

  module _ (scan : Scan) where
    dispatch_event-Leads :
        (event : Event) (h : Hashes) (claim : EventClaim) (check : OwnershipCheck)
        → Leads Quiet
            (Guards services sha256 scan)
            (dispatch_event services store sha256 show build event h claim scan check)
    unfolding dispatch_event
    dispatch_event-Leads event h claim check =
        let weaker = λ (s : Run W) (q : Quiet s). NoCreation-Gated (some scan) s.calls q in
        Leads-bind Quiet (Guards services sha256 scan) _ _ weaker
          (prepare-Preserves NoCreation NoCreation-stable services sha256 store show build event
            claim check)
          (λ prepared.
            Leads-by Quiet (Guards services sha256 scan) (λ c s. Checked services sha256 scan c s) _
              _
              (λ s q.
                Ends-turn (λ c s'. s'.calls ≡ checked_ownership c ∷ s.calls)
                  (λ c s'. Checked services sha256 scan c s') (λ e s'. Quiet s')
                  (λ e s'. Guards services sha256 scan s')
                  (check_or_give_back services store sha256 show build event claim
                    (codes "ownership_recheck_failed") s)
                  (λ c s' e. (s.calls, e, q)) (λ e s' k. weaker s' k)
                  (check-Ends event claim (codes "ownership_recheck_failed") s q))
              (λ c.
                by_final_check-Leads services sha256 scan event h claim prepared.0 prepared.1 c))

  module _ (event : Event) where
    abbrev GuardedFor : Option Scan → Run W → Type 0
    GuardedFor scan s = Gated scan s.calls

    Quiet-Leads :
        {A : Type 0} (scan : Option Scan) (m : Exec (Run W) Error A)
        → Preserves Quiet m
        → Leads Quiet (GuardedFor scan) m
    Quiet-Leads scan m h =
        Leads-of Quiet (GuardedFor scan) m (λ s q. NoCreation-Gated scan s.calls q) h

    by_check-Leads :
        (h : Hashes) (claim : EventClaim) (scan : Option Scan) (check : OwnershipCheck)
        → Leads Quiet
            (GuardedFor scan)
            (by_check services store sha256 show build event h claim scan check)
    unfolding by_check
    by_check-Leads h claim none check =
        Quiet-Leads none _
          (settle-Preserves NoCreation NoCreation-stable services sha256 event h claim check _ _ _)
    by_check-Leads h claim (some scan) check =
        let settled =
          settle-Preserves NoCreation NoCreation-stable services sha256 event h claim check in
        Leads-when _ _ _ _ _ (λ is. Quiet-Leads (some scan) _ (settled _ _ _))
          (λ x.
            Leads-when _ _ _ _ _ (λ is. Quiet-Leads (some scan) _ (settled _ _ _))
              (λ y. dispatch_event-Leads scan event h claim check))

    process_claimed-Leads :
        (h : Hashes) (scan : Option Scan) (claim : EventClaim)
        → Leads Quiet
            (GuardedFor scan)
            (process_claimed services store sha256 show build event h scan claim)
    unfolding process_claimed
    process_claimed-Leads h scan claim =
        Leads-bind Quiet (GuardedFor scan) _ _ (λ s q. NoCreation-Gated scan s.calls q)
          (check_or_give_back-Preserves NoCreation NoCreation-stable services sha256 store show
            build event claim _)
          (λ check.
            Leads-when _ _ _ _ _
              (λ again.
                Quiet-Leads scan _
                  (give_back-Preserves NoCreation NoCreation-stable services claim _ _))
              (λ x. by_check-Leads h claim scan check))

    with_claim-Leads :
        (h : Hashes) (scan : Option Scan) (d : ClaimDisposition) (claim : Option EventClaim)
        → Leads Quiet
            (GuardedFor scan)
            (with_claim services store sha256 show build event h scan d claim)
    unfolding with_claim
    with_claim-Leads h scan duplicate claim = Quiet-Leads scan _ (Preserves-pure _)
    with_claim-Leads h scan busy claim = Quiet-Leads scan _ (Preserves-raise _)
    with_claim-Leads h scan acquired none = Quiet-Leads scan _ (Preserves-raise _)
    with_claim-Leads h scan acquired (some claim) = process_claimed-Leads h scan claim

    none-Admitted :
        (scan : Option Scan) (calls : List Call) → Admitted none calls → Admitted scan calls
    none-Admitted scan [] h = absurd h
    none-Admitted scan (c ∷ calls) h = absurd h

    none-Gated : (scan : Option Scan) (calls : List Call) → Gated none calls → Gated scan calls
    none-Gated scan [] h = tt
    none-Gated scan (creating body ∷ calls) h = none-Admitted scan calls h
    none-Gated scan (read_clock t ∷ calls) h = none-Gated scan calls h
    none-Gated scan (checked_ownership c ∷ calls) h = none-Gated scan calls h
    none-Gated scan (listed hash rs ∷ calls) h = none-Gated scan calls h
    none-Gated scan (deleting name ∷ calls) h = none-Gated scan calls h

    -- What is admitted for the scan that a removal or a scan event has is admitted for the event's.
    removal_or_scan-Gated :
        (removal : Bool) (scan : Option Scan) (calls : List Call) (picked : Option Scan)
        → removal_or_scan removal scan ≡ ok picked
        → Gated picked calls
        → Gated scan calls
    removal_or_scan-Gated true scan calls picked e h = none-Gated scan calls (rw (ok_inj e) h)
    removal_or_scan-Gated false none calls picked e h = absurd (cc)
    removal_or_scan-Gated false (some scan) calls picked e h = rw (ok_inj e) h

    widen :
        (removal : Bool) (scan picked : Option Scan)
        → removal_or_scan removal scan ≡ ok picked
        → (m : Exec (Run W) Error RecordOutcome) → Leads Quiet (GuardedFor picked) m
        → Leads Quiet (GuardedFor scan) m
    widen removal scan picked e m h = record {
      at = λ s q. removal_or_scan-Gated removal scan (m s).1.calls picked e (h.at s q);
    }

    lift-Picked :
        (removal : Bool) (s : Run W)
        → Quiet s
        → Ends
            (λ scan s'. (removal_or_scan removal event.scan ≡ ok scan) × Quiet s')
            (λ e s'. GuardedFor event.scan s')
            (lift (removal_or_scan removal event.scan) s)
    unfolding lift
    lift-Picked removal s q =
        Ends-of (λ scan s'. (removal_or_scan removal event.scan ≡ ok scan) × Quiet s')
          (λ e s'. GuardedFor event.scan s')
          (lift {S = Run W} (removal_or_scan removal event.scan) s) (λ scan e. (e, q))
          (λ x e. NoCreation-Gated event.scan s.calls q)

    claim_and_process-Leads :
        (h : Hashes) (scan : Option Scan) (now : ℕ)
        → Leads Quiet (GuardedFor scan) (do
          result ← acquire_claim services store sha256 show build event scan now
          with_claim services store sha256 show build event h scan result.disposition result.claim)
    claim_and_process-Leads h scan now =
        Leads-bind Quiet (GuardedFor scan) _ _ (λ s q. NoCreation-Gated scan s.calls q)
          (acquire_claim-Preserves NoCreation NoCreation-stable services sha256 store show build
            event scan now)
          (λ result. with_claim-Leads h scan result.disposition result.claim)

    -- The rest of the processing, of the scan that was picked.
    picked-Leads :
        (h : Hashes) (scan : Option Scan) (now : ℕ)
        → Leads Quiet (GuardedFor scan) (do
          scope ← lift (target_scope event)
          when not (account_allowed services.config scope.0)
                || not (target_allowed services.config scope.1)
              run pure (outcome_of h (codes "scope_denied") (some (codes "scope-denied")) 0)
              otherwise (do
                result ← acquire_claim services store sha256 show build event scan now
                with_claim services store sha256 show build event h scan result.disposition
                    result.claim))
    picked-Leads h scan now =
        Leads-bind Quiet (GuardedFor scan) _ _ (λ s q. NoCreation-Gated scan s.calls q)
          (Preserves-lift _)
          (λ scope.
            Leads-when _ _ _ _ _ (λ denied. Quiet-Leads scan _ (Preserves-pure _))
              (λ allowed. claim_and_process-Leads h scan now))

    process_event-Leads :
        Leads Quiet (GuardedFor event.scan) (process_event services store sha256 show build event)
    unfolding process_event
    process_event-Leads =
        let goal = GuardedFor event.scan in
        let weaker = λ (s : Run W) (q : Quiet s). NoCreation-Gated event.scan s.calls q in
        Leads-bind Quiet goal _ _ weaker
          (hashes_of-Preserves NoCreation NoCreation-stable services sha256 store show build event)
          (λ h.
            Leads-bind Quiet goal _ _ weaker (clock-Preserves NoCreation NoCreation-stable services)
              (λ now. Leads-bind Quiet goal _ _ weaker (Preserves-lift _) (λ event_type.
                Leads-by Quiet goal
                  (λ scan s.
                    (removal_or_scan (is_removal event_type) event.scan ≡ ok scan) × Quiet s)
                  _ _ (λ s q. lift-Picked (is_removal event_type) s q)
                  (λ scan. record {
                    at = λ s k.
                        (widen (is_removal event_type) event.scan scan k.0 _
                            (picked-Leads h scan now)).at
                          s k.1;
                  }))))

  -- Whatever the services answer and however the processing ends: it creates a Scanner resource at
  -- most once, for an event with a scan, and directly before it the clock was read, at a time before
  -- the deadline and the end of the scan, and directly before that an ownership check said DISPATCH.
  pub process_event-Gated :
      (event : Event) (s : Run W)
      → NoCreation s.calls
      → Gated event.scan (process_event services store sha256 show build event s).1.calls
  process_event-Gated event s h = (process_event-Leads event).at s h
