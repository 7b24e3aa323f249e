-- ===== src/Generator/Dispatch.antt =====
-- Processing of one target event (generator/src/portscanner_generator/handler.py,
-- `process_sqs_record` after the event is read), in the stages of the source. SHA-256 is the
-- parameter `sha256`. These are the stages after the first ownership check; `Process` calls them.
use portscanner.Prelude.{
  ℕ, suc, ◌+◌, Bool, true, false, ◌&&◌, ◌||◌, not, Option, none, some, [], ◌∷◌, ltb, leb,
  if◌then◌else◌, max,
}
use portscanner.Prelude.Text.{Text, codes, text_eq}
use portscanner.Prelude.Value.{Value}
use portscanner.Prelude.Exec.{Exec, pure, raise, lift, attempt, ◌>>=◌, ◌>>◌, when◌run◌otherwise◌}
use portscanner.Prelude.Result.{Result, ok, err}
use portscanner.Generator.Error.{Error, value_error, retryable}
use portscanner.Generator.Revalidation.{
  OwnershipDecision, OwnershipCheck, dispatch, stale, cancel, retry,
}
use portscanner.Generator.Claims.Item.{ClaimState, EventClaim}
use portscanner.Generator.Claims.Store.{complete, mark_retryable}
use portscanner.Generator.World.{
  Scan, Event, Services, Run, CreateResult, created, already_exists, call, clock, connect, create,
}
use portscanner.Generator.Cancellation.{
  scanner_name, CancellationResult, cancel_event_scanner, cancel_older_scanners,
  cancel_scanners_through_generation,
}

pub record RecordOutcome : Type 0 where
  pub outcome : Text
  pub event_hash : Text
  pub trace_hash : Text
  pub verdict : Option Text
  pub cancelled : ℕ

-- `_enum_text`.
abbrev pub enum_text : Text → Result Error Text
enum_text [] = err value_error
enum_text (c ∷ cs) = ok (c ∷ cs)

-- `_event_type(event) == "target.removed"`.
abbrev pub is_removal : Text → Bool
is_removal event_type = text_eq event_type (codes "target.removed")

-- `trace_id_for_event`.
abbrev pub trace_or_event : Option Text → Text → Result Error Text
trace_or_event (some (c ∷ cs)) event_id = ok (c ∷ cs)
trace_or_event _ event_id = enum_text event_id

abbrev pub trace_id_for_event : Event → Result Error Text
trace_id_for_event event = trace_or_event event.trace_id event.event_id

abbrev pub first_of_two : Option Text → Option Text → Option Text
first_of_two (some a) other = some a
first_of_two none other = other

-- `_target_scope`.
abbrev pub scope_of : Option Text → Option Text → Result Error (Text × Text)
scope_of (some account) (some address) = ok (account, address)
scope_of _ _ = err value_error

abbrev pub target_scope : Event → Result Error (Text × Text)
target_scope event =
    scope_of (first_of_two event.scope_id event.aws_account_id) event.public_address

abbrev pub is_policy_reason : Option Text → Bool
is_policy_reason (some reason) = text_eq reason (codes "policy-or-lifecycle")
is_policy_reason none = false

abbrev pub is_dispatch : OwnershipDecision → Bool
is_dispatch dispatch = true
is_dispatch _ = false

abbrev pub is_stale : OwnershipDecision → Bool
is_stale stale = true
is_stale _ = false

abbrev pub is_cancel : OwnershipDecision → Bool
is_cancel cancel = true
is_cancel _ = false

abbrev pub is_retry : OwnershipDecision → Bool
is_retry retry = true
is_retry _ = false

-- The generation up to which a stale verdict cancels.
abbrev pub accepted_generation : OwnershipCheck → ℕ → ℕ
accepted_generation check generation = elim check.current_generation [
  | some current ↦ if is_stale check.decision && ltb generation current then current else generation
  | none ↦ generation
]

-- None for a removal, which has no scan; else the scan.
abbrev pub removal_or_scan : Bool → Option Scan → Result Error (Option Scan)
removal_or_scan true scan = ok none
removal_or_scan false none = err value_error
removal_or_scan false (some scan) = ok (some scan)

-- `_reason`.
abbrev pub reason_of : Option Scan → Result Error Text
reason_of none = ok (codes "removed")
reason_of (some scan) = enum_text scan.reason

abbrev pub Action : Type 0 → Type 0 → Type 0
Action W A = Exec (Run W) Error A

-- The hashes of an event, for the outcome.
pub record Hashes : Type 0 where
  pub event_hash : Text
  pub trace_hash : Text
  pub target_hash : Text

abbrev pub outcome_of : Hashes → Text → Option Text → ℕ → RecordOutcome
outcome_of h outcome verdict cancelled = record {
  outcome = outcome;
  event_hash = h.event_hash;
  trace_hash = h.trace_hash;
  verdict = verdict;
  cancelled = cancelled;
}

-- The two cancellations of one event, counted together.
abbrev pub both_cancellations : CancellationResult → CancellationResult → CancellationResult
both_cancellations a b = record {
  matched = max a.matched b.matched;
  deleted = a.deleted + b.deleted;
}

module _ {W : Type 0} (services : Services W) where
  -- `_retry_claim`: its own failure is passed over.
  unfoldable pub retry_claim : EventClaim → Text → Action W (Unit {0})
  retry_claim claim error_code =
      attempt
        (do
          now ← clock services
          call (mark_retryable services.claims claim now error_code)
          pure tt)
        (λ e. pure tt)

  -- `_retry_claim(...)` and then `raise RetryableRecordError(...)`.
  unfoldable pub give_back : {A : Type 0} → EventClaim → Text → Option Text → Action W A
  give_back claim error_code verdict = do
    retry_claim claim error_code
    raise (retryable error_code verdict)

  -- `_complete_claim`.
  unfoldable pub complete_claim :
      EventClaim → ClaimState → OwnershipCheck → Option Text → ℕ → Action W (Unit {0})
  complete_claim claim state check scanner cancelled_count = do
    now ← clock services
    call (complete services.claims claim state now check.verdict scanner cancelled_count)
    pure tt

module _ {W : Type 0} (services : Services W) (sha256 : Text → Text) where
  -- `_cancel` of the event's own generation.
  unfoldable pub cancel_own : Event → Action W CancellationResult
  cancel_own event = do
    connect services
    cancel_older_scanners services sha256 event.target_id event.generation []

  -- The second half of `_cancel_terminal`.
  unfoldable pub cancel_by_check : Event → OwnershipCheck → Text → Action W CancellationResult
  cancel_by_check event check exact_name = do
    connect services
    when is_cancel check.decision || is_stale check.decision && is_policy_reason check.reason
        run cancel_scanners_through_generation services sha256 event.target_id event.generation
            (exact_name ∷ [])
        otherwise cancel_older_scanners services sha256 event.target_id
            (accepted_generation check event.generation) (exact_name ∷ [])

  -- `_cancel_terminal`.
  unfoldable pub cancel_terminal : Event → OwnershipCheck → Action W CancellationResult
  cancel_terminal event check = do
    exact_name ← lift (scanner_name sha256 event.event_id)
    connect services
    exact_deleted ← cancel_event_scanner services sha256 event.event_id
    result ← cancel_by_check event check exact_name
    pure (record result { deleted = if exact_deleted then suc result.deleted else result.deleted })

  -- A removal, a stale and a cancelled event end alike, with their own state, code and outcome.
  unfoldable pub settle :
      Event
      → Hashes
      → EventClaim
      → OwnershipCheck
      → ClaimState
      → Text
      → Text
      → Action W RecordOutcome
  settle event h claim check state error_code outcome = do
    cancellation ←
        attempt
          (do
            c ← cancel_terminal event check
            complete_claim services claim state check none c.deleted
            pure c)
          (λ e. give_back services claim error_code (some check.verdict))
    pure (outcome_of h outcome (some check.verdict) cancellation.deleted)

  -- After the second check found the event stale or cancelled.
  unfoldable pub settle_final :
      Event → Hashes → EventClaim → OwnershipCheck → CancellationResult → Action W RecordOutcome
  settle_final event h claim check cancellation = do
    total ←
        attempt
          (do
            terminal ← cancel_terminal event check
            complete_claim services claim
                (if is_stale check.decision then ClaimState.stale else ClaimState.cancelled) check
                none (cancellation.deleted + terminal.deleted)
            pure (both_cancellations cancellation terminal))
          (λ e. give_back services claim (codes "audit_finalize_failed") (some check.verdict))
    pure (
        outcome_of h (if is_stale check.decision then codes "stale" else codes "cancelled")
          (some check.verdict) total.deleted)

  -- The deadline has passed at the last moment.
  unfoldable pub expire :
      Event → Hashes → EventClaim → OwnershipCheck → CancellationResult → Action W RecordOutcome
  expire event h claim check cancellation = do
    total ←
        attempt
          (do
            connect services
            gone ← cancel_event_scanner services sha256 event.event_id
            let count = if gone then suc cancellation.deleted else cancellation.deleted
            complete_claim services claim ClaimState.expired check none count
            pure count)
          (λ e. give_back services claim (codes "audit_finalize_failed") (some check.verdict))
    pure (outcome_of h (codes "expired") (some check.verdict) total)

  abbrev pub created_outcome : CreateResult → Text
  created_outcome created = codes "dispatched"
  created_outcome already_exists = codes "already_dispatched"

  -- The creation of the Scanner resource.
  unfoldable pub create_scanner :
      Event
      → Hashes
      → EventClaim
      → OwnershipCheck
      → CancellationResult
      → Value
      → Action W RecordOutcome
  create_scanner event h claim check cancellation resource = do
    result ←
        attempt
          (do
            connect services
            r ← create services resource
            name ← lift (scanner_name sha256 event.event_id)
            complete_claim services claim ClaimState.dispatched check (some name)
                cancellation.deleted
            pure r)
          (λ e. give_back services claim (codes "dispatch_failed") (some check.verdict))
    pure (outcome_of h (created_outcome result) (some check.verdict) cancellation.deleted)

  -- After a second check that lets the event through.
  unfoldable pub create_in_time :
      Event
      → Hashes
      → EventClaim
      → Scan
      → OwnershipCheck
      → CancellationResult
      → Value
      → Action W RecordOutcome
  create_in_time event h claim scan check cancellation resource = do
    create_time ← clock services
    when leb scan.deadline_at create_time || leb scan.not_after create_time
        run expire event h claim check cancellation
        otherwise create_scanner event h claim check cancellation resource

  unfoldable pub by_final_check :
      Event
      → Hashes
      → EventClaim
      → Scan
      → CancellationResult
      → Value
      → OwnershipCheck
      → Action W RecordOutcome
  by_final_check event h claim scan cancellation resource check =
      when is_retry check.decision
      run give_back services claim (codes "ownership_unknown") (some check.verdict)
      otherwise (when not (is_dispatch check.decision)
          run settle_final event h claim check cancellation
          otherwise create_in_time event h claim scan check cancellation resource)
