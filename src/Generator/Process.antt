-- ===== src/Generator/Process.antt =====
-- The whole processing of a target event
-- (generator/src/portscanner_generator/handler.py, `process_sqs_record`). The
-- reading of a record from S3 stands before it; the building of the Scanner resource is the parameter
-- `build`; SHA-256 is `sha256`, and `show` is `str` of the values that are no `str`.
pub mod Quiet
pub mod Gate
pub mod Creation
use portscanner.Prelude.{
  ℕ, Bool, true, false, ◌&&◌, ◌||◌, not, Option, none, some, List, [], ◌∷◌, ◌++◌,
}
use portscanner.Prelude.Text.{Text, codes}
use portscanner.Prelude.Value.{Value, str, sequence, get_key, is_mapping}
use portscanner.Prelude.Exec.{Exec, pure, raise, lift, attempt, ◌>>=◌, ◌>>◌, when◌run◌otherwise◌}
use portscanner.Prelude.Result.{Result, ok, err}
use portscanner.Generator.Error.{Error, value_error, retryable}
use portscanner.Generator.Revalidation.{OwnershipCheck}
use portscanner.Generator.Claims.Item.{
  ClaimState, ClaimResult, ClaimDisposition, EventClaim, Request, StoreConfig, acquired, duplicate,
  busy,
}
use portscanner.Generator.Claims.Store.{acquire}
use portscanner.Generator.World.{
  Scan, Event, Services, Run, target_allowed, account_allowed, call, clock, revalidate_event,
}
use portscanner.Generator.Cancellation.{identifier_hash, CancellationResult}
use portscanner.Generator.Dispatch.{
  Action, RecordOutcome, Hashes, outcome_of, enum_text, is_removal, trace_id_for_event,
  target_scope, removal_or_scan, reason_of, is_stale, is_cancel, is_retry, give_back, settle,
  cancel_own, by_final_check,
}

module _ {W : Type 0} (services : Services W) (store : StoreConfig) (sha256 : Text → Text)
    (show : Value → Text) (build : Event → Result Error Value) where
  -- The cancellation of older scans and the building of the resource.
  unfoldable pub prepare :
      Event → EventClaim → OwnershipCheck → Action W (CancellationResult × Value)
  prepare event claim check =
      attempt
        (do
          cancellation ← cancel_own services sha256 event
          resource ← lift (build event)
          pure (cancellation, resource))
        (λ e. give_back services claim (codes "dispatch_failed") (some check.verdict))

  -- `revalidate_event`, and what its exception leads to.
  unfoldable pub check_or_give_back : Event → EventClaim → Text → Action W OwnershipCheck
  check_or_give_back event claim error_code =
      attempt (revalidate_event services show event) (λ e. give_back services claim error_code none)

  unfoldable pub dispatch_event :
      Event → Hashes → EventClaim → Scan → OwnershipCheck → Action W RecordOutcome
  dispatch_event event h claim scan check = do
    prepared ← prepare event claim check
    final_check ← check_or_give_back event claim (codes "ownership_recheck_failed")
    by_final_check services sha256 event h claim scan prepared.0 prepared.1 final_check

  -- The first check's decision, for a removal and for a scan.
  unfoldable pub by_check :
      Event → Hashes → EventClaim → Option Scan → OwnershipCheck → Action W RecordOutcome
  by_check event h claim none check =
      settle services sha256 event h claim check ClaimState.removed (codes "removal_failed")
        (codes "removed")
  by_check event h claim (some scan) check =
      when is_stale check.decision
      run settle services sha256 event h claim check ClaimState.stale
          (codes "audit_finalize_failed") (codes "stale")
      otherwise (when is_cancel check.decision
          run settle services sha256 event h claim check ClaimState.cancelled
              (codes "cancellation_failed") (codes "cancelled")
          otherwise dispatch_event event h claim scan check)

  unfoldable pub process_claimed :
      Event → Hashes → Option Scan → EventClaim → Action W RecordOutcome
  process_claimed event h scan claim = do
    check ← check_or_give_back event claim (codes "ownership_check_failed")
    when is_retry check.decision
        run give_back services claim (codes "ownership_unknown") (some check.verdict)
        otherwise by_check event h claim scan check

  unfoldable pub acquire_claim : Event → Option Scan → ℕ → Action W ClaimResult
  acquire_claim event scan now =
      attempt
        (do
          trace_id ← lift (trace_id_for_event event)
          event_type ← lift (enum_text event.event_type)
          provider ← lift (enum_text event.provider)
          reason ← lift (reason_of scan)
          owner ← call services.new_owner
          call (
              acquire services.claims sha256 store
                (record {
                  event_id = event.event_id;
                  trace_id = trace_id;
                  target_id = event.target_id;
                  generation = event.generation;
                  event_type = event_type;
                  provider = provider;
                  reason = reason;
                  owner = owner;
                })
                now))
        (λ e. raise (retryable (codes "claim_acquire_failed") none))

  unfoldable pub with_claim :
      Event → Hashes → Option Scan → ClaimDisposition → Option EventClaim → Action W RecordOutcome
  with_claim event h scan duplicate claim = pure (outcome_of h (codes "duplicate") none 0)
  with_claim event h scan busy claim = raise (retryable (codes "claim_busy") none)
  with_claim event h scan acquired none = raise (retryable (codes "claim_missing") none)
  with_claim event h scan acquired (some claim) = process_claimed event h scan claim

  unfoldable pub hashes_of : Event → Action W Hashes
  hashes_of event = do
    event_hash ← lift (identifier_hash sha256 16 event.event_id)
    trace_id ← lift (trace_id_for_event event)
    trace_hash ← lift (identifier_hash sha256 16 trace_id)
    target_hash ← lift (identifier_hash sha256 16 event.target_id)
    pure (record { event_hash = event_hash; trace_hash = trace_hash; target_hash = target_hash })

  -- `process_sqs_record`, of an event that has been read.
  unfoldable pub process_event : Event → Action W RecordOutcome
  process_event event = do
    h ← hashes_of event
    now ← clock services
    event_type ← lift (enum_text event.event_type)
    scan ← lift (removal_or_scan (is_removal event_type) event.scan)
    scope ← lift (target_scope event)
    when not (account_allowed services.config scope.0)
          || not (target_allowed services.config scope.1)
        run pure (outcome_of h (codes "scope_denied") (some (codes "scope-denied")) 0)
        otherwise (do
          result ← acquire_claim event scan now
          with_claim event h scan result.disposition result.claim)
