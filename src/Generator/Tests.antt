-- ===== src/Generator/Tests.antt =====
-- The dispatcher at concrete inputs.
pub mod Cells
pub mod Reader
use portscanner.Prelude.{
  ℕ, ◌≡◌, refl, ◌≤◌, ◌<◌, ◌↔◌, Option, none, some, List, [], ◌∷◌, suc, if◌then◌else◌, Bool, true,
  false, ltb, leb,
}
use portscanner.Prelude.Text.{Text, codes, split_on, strip, number_from}
use portscanner.Prelude.Ipv4.{ipv4_address}
use portscanner.Prelude.Value.{
  Value, null, str, int, mapping, sequence, nil, cons, get_key, end, field, ℤ, pos,
}
use portscanner.Prelude.Exec.{Exec, Preserves, attempt, ◌>>=◌, when◌run◌otherwise◌, lift, pure}
use portscanner.Prelude.Result.{Result, ok, err}
use portscanner.Generator.Error.{Error, value_error}
use portscanner.Generator.Revalidation.{
  classify_verdict, OwnershipDecision, dispatch, cancel, state_value, current_value, decide,
  state_name, upper, upper_code, request_differs,
}
use portscanner.Generator.Revalidation.Gate.{
  MayDispatch, MayCancel, classify_verdict-dispatch_iff, classify_verdict-cancel_iff,
}
use portscanner.Generator.Claims.Item.{
  ClaimState, dispatched, claimed, Item, EventClaim, Request, StoreConfig, state_text, duplicate,
  acquired, claim_key, item_state, on_conditional, is_terminal, owned_by, value_is,
}
use portscanner.Generator.Claims.Store.{
  fresh_item, acquire, complete, mark_retryable, settled_result, acquired_result, acquire_existing,
  get, judge_existing, checked_item_state,
}
use portscanner.Generator.Claims.Moves.{Moves, here, IsFinished, finished_stays}
use portscanner.Generator.Claims.Lawful.{IsLawful, acquire-IsLawful}
use portscanner.Generator.Claims.Given.{
  WasCompleted, WasReleased, complete-WasCompleted, mark_retryable-WasReleased,
}
use portscanner.Generator.Claims.Ownership.{Grants, Settled, acquire-owned, complete-Settled}
use portscanner.Generator.Claims.Outcomes.{acquire-IsFinished}
use portscanner.Generator.World.{
  Scan, Event, Config, Services, Run, Call, creating, read_clock, checked_ownership, listed,
  deleting, clock, connect, create, call, revalidate_event, target_allowed, account_allowed,
  created, list_for_target_hash, delete, call_as, call_now,
}
use portscanner.Generator.Cancellation.{
  cancel_older_scanners, cancel_scanners_through_generation, cancel_matching_scanners, delete_all,
  collect, judge, judge_matching, resource_generation, sorted_names, insert_name,
}
use portscanner.Generator.Cancellation.Scope.{
  Cancelled, cancel_older_scanners_exact, cancel_scanners_through_generation_exact,
}
use portscanner.Generator.Process.{
  process_event, hashes_of, acquire_claim, with_claim, process_claimed, by_check, dispatch_event,
  check_or_give_back, prepare,
}
use portscanner.Generator.Dispatch.{
  cancel_own, by_final_check, create_in_time, create_scanner, complete_claim,
}
use portscanner.Generator.Process.Gate.{Gated}
use portscanner.Generator.Process.Creation.{process_event-Gated}
use portscanner.Generator.Batch.{message_id_of, process_one, process_all, lambda_handler}
use portscanner.Generator.Batch.Response.{Ran, AllNamed, lambda_handler_reports}
use portscanner.Generator.Tests.Cells.{CellMap, set, cells, cells-IsTable}

abbrev same_text : Text → Text
same_text t = t

abbrev no_text : Value → Text
no_text v = []

abbrev store : StoreConfig
store = record { lease_seconds = 60; audit_ttl_days = 30 }

abbrev some_scan : Scan
some_scan = record { reason = codes "change"; deadline_at = 5000000; not_after = 6000000 }

abbrev some_event : Event
some_event = record {
  event_id = codes "e1";
  trace_id = none;
  event_type = codes "target.added";
  provider = codes "aws";
  target_id = codes "t1";
  generation = 2;
  scope_id = some (codes "111");
  aws_account_id = none;
  public_address = some (codes "192.0.2.7");
  scan = some some_scan;
}

abbrev active : Value
active = mapping (field "verdict" (str (codes "active")) end)

-- An old Scanner resource of the target.
abbrev old_scanner : Value
old_scanner = mapping (
    field "metadata"
      (mapping (
        field "name" (str (codes "scan-e0")) (
          field "labels"
            (mapping (field "scanning.portscanner.io/target-hash" (str (codes "t1")) end)) end)))
      (field "spec" (mapping (field "target" (mapping (field "generation" (int (pos 1)) end)) end))
        end))

abbrev services : Services CellMap
services = record {
  config = record {
    authorized_account_ids = codes "111" ∷ [];
    allowed_target_cidrs = [];
    denied_target_cidrs = [];
  };
  claims = cells;
  clock = λ w. (ok 1000000, w);
  new_owner = λ w. (ok (codes "w"), w);
  validate_event = λ e w. (ok active, w);
  scanner_client = λ w. (ok tt, w);
  list_for_target_hash = λ hash w. (ok (old_scanner ∷ []), w);
  delete = λ name w. (ok true, w);
  create = λ body w. (ok created, w);
}

abbrev build : Event → Result Error Value
build event = ok null

abbrev idle : Run CellMap
idle = record { world = λ k. none; calls = [] }

process_event-Gated_example :
    Gated some_event.scan
      (process_event services store same_text no_text build some_event idle).1.calls
process_event-Gated_example =
    process_event-Gated services store same_text no_text build some_event idle tt

creations : List Call → ℕ
creations [] = 0
creations (creating body ∷ calls) = suc (creations calls)
creations (read_clock t ∷ calls) = creations calls
creations (checked_ownership c ∷ calls) = creations calls
creations (listed hash rs ∷ calls) = creations calls
creations (deleting name ∷ calls) = creations calls

creates_one :
    creations (process_event services store same_text no_text build some_event idle).1.calls ≡ 1
unfolding creations process_event hashes_of acquire_claim with_claim process_claimed by_check
    dispatch_event check_or_give_back prepare revalidate_event clock connect create call call_as
    call_now ◌>>=◌ attempt lift pure when◌run◌otherwise◌ target_allowed account_allowed ipv4_address
    split_on classify_verdict state_value current_value decide state_name upper upper_code strip
    request_differs acquire cancel_own cancel_older_scanners cancel_matching_scanners
    list_for_target_hash delete_all delete collect judge judge_matching resource_generation
    sorted_names insert_name by_final_check create_in_time create_scanner complete_claim complete
    owned_by fresh_item state_text number_from
creates_one = refl

abbrev request : Request
request = record {
  event_id = codes "e1";
  trace_id = codes "e1";
  target_id = codes "t1";
  generation = 2;
  event_type = codes "target.added";
  provider = codes "aws";
  reason = codes "change";
  owner = codes "w";
}

abbrev claim : EventClaim
claim = record {
  key = claim_key (codes "e1");
  event_hash = codes "e1";
  owner = codes "w";
  attempt = pos 1;
}

abbrev finished : Item
finished = record (fresh_item same_text store request 1000000) {
  state = str (state_text dispatched);
}

finished-IsFinished : IsFinished finished dispatched
finished-IsFinished = record { terminal = refl; named = refl }

finished_hash : finished.event_hash ≡ str (codes "e1")
unfolding fresh_item
finished_hash = refl

abbrev after_finish : CellMap
after_finish = set (claim_key (codes "e1")) finished idle.world

abbrev claimed_cells : CellMap
claimed_cells = set (claim_key (codes "e1")) (fresh_item same_text store request 1000000) idle.world

acquire_again :
    (acquire cells same_text store request 2000000 after_finish).0
    ≡ ok (settled_result duplicate dispatched)
unfolding acquire acquire_existing get judge_existing checked_item_state item_state on_conditional
    attempt ◌>>=◌ when◌run◌otherwise◌ lift pure state_text fresh_item
acquire_again = refl

acquire-IsFinished_example :
    settled_result duplicate dispatched ≡ settled_result duplicate dispatched
acquire-IsFinished_example =
    acquire-IsFinished cells-IsTable same_text store request 2000000 finished dispatched
      finished-IsFinished finished_hash after_finish refl acquire_again

acquire_first :
    (acquire cells same_text store request 1000000 idle.world).0
    ≡ ok (acquired_result same_text request (pos 1))
unfolding acquire attempt ◌>>=◌ pure
acquire_first = refl

acquire-owned_example :
    Grants cells
      (acquired_result same_text request (pos 1))
      (acquire cells same_text store request 1000000 idle.world).1
acquire-owned_example =
    acquire-owned cells-IsTable same_text store request 1000000 idle.world acquire_first refl

complete_first :
    (complete cells claim dispatched 2000000 (codes "ACTIVE") none 0 claimed_cells).0 ≡ ok true
unfolding complete attempt ◌>>=◌ when◌run◌otherwise◌ pure owned_by fresh_item state_text number_from
complete_first = refl

complete-Settled_example :
    (is_terminal dispatched ≡ true)
    × Settled cells-IsTable claim dispatched true
        (complete cells claim dispatched 2000000 (codes "ACTIVE") none 0 claimed_cells).1
complete-Settled_example =
    complete-Settled cells-IsTable claim dispatched 2000000 (codes "ACTIVE") none 0 claimed_cells
      complete_first

acquire-IsLawful_example :
    IsLawful (cells.item claimed_cells (codes "event#e1")) (
      cells.item (acquire cells same_text store request 1000000 claimed_cells).1 (codes "event#e1"))
acquire-IsLawful_example =
    acquire-IsLawful cells-IsTable (codes "event#e1") same_text store request 1000000 claimed_cells

complete-WasCompleted_example :
    WasCompleted cells-IsTable claim 2000000 claimed_cells dispatched (codes "ACTIVE") 0 (
      cells.item
        (complete cells claim dispatched 2000000 (codes "ACTIVE") none 0 claimed_cells).1
        claim.key)
complete-WasCompleted_example =
    complete-WasCompleted cells-IsTable claim 2000000 claimed_cells dispatched (codes "ACTIVE") none
      0 complete_first

released_first :
    (mark_retryable cells claim 2000000 (codes "dispatch_failed") claimed_cells).0 ≡ ok true
unfolding mark_retryable attempt ◌>>=◌ pure owned_by fresh_item state_text number_from
released_first = refl

mark_retryable-WasReleased_example :
    WasReleased cells-IsTable claim 2000000 claimed_cells (codes "dispatch_failed") (
      cells.item
        (mark_retryable cells claim 2000000 (codes "dispatch_failed") claimed_cells).1
        claim.key)
mark_retryable-WasReleased_example =
    mark_retryable-WasReleased cells-IsTable claim 2000000 claimed_cells (codes "dispatch_failed")
      released_first

finished_stays_example : some finished ≡ some finished
finished_stays_example = finished_stays finished dispatched finished-IsFinished here

classify_verdict-dispatch_iff_example :
    ((classify_verdict no_text active 2).decision ≡ dispatch) ↔ MayDispatch active 2
classify_verdict-dispatch_iff_example = classify_verdict-dispatch_iff no_text active 2

abbrev moved : Value
moved = mapping (field "verdict" (str (codes "MOVED")) end)

classify_verdict-cancel_iff_example :
    ((classify_verdict no_text moved 2).decision ≡ cancel) ↔ MayCancel moved 2
classify_verdict-cancel_iff_example = classify_verdict-cancel_iff no_text moved 2

cancel_older :
    (cancel_older_scanners services same_text (codes "t1") 2 [] idle).0
    ≡ ok (record { matched = 1; deleted = 1 })
unfolding cancel_older_scanners cancel_matching_scanners list_for_target_hash delete_all delete
    collect judge judge_matching resource_generation sorted_names insert_name call_as call_now ◌>>=◌
    lift pure when◌run◌otherwise◌
cancel_older = refl

cancel_older_scanners_exact_example :
    (1 ≤ 2)
    × Cancelled services same_text
        (codes "t1")
        (λ g. ltb g 2)
        []
        []
        (cancel_older_scanners services same_text (codes "t1") 2 [] idle).1.calls
cancel_older_scanners_exact_example =
    cancel_older_scanners_exact services same_text (codes "t1") 2 [] idle cancel_older

cancel_through :
    (cancel_scanners_through_generation services same_text (codes "t1") 1 [] idle).0
    ≡ ok (record { matched = 1; deleted = 1 })
unfolding cancel_scanners_through_generation cancel_matching_scanners list_for_target_hash
    delete_all delete collect judge judge_matching resource_generation sorted_names insert_name
    call_as call_now ◌>>=◌ lift pure when◌run◌otherwise◌
cancel_through = refl

cancel_scanners_through_generation_exact_example :
    (1 ≤ 1)
    × Cancelled services same_text
        (codes "t1")
        (λ g. leb g 1)
        []
        []
        (cancel_scanners_through_generation services same_text (codes "t1") 1 [] idle).1.calls
cancel_scanners_through_generation_exact_example =
    cancel_scanners_through_generation_exact services same_text (codes "t1") 1 [] idle
      cancel_through

abbrev message : Text → Value
message id = mapping (field "messageId" (str id) end)

abbrev records : Value
records =
    mapping (
      field "Records" (sequence (cons (message (codes "m1")) (cons (message (codes "m2")) nil)))
        end)

-- Only the first message is processed without a raise.
abbrev fails_second : Value → Exec ℕ Error (Unit {0})
fails_second r n =
    (if value_is (get_key "messageId" r) (codes "m2") then err value_error else ok tt, suc n)

named : AllNamed (message (codes "m1") ∷ message (codes "m2") ∷ [])
unfolding message_id_of
named = ((codes "m1", refl), ((codes "m2", refl), tt))

lambda_handler_reports_example :
    (ids : List Text) × (t : ℕ) × (lambda_handler fails_second records 0 ≡ (ok ids, t))
    × Ran fails_second (message (codes "m1") ∷ message (codes "m2") ∷ []) 0 ids t
lambda_handler_reports_example =
    lambda_handler_reports fails_second records (message (codes "m1") ∷ message (codes "m2") ∷ []) 0
      refl named

reports_second : lambda_handler fails_second records 0 ≡ (ok (codes "m2" ∷ []), 2)
unfolding lambda_handler process_all process_one message_id_of attempt ◌>>=◌ lift pure
reports_second = refl
