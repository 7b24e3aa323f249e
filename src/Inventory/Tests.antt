-- ===== src/Inventory/Tests.antt =====
-- The inventory at concrete inputs.
pub mod Rescan
pub mod Rows
pub mod Store
pub mod Outbox
pub mod Snapshot
use portscanner.Prelude.{
  ℕ, ◌≡◌, refl, ◌<◌, ◌≤◌, ◌⊎◌, ◌↔◌, inl, inr, Bool, true, false, Option, none, some, List, [], ◌∷◌,
  suc, arith,
}
use portscanner.Prelude.Text.{Text, codes}
use portscanner.Prelude.Exec.{Preserves, attempt, ◌>>=◌, when◌run◌otherwise◌, lift, pure}
use portscanner.Prelude.Result.{Result, ok, err}
use portscanner.Inventory.Error.{StateError}
use portscanner.Inventory.Target.{
  NormalizedTarget, all_ports, Codec, config_observation_order, ordered_by_versions, compare_groups,
  compare_version, order_of, version_of, advances, not_newer, state_signature, target_id_of,
}
use portscanner.Inventory.Target.Order.{
  AllNoOlder, config_observation_order-advances, config_observation_order_self,
}
use portscanner.Inventory.Event.{
  EventSource, OutboxEvent, ScanPlan, new_target, Contract, plan_target_event, build_target_event,
  reason_of_change, reason_is_allowed, policy_changed_since, state_changed_since, plan_of,
}
use portscanner.Inventory.Event.Reason.{plan_target_event-total}
use portscanner.Inventory.Store.{
  TargetState, StateItem, StateConfig, active, state_item, condition_of, with_event, added,
  ReconcileResult,
}
use portscanner.Inventory.Store.Moves.{holds_of}
use portscanner.Inventory.Store.Reconcile.{
  reconcile, reconcile_rounds, reconcile_once, get, judge_previous, write_judged, lifecycle_kept,
  is_unchanged, advance, advance_with, write_state_and_outbox,
}
use portscanner.Inventory.Store.Operations.{remove, enqueue_coverage, confirm_config_versions}
use portscanner.Inventory.Store.Fence.{Moved}
use portscanner.Inventory.Store.Rounds.{reconcile-Preserves}
use portscanner.Inventory.Store.Removal.{
  remove-Preserves, enqueue_coverage-Preserves, confirm_config_versions-Preserves,
}
use portscanner.Inventory.Store.Announce.{Holds, reconcile-Holds}
use portscanner.Inventory.Tests.Rows.{RowMap, set, rows, rows-IsStateTable, write_row}

abbrev pub eni : ℕ → NormalizedTarget
eni at = record {
  account_id = codes "111";
  region = codes "r";
  network_interface_id = codes "eni-1";
  private_ip = codes "10.0.0.1";
  public_ip = codes "192.0.2.7";
  instance_id = none;
  lifecycle = codes "in-use";
  security_group_ids = codes "sg-1" ∷ [];
  policy_fingerprint = codes "f";
  attachment_id = none;
  allocation_id = none;
  association_id = none;
  tags = [];
  candidate_ports = all_ports;
  managed_canary = false;
  source_event_name = none;
  source_event_id = none;
  source_request_id = none;
  source_event_time = none;
  observed_at = some at;
  eni_observed_at = some at;
  security_group_observed_at = (codes "sg-1", at) ∷ [];
}

newer_advances : config_observation_order (eni 2) (eni 1) ≡ ok advances
unfolding config_observation_order ordered_by_versions compare_groups compare_version order_of
    version_of
newer_advances = refl

config_observation_order-advances_example : AllNoOlder (eni 2) (eni 1)
config_observation_order-advances_example =
    config_observation_order-advances (eni 2) (eni 1) newer_advances

version_one : version_of (codes "sg-1") ((codes "sg-1", 1) ∷ []) ≡ some 1
unfolding version_of
version_one = refl

config_observation_order_self_example : config_observation_order (eni 1) (eni 1) ≡ ok not_newer
config_observation_order_self_example =
    config_observation_order_self (eni 1) 1 refl ((1, version_one), tt)

abbrev pub codec : Codec
codec = record {
  sha256 = λ t. t;
  dumps = λ address lifecycle groups fingerprint. address;
  observation_json = λ at groups. [];
  instance_of = λ t. none;
  with_instance = λ t i. t;
}

plan_target_event-total_example :
    (plan : ScanPlan) × (plan_target_event codec (eni 1) 5 none none ≡ ok plan)
    × ((plan.reason ≡ new_target) ↔ (◌≡◌ {A = Option NormalizedTarget} none none))
    × (5 < plan.deadline_at)
    × (plan.deadline_at < plan.not_after)
plan_target_event-total_example = plan_target_event-total codec (eni 1) 5 none (inl refl)

abbrev pub config : StateConfig
config = record { outbox_ttl_seconds = 604800; max_retries = 4 }

abbrev pub source : EventSource
source = record {
  name = codes "snapshot";
  event_id = codes "s1";
  request_id = codes "q1";
  event_time = 1;
  observed_at = 1;
}

abbrev pub contract : Contract
contract t generation s now plan = ok (record {
  event_id = codes "e1";
  contract_target_id = codes "c1";
  generation = generation;
  collected_at = now;
  target = t;
  source = s;
  plan = plan;
})

abbrev pub first_state : TargetState
first_state = record {
  target_id = target_id_of (eni 1);
  generation = 1;
  status = active;
  target = eni 1;
  signature = codes "192.0.2.7";
  contract_target_id = some (codes "c1");
  observed_at = some 1;
}

reconcile-Preserves_example :
    Preserves
      (Moved rows-IsStateTable (target_id_of (eni 1)) none)
      (reconcile rows codec config contract (eni 1) source 5)
reconcile-Preserves_example =
    reconcile-Preserves rows-IsStateTable (target_id_of (eni 1)) none codec config contract (eni 1)
      source 5

remove-Preserves_example :
    Preserves
      (Moved rows-IsStateTable (target_id_of (eni 1)) none)
      (remove rows codec config contract first_state source 5)
remove-Preserves_example =
    remove-Preserves rows-IsStateTable (target_id_of (eni 1)) none codec config contract first_state
      source 5

confirm_config_versions-Preserves_example :
    Preserves
      (Moved rows-IsStateTable (target_id_of (eni 1)) none)
      (confirm_config_versions rows codec config first_state (eni 2) 5)
confirm_config_versions-Preserves_example =
    confirm_config_versions-Preserves rows-IsStateTable (target_id_of (eni 1)) none codec config
      first_state (eni 2) 5

abbrev pub first_item : StateItem
first_item = record {
  status = active;
  generation = 1;
  signature = codes "192.0.2.7";
  target = eni 1;
  contract_target_id = codes "c1";
  observed_at = 1;
  observation_version = [];
  updated_at = 5;
}

abbrev first_event : OutboxEvent
first_event = record {
  event_id = codes "e1";
  contract_target_id = codes "c1";
  generation = 1;
  collected_at = 5;
  target = eni 1;
  source = source;
  plan = some (plan_of new_target (eni 1) none 5);
}

abbrev first_result : ReconcileResult
first_result = with_event added first_state first_event

abbrev no_rows : RowMap
no_rows k = none

reconcile_first :
    (reconcile rows codec config contract (eni 1) source 5 no_rows).0 ≡ ok first_result
unfolding reconcile reconcile_rounds reconcile_once get judge_previous write_judged advance
    advance_with write_state_and_outbox plan_target_event build_target_event reason_of_change
    reason_is_allowed policy_changed_since state_changed_since state_item condition_of holds_of
    write_row state_signature attempt ◌>>=◌ lift pure
reconcile_first = refl

reconcile-Holds_example :
    Holds rows-IsStateTable codec config first_result
      (reconcile rows codec config contract (eni 1) source 5 no_rows).1
reconcile-Holds_example =
    reconcile-Holds rows-IsStateTable codec config contract (eni 1) source 5 no_rows first_event
      reconcile_first refl
