-- ===== src/Inventory/Store.antt =====
-- The store of target states with its outbox (inventory/src/portscanner_inventory/state.py,
-- `DynamoStateStore`): the generation fence. The JSON text of a target stands as the target that
-- it reads back to, and a time stamp as its time. DynamoDB is the interface `StateTable`.

pub mod Reconcile
pub mod Operations
pub mod Moves
pub mod Fence
pub mod Rounds
pub mod Removal
pub mod Quiet
pub mod Sequence
pub mod Announce
use portscanner.Prelude.{
  ℕ, zero, suc, ◌+◌, ◌/◌, Bool, true, false, ◌&&◌, ◌||◌, not, Option, none, some, List, [], ◌∷◌,
  ◌++◌, ltb, leb, ◌==◌, if◌then◌else◌, max,
}
use portscanner.Prelude.Text.{Text, codes, text_eq}
use portscanner.Prelude.Exec.{Exec, pure, raise, lift, attempt, ◌>>=◌, ◌>>◌, when◌run◌otherwise◌}
use portscanner.Prelude.Result.{Result, ok, err}
use portscanner.Inventory.Error.{StateError, value_error, condition_failure}
use portscanner.Inventory.Target.{
  NormalizedTarget, all_ports, Codec, state_signature, target_id_of, with_observation, version_of,
  preserving_component_versions, config_observation_order, ObservationOrder, advances, not_newer,
  mixed, then_ok,
}
use portscanner.Inventory.Event.{
  EventSource, ScanReason, coverage, OutboxEvent, Contract, build_target_event, build_removal_event,
}

pub data ReconcileAction : Type 0 where
  added changed noop removed race revalidate : ReconcileAction

pub record TargetState : Type 0 where
  pub target_id : Text
  pub generation : ℕ
  pub status : Text
  pub target : NormalizedTarget
  pub signature : Text
  pub contract_target_id : Option Text
  pub observed_at : Option ℕ

pub record ReconcileResult : Type 0 where
  pub action : ReconcileAction
  pub state : Option TargetState
  pub event : Option OutboxEvent

-- An item of the table with the state of a target.
pub record StateItem : Type 0 where
  pub status : Text
  pub generation : ℕ
  pub signature : Text
  pub target : NormalizedTarget
  pub contract_target_id : Text
  pub observed_at : ℕ
  pub observation_version : Text
  pub updated_at : ℕ

pub record OutboxItem : Type 0 where
  pub event_id : Text
  pub event : OutboxEvent
  pub account_id : Text
  pub region : Text
  pub delivery_ttl_seconds : ℕ
  pub created_at : ℕ

-- The condition of a write of a state.
pub data Condition : Type 0 where
  is_absent : Condition
  is_version : ℕ → Text → ℕ → Text → Condition

-- The transactions of the code: a state, with the event that announces it or alone, and an event
-- under the check that the target is active in a generation.
pub data Transaction : Type 0 where
  put_both : Text → Condition → StateItem → OutboxItem → Transaction
  put_state : Text → Condition → StateItem → Transaction
  put_checked : Text → ℕ → OutboxItem → Transaction

-- The calls of the table. `state` is what a consistent read of a target's key finds: the code
-- does not call it. `put_signal` writes the expiry of a signal's key, unless there is one that is
-- not before the given time.
pub record StateTable (W : Type 0) : Type 0 where
  pub state : W → Text → Option StateItem
  pub get_item : Text → Exec W StateError (Option StateItem)
  pub transact : Transaction → Exec W StateError (Unit {0})
  pub put_signal : Text → ℕ → ℕ → Exec W StateError (Unit {0})
  pub delete_signal : Text → Exec W StateError (Unit {0})

pub record StateConfig : Type 0 where
  pub outbox_ttl_seconds : ℕ
  pub max_retries : ℕ

abbrev pub active : Text
active = codes "active"

-- `_observation_version`.
abbrev pub observation_version : Codec → NormalizedTarget → Text
observation_version codec t =
    codec.sha256 (codec.observation_json t.eni_observed_at t.security_group_observed_at)

abbrev pub text_or_none : Option Text → Option Text
text_or_none (some []) = none
text_or_none o = o

-- `from_state_dict` of `to_state_dict`: what a stored target reads back to.
unfoldable pub stored : NormalizedTarget → NormalizedTarget
stored t = record t {
  instance_id = text_or_none t.instance_id;
  attachment_id = text_or_none t.attachment_id;
  allocation_id = text_or_none t.allocation_id;
  association_id = text_or_none t.association_id;
  candidate_ports = all_ports;
  source_event_name = none;
  source_event_id = none;
  source_request_id = none;
  source_event_time = none;
}

abbrev pub text_of : Option Text → Text
text_of none = []
text_of (some t) = t

abbrev pub first_time : Option ℕ → Option ℕ → Result StateError ℕ
first_time (some at) other = ok at
first_time none (some at) = ok at
first_time none none = err value_error

-- `_state_item`.
unfoldable pub state_item : Codec → TargetState → ℕ → Result StateError StateItem
state_item codec s now = then_ok (first_time s.observed_at s.target.observed_at) (λ at. ok (record {
  status = s.status;
  generation = s.generation;
  signature = s.signature;
  target = stored s.target;
  contract_target_id = text_of s.contract_target_id;
  observed_at = at;
  observation_version = observation_version codec s.target;
  updated_at = now;
}))

-- `_decode_state`.
unfoldable pub decode_state : Text → StateItem → TargetState
decode_state target_id i = record {
  target_id = target_id;
  generation = i.generation;
  status = i.status;
  target = i.target;
  signature = i.signature;
  contract_target_id = text_or_none (some i.contract_target_id);
  observed_at = some i.observed_at;
}

-- The condition that the state is still the previous one.
unfoldable pub condition_of : Codec → Option TargetState → Result StateError Condition
condition_of codec none = ok is_absent
condition_of codec (some p) =
    then_ok (first_time p.observed_at none)
      (λ at. ok (is_version p.generation p.status at (observation_version codec p.target)))

abbrev pub result_of : ReconcileAction → Option TargetState → ReconcileResult
result_of action s = record { action = action; state = s; event = none }

abbrev pub with_event : ReconcileAction → TargetState → OutboxEvent → ReconcileResult
with_event action s e = record { action = action; state = some s; event = some e }

abbrev pub is_active : Option TargetState → Bool
is_active none = false
is_active (some s) = text_eq s.status active

abbrev pub previous_target : Option TargetState → Option NormalizedTarget
previous_target none = none
previous_target (some s) = if text_eq s.status active then some s.target else none

abbrev pub next_generation : Option TargetState → ℕ
next_generation none = 1
next_generation (some s) = suc s.generation
