-- ===== src/Inventory/Event.antt =====
-- The events of target changes (inventory/src/portscanner_inventory/events.py, `build_target_event`
-- and `build_removal_event`): the reason, the scan's profile, priority and windows, and the checks. The
-- validation and the identifiers of the shared contract are the parameter `contract`.
pub mod Reason
use portscanner.Prelude.{
  ℕ, ◌+◌, ◌*◌, Bool, true, false, ◌&&◌, ◌||◌, not, Option, none, some, List, [], ◌∷◌, if◌then◌else◌,
}
use portscanner.Prelude.Text.{Text, text_eq}
use portscanner.Prelude.Result.{Result, ok, err}
use portscanner.Inventory.Error.{StateError, value_error}
use portscanner.Inventory.Target.{
  NormalizedTarget, CandidatePorts, all_ports, Codec, state_signature, texts_eq, then_ok,
}

pub record EventSource : Type 0 where
  pub name : Text
  pub event_id : Text
  pub request_id : Text
  pub event_time : ℕ
  pub observed_at : ℕ

pub data ScanReason : Type 0 where
  new_target target_change policy_change coverage manual : ScanReason

pub data ScanProfile : Type 0 where
  fast_full_tcp targeted_tcp deep : ScanProfile

pub data TargetEventType : Type 0 where
  target_upsert policy_changed rescan_requested target_removed : TargetEventType

-- What the reason decides.
pub record ScanPlan : Type 0 where
  pub reason : ScanReason
  pub profile : ScanProfile
  pub priority : ℕ
  pub deadline_at : ℕ
  pub not_after : ℕ
  pub ports : CandidatePorts
  pub event_type : TargetEventType
  pub previous_fingerprint : Option Text

abbrev pub minutes : ℕ → ℕ
minutes n = n * 60000000

abbrev pub priority_dispatch_window : ℕ
priority_dispatch_window = minutes 5

abbrev pub priority_execution_window : ℕ
priority_execution_window = minutes 30

abbrev pub manual_dispatch_window : ℕ
manual_dispatch_window = minutes 10

abbrev pub coverage_dispatch_window : ℕ
coverage_dispatch_window = minutes 120

abbrev pub coverage_execution_window : ℕ
coverage_execution_window = minutes 360

abbrev pub policy_differs : NormalizedTarget → NormalizedTarget → Bool
policy_differs previous current =
    not (texts_eq previous.security_group_ids current.security_group_ids)
    || not (text_eq previous.policy_fingerprint current.policy_fingerprint)

unfoldable pub policy_changed_since : Option NormalizedTarget → NormalizedTarget → Bool
policy_changed_since none current = false
policy_changed_since (some previous) current = policy_differs previous current

unfoldable pub state_changed_since : Codec → Option NormalizedTarget → NormalizedTarget → Bool
state_changed_since codec none current = false
state_changed_since codec (some previous) current =
    not (text_eq (state_signature codec previous) (state_signature codec current))

abbrev pub is_some : {A : Type 0} → Option A → Bool
is_some none = false
is_some (some a) = true

-- The reason, if none is given.
unfoldable pub reason_of_change : Option ScanReason → Option NormalizedTarget → Bool → ScanReason
reason_of_change (some reason) previous policy = reason
reason_of_change none none policy = new_target
reason_of_change none (some previous) policy = if policy then policy_change else target_change

-- The checks of a reason: a new target has no active previous state, and so on.
unfoldable pub reason_is_allowed : ScanReason → Option NormalizedTarget → Bool → Bool → Bool
reason_is_allowed new_target previous policy changed = not (is_some previous)
reason_is_allowed target_change previous policy changed =
    is_some previous && (not policy && changed)
reason_is_allowed policy_change previous policy changed = policy
reason_is_allowed coverage previous policy changed = true
reason_is_allowed manual previous policy changed = true

-- The fingerprint of the policy before, where it has changed.
unfoldable pub fingerprint_before : Option NormalizedTarget → NormalizedTarget → Option Text
fingerprint_before none current = none
fingerprint_before (some previous) current =
    if text_eq previous.policy_fingerprint current.policy_fingerprint
    then none
    else some previous.policy_fingerprint

unfoldable pub plan_of : ScanReason → NormalizedTarget → Option NormalizedTarget → ℕ → ScanPlan
plan_of policy_change current previous now = record {
  reason = policy_change;
  profile = if current.candidate_ports.full_tcp then fast_full_tcp else targeted_tcp;
  priority = 200;
  deadline_at = now + priority_dispatch_window;
  not_after = now + priority_execution_window;
  ports = current.candidate_ports;
  event_type = policy_changed;
  previous_fingerprint = fingerprint_before previous current;
}
plan_of target_change current previous now = record {
  reason = target_change;
  profile = fast_full_tcp;
  priority = 200;
  deadline_at = now + priority_dispatch_window;
  not_after = now + priority_execution_window;
  ports = all_ports;
  event_type = target_upsert;
  previous_fingerprint = none;
}
plan_of coverage current previous now = record {
  reason = coverage;
  profile = deep;
  priority = 10;
  deadline_at = now + coverage_dispatch_window;
  not_after = now + coverage_execution_window;
  ports = all_ports;
  event_type = rescan_requested;
  previous_fingerprint = none;
}
plan_of new_target current previous now =
    let targeted = current.managed_canary && not current.candidate_ports.full_tcp in
    record {
      reason = new_target;
      profile = if targeted then targeted_tcp else fast_full_tcp;
      priority = 100;
      deadline_at = now + priority_dispatch_window;
      not_after = now + priority_execution_window;
      ports = if targeted then current.candidate_ports else all_ports;
      event_type = target_upsert;
      previous_fingerprint = none;
    }
plan_of manual current previous now = record {
  reason = manual;
  profile = fast_full_tcp;
  priority = 500;
  deadline_at = now + manual_dispatch_window;
  not_after = now + priority_execution_window;
  ports = all_ports;
  event_type = rescan_requested;
  previous_fingerprint = none;
}

-- An event to send: the identifiers that the contract computes, and the plan of the scan, which a
-- removal has not.
pub record OutboxEvent : Type 0 where
  pub event_id : Text
  pub contract_target_id : Text
  pub generation : ℕ
  pub collected_at : ℕ
  pub target : NormalizedTarget
  pub source : EventSource
  pub plan : Option ScanPlan

abbrev pub Contract : Type 0
Contract = NormalizedTarget → ℕ → EventSource → ℕ → Option ScanPlan → Result StateError OutboxEvent

module _ (codec : Codec) where
  -- The reason and its plan, or the check that failed.
  unfoldable pub plan_target_event :
      NormalizedTarget
      → ℕ
      → Option NormalizedTarget
      → Option ScanReason
      → Result StateError ScanPlan
  plan_target_event current now previous reason =
      let policy = policy_changed_since previous current in
      let chosen = reason_of_change reason previous policy in
      if reason_is_allowed chosen previous policy (state_changed_since codec previous current)
      then ok (plan_of chosen current previous now)
      else err value_error

module _ (codec : Codec) (contract : Contract) where
  unfoldable pub build_target_event :
      NormalizedTarget
      → ℕ
      → EventSource
      → ℕ
      → Option NormalizedTarget
      → Option ScanReason
      → Result StateError OutboxEvent
  build_target_event current generation source now previous reason =
      then_ok (plan_target_event codec current now previous reason)
        (λ plan. contract current generation source now (some plan))

  unfoldable pub build_removal_event :
      NormalizedTarget → ℕ → EventSource → ℕ → Result StateError OutboxEvent
  build_removal_event current generation source now = contract current generation source now none
