-- ===== src/Inventory/Store/Reconcile.antt =====
-- `reconcile` of `DynamoStateStore`, with the reading and writing of states (state.py).
use portscanner.Prelude.{
  ℕ, zero, suc, Bool, false, ◌&&◌, Option, none, some, leb, if◌then◌else◌, max,
}
use portscanner.Prelude.Text.{Text, text_eq}
use portscanner.Prelude.Exec.{Exec, pure, raise, lift, attempt, ◌>>=◌, ◌>>◌, when◌run◌otherwise◌}
use portscanner.Prelude.Result.{Result, ok}
use portscanner.Inventory.Error.{StateError, condition_failure}
use portscanner.Inventory.Target.{
  NormalizedTarget, Codec, state_signature, target_id_of, with_observation,
  preserving_component_versions, preserving_known_lifecycle, config_observation_order,
  ObservationOrder, advances, not_newer, mixed, then_ok,
}
use portscanner.Inventory.Event.{EventSource, OutboxEvent, Contract, build_target_event, is_some}
use portscanner.Inventory.Store.{
  added, changed, noop, race, revalidate, TargetState, ReconcileResult, StateItem, OutboxItem,
  put_both, put_state, StateTable, StateConfig, active, state_item, decode_state, condition_of,
  result_of, with_event, is_active, previous_target, next_generation,
}

-- What the previous state says of an observation: the result, or the target to write and its time.
pub data Judged : Type 0 where
  settled : ReconcileResult → Judged
  going : NormalizedTarget → ℕ → Judged

abbrev pub by_order : ObservationOrder → TargetState → NormalizedTarget → ℕ → Judged
by_order mixed p t at = settled (result_of revalidate (some p))
by_order not_newer p t at = settled (result_of noop (some p))
by_order advances p t at = going t at

unfoldable pub judge_observed :
    Bool → NormalizedTarget → ℕ → TargetState → Option ℕ → Result StateError Judged
judge_observed is_config t observed_at p none = ok (going t observed_at)
judge_observed is_config t observed_at p (some before) =
    if is_config
    then then_ok (config_observation_order t p.target)
        (λ order. ok (by_order order p t (max observed_at before)))
    else if leb observed_at before
    then ok (settled (result_of noop (some p)))
    else ok (going (preserving_component_versions t p.target) (max observed_at before))

unfoldable pub judge_previous :
    Bool → NormalizedTarget → ℕ → Option TargetState → Result StateError Judged
judge_previous is_config t observed_at none = ok (going t observed_at)
judge_previous is_config t observed_at (some p) =
    judge_observed is_config t observed_at p p.observed_at

unfoldable pub lifecycle_kept :
    Codec → NormalizedTarget → Option TargetState → Result StateError NormalizedTarget
lifecycle_kept codec t none = ok t
lifecycle_kept codec t (some p) =
    if text_eq p.status active then preserving_known_lifecycle codec t p.target else ok t

-- An active previous state with the same signature.
unfoldable pub is_unchanged : Codec → Option TargetState → NormalizedTarget → Bool
is_unchanged codec none t = false
is_unchanged codec (some p) t =
    text_eq p.status active && text_eq p.signature (state_signature codec t)

unfoldable pub refreshed : Codec → TargetState → NormalizedTarget → ℕ → TargetState
refreshed codec p t at = record p {
  target = t;
  signature = state_signature codec t;
  observed_at = some at;
}

abbrev pub or_observed : Option ℕ → ℕ → ℕ
or_observed (some at) other = at
or_observed none other = other

module _ {W : Type 0} (table : StateTable W) (codec : Codec) (config : StateConfig) where
  abbrev pub decoded : Text → Option StateItem → Option TargetState
  decoded target_id none = none
  decoded target_id (some i) = some (decode_state target_id i)

  unfoldable pub get : Text → Exec W StateError (Option TargetState)
  get target_id = do found ← table.get_item target_id; pure (decoded target_id found)

  abbrev pub outbox_item : OutboxEvent → NormalizedTarget → ℕ → OutboxItem
  outbox_item event t now = record {
    event_id = event.event_id;
    event = event;
    account_id = t.account_id;
    region = t.region;
    delivery_ttl_seconds = config.outbox_ttl_seconds;
    created_at = now;
  }

  unfoldable pub write_state_and_outbox :
      TargetState → OutboxEvent → ℕ → Option TargetState → Exec W StateError (Unit {0})
  write_state_and_outbox s event now previous = do
    condition ← lift (condition_of codec previous)
    item ← lift (state_item codec s now)
    table.transact (put_both s.target_id condition item (outbox_item event s.target now))

  unfoldable pub write_state_only : TargetState → ℕ → TargetState → Exec W StateError (Unit {0})
  write_state_only s now previous = do
    condition ← lift (condition_of codec (some previous))
    item ← lift (state_item codec s now)
    table.transact (put_state s.target_id condition item)

  -- `except Exception as error: if not _conditional_failure(error): raise`, then the rest.
  unfoldable pub on_race : {A : Type 0} → Exec W StateError A → StateError → Exec W StateError A
  on_race rest e = when condition_failure e run rest otherwise raise e

  -- The write of a state whose signature is the same. No result means that the loop goes on.
  unfoldable pub refresh :
      TargetState → NormalizedTarget → ℕ → ℕ → Exec W StateError (Option ReconcileResult)
  refresh p t at now =
      attempt
        (do
          write_state_only (refreshed codec p t at) now p
          pure (some (result_of noop (some (refreshed codec p t at)))))
        (on_race (pure none))

  module _ (contract : Contract) where
    abbrev pub advanced_state :
        NormalizedTarget → OutboxEvent → Option TargetState → ℕ → TargetState
    advanced_state t event previous at = record {
      target_id = target_id_of t;
      generation = next_generation previous;
      status = active;
      target = t;
      signature = state_signature codec t;
      contract_target_id = some event.contract_target_id;
      observed_at = some at;
    }

    unfoldable pub advance_with :
        OutboxEvent
        → NormalizedTarget
        → Option TargetState
        → ℕ
        → ℕ
        → Exec W StateError (Option ReconcileResult)
    advance_with event t previous at now =
        attempt
          (do
            write_state_and_outbox (advanced_state t event previous at) event now previous
            pure (
                some (
                  with_event (if is_active previous then changed else added)
                    (advanced_state t event previous at) event)))
          (on_race (pure none))

    unfoldable pub advance :
        EventSource
        → NormalizedTarget
        → Option TargetState
        → ℕ
        → ℕ
        → Exec W StateError (Option ReconcileResult)
    advance source t previous at now = do
      event ← lift (
          build_target_event codec contract t (next_generation previous) source now
            (previous_target previous) none)
      advance_with event t previous at now

    unfoldable pub write_judged :
        EventSource → ℕ → Option TargetState → Judged → Exec W StateError (Option ReconcileResult)
    write_judged source now previous (settled r) = pure (some r)
    write_judged source now none (going incoming at) = advance source incoming none at now
    write_judged source now (some p) (going incoming at) = do
      t ← lift (lifecycle_kept codec incoming (some p))
      when is_unchanged codec (some p) t
          run refresh p t at now
          otherwise advance source t (some p) at now

    -- One round of the loop of `reconcile`.
    unfoldable pub reconcile_once :
        Bool → NormalizedTarget → ℕ → EventSource → ℕ → Exec W StateError (Option ReconcileResult)
    reconcile_once is_config t observed_at source now = do
      previous ← get (target_id_of t)
      judged ← lift (judge_previous is_config t observed_at previous)
      write_judged source now previous judged

    abbrev pub or_again :
        Exec W StateError ReconcileResult
        → Option ReconcileResult
        → Exec W StateError ReconcileResult
    or_again again (some r) = pure r
    or_again again none = again

    -- The loop, of that many rounds.
    unfoldable pub reconcile_rounds :
        ℕ → Bool → NormalizedTarget → ℕ → EventSource → ℕ → Exec W StateError ReconcileResult
    reconcile_rounds zero is_config t observed_at source now = do
      s ← get (target_id_of t)
      pure (result_of race s)
    reconcile_rounds (suc n) is_config t observed_at source now = do
      r ← reconcile_once is_config t observed_at source now
      or_again (reconcile_rounds n is_config t observed_at source now) r

    unfoldable pub reconcile :
        NormalizedTarget → EventSource → ℕ → Exec W StateError ReconcileResult
    reconcile t source now =
        let observed_at = or_observed t.observed_at source.observed_at in
        reconcile_rounds config.max_retries (is_some t.eni_observed_at)
          (with_observation observed_at t) observed_at source now
