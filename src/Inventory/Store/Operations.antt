-- ===== src/Inventory/Store/Operations.antt =====
-- The other operations of `DynamoStateStore` that write (state.py): `remove`, `enqueue_coverage`,
-- `confirm_config_versions` and the claims of signals.
use portscanner.Prelude.{
  ℕ, suc, ◌+◌, ◌/◌, Bool, true, false, ◌&&◌, ◌||◌, not, Option, none, some, List, [], ◌∷◌, leb,
  ◌==◌, if◌then◌else◌, max,
}
use portscanner.Prelude.Text.{Text, codes, text_eq}
use portscanner.Prelude.Exec.{Exec, pure, lift, attempt, ◌>>=◌, ◌>>◌, when◌run◌otherwise◌}
use portscanner.Prelude.Result.{Result, ok, err}
use portscanner.Inventory.Error.{StateError, key_error}
use portscanner.Inventory.Target.{
  NormalizedTarget, Codec, state_signature, target_id_of, version_of, config_observation_order,
  then_ok,
}
use portscanner.Inventory.Event.{
  EventSource, coverage, OutboxEvent, Contract, build_target_event, build_removal_event,
}
use portscanner.Inventory.Store.{
  changed, noop, removed, race, TargetState, ReconcileResult, put_checked, StateTable, StateConfig,
  active, result_of, with_event,
}
use portscanner.Inventory.Store.Reconcile.{
  get, write_state_and_outbox, write_state_only, on_race, outbox_item,
}

module _ {W : Type 0} (table : StateTable W) (codec : Codec) (config : StateConfig) where
  module _ (contract : Contract) where
    -- `remove`, of the current state that it found active in the expected generation.
    abbrev pub removed_state : TargetState → ℕ → TargetState
    removed_state current at = record current {
      generation = suc current.generation;
      status = codes "removed";
      observed_at = some at;
    }

    unfoldable pub remove_with :
        OutboxEvent → TargetState → EventSource → ℕ → Exec W StateError ReconcileResult
    remove_with event current source now =
        attempt
          (do
            write_state_and_outbox table codec config (removed_state current source.observed_at)
                event now (some current)
            pure (with_event removed (removed_state current source.observed_at) event))
          (on_race table codec config
            (do latest ← get table codec config current.target_id; pure (result_of race latest)))

    abbrev pub not_after_observed : ℕ → Option ℕ → Bool
    not_after_observed at none = false
    not_after_observed at (some before) = leb at before

    unfoldable pub remove_current :
        TargetState → EventSource → ℕ → Exec W StateError ReconcileResult
    remove_current current source now =
        when not_after_observed source.observed_at current.observed_at
        run pure (result_of noop (some current))
        otherwise (do
          event ← lift (
              build_removal_event codec contract current.target (suc current.generation) source now)
          remove_with event current source now)

    -- Active, in the expected generation.
    abbrev pub is_current : TargetState → Option TargetState → Bool
    is_current expected none = false
    is_current expected (some s) = text_eq s.status active && s.generation == expected.generation

    abbrev pub or_race :
        Bool
        → Option TargetState
        → (TargetState → Exec W StateError ReconcileResult)
        → Exec W StateError ReconcileResult
    or_race true (some s) f = f s
    or_race _ found f = pure (result_of race found)

    unfoldable pub remove : TargetState → EventSource → ℕ → Exec W StateError ReconcileResult
    remove expected source now = do
      current ← get table codec config expected.target_id
      or_race (is_current expected current) current (λ s. remove_current s source now)

    unfoldable pub enqueue_with :
        OutboxEvent → TargetState → TargetState → ℕ → Exec W StateError ReconcileResult
    enqueue_with event expected current now =
        attempt
          (do
            table.transact (
                put_checked current.target_id current.generation
                  (outbox_item table codec config event current.target now))
            pure (with_event changed current event))
          (on_race table codec config (do
            latest ← get table codec config expected.target_id
            pure (result_of (if is_current expected latest then noop else race) latest)))

    unfoldable pub enqueue_current :
        TargetState → EventSource → ℕ → TargetState → Exec W StateError ReconcileResult
    enqueue_current expected source now current = do
      event ← lift (
          build_target_event codec contract current.target current.generation source now none
            (some coverage))
      enqueue_with event expected current now

    unfoldable pub enqueue_coverage :
        TargetState → EventSource → ℕ → Exec W StateError ReconcileResult
    enqueue_coverage expected source now = do
      current ← get table codec config expected.target_id
      or_race (is_current expected current) current (enqueue_current expected source now)

  -- The newer one of the two versions of a group. A group that the observation has no version of is a
  -- missing key.
  abbrev pub newer_version : Option ℕ → Option ℕ → Result StateError ℕ
  newer_version previous none = err key_error
  newer_version none (some at) = ok at
  newer_version (some before) (some at) = ok (max before at)

  unfoldable pub newer_versions :
      List (Text × ℕ) → List (Text × ℕ) → List Text → Result StateError (List (Text × ℕ))
  newer_versions previous observed [] = ok []
  newer_versions previous observed (g ∷ gs) =
      let later = newer_versions previous observed gs in
      then_ok (newer_version (version_of g previous) (version_of g observed))
        (λ at. then_ok later (λ rest. ok ((g, at) ∷ rest)))

  abbrev pub newest : Option ℕ → ℕ → ℕ
  newest none at = at
  newest (some before) at = max before at

  unfoldable pub confirmed : TargetState → NormalizedTarget → ℕ → Result StateError TargetState
  confirmed expected observation at =
      then_ok (config_observation_order observation expected.target) (λ order.
        then_ok
          (newer_versions expected.target.security_group_observed_at
            observation.security_group_observed_at expected.target.security_group_ids)
          (λ versions. ok (record expected {
            target = record expected.target {
              eni_observed_at = some (newest expected.target.eni_observed_at at);
              security_group_observed_at = versions;
            };
          })))

  unfoldable pub confirm_with : TargetState → ℕ → TargetState → Exec W StateError ReconcileResult
  confirm_with expected now s =
      attempt
        (do write_state_only table codec config s now expected; pure (result_of noop (some s)))
        (on_race table codec config
          (do latest ← get table codec config expected.target_id; pure (result_of race latest)))

  unfoldable pub confirm_at :
      TargetState → NormalizedTarget → ℕ → Option ℕ → Exec W StateError ReconcileResult
  confirm_at expected observation now none = pure (result_of noop (some expected))
  confirm_at expected observation now (some at) = do
    s ← lift (confirmed expected observation at)
    confirm_with expected now s

  unfoldable pub confirm_config_versions :
      TargetState → NormalizedTarget → ℕ → Exec W StateError ReconcileResult
  confirm_config_versions expected observation now =
      when not (text_eq (target_id_of observation) expected.target_id)
        || not (text_eq (state_signature codec observation) expected.signature)
      run pure (result_of noop (some expected))
      otherwise confirm_at expected observation now observation.eni_observed_at

  -- The claims of signals. `digest` is the hash of the signal's id.
  abbrev pub seconds : ℕ → ℕ
  seconds t = t / 1000000

  unfoldable pub claim_signal : (Text → Text) → Text → ℕ → ℕ → Exec W StateError Bool
  claim_signal digest signal_id now ttl_seconds =
      attempt
        (do
          table.put_signal (digest signal_id) (seconds now + ttl_seconds) (seconds now)
          pure true)
        (on_race table codec config (pure false))

  unfoldable pub release_signal : (Text → Text) → Text → Exec W StateError (Unit {0})
  release_signal digest signal_id = table.delete_signal (digest signal_id)
