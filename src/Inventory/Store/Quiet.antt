-- ===== src/Inventory/Store/Quiet.antt =====
-- The coverage events leave the states alone (state.py, `enqueue_coverage`).
use portscanner.Prelude.{ℕ, true, false, Bool, Option, none, some}
use portscanner.Prelude.Text.{Text}
use portscanner.Prelude.Exec.{
  Exec, Preserves, Preserves-pure, Preserves-lift, Preserves-raise, Preserves-when,
  Preserves-attempt, Preserves-bind, preserves_rules, raise,
}
use portscanner.Inventory.Error.{StateError, condition_failure}
use portscanner.Inventory.Target.{Codec}
use portscanner.Inventory.Event.{EventSource, OutboxEvent, Contract}
use portscanner.Inventory.Store.{
  TargetState, ReconcileResult, StateItem, OutboxItem, put_checked, StateTable, StateConfig,
}
use portscanner.Inventory.Store.Reconcile.{get, on_race}
use portscanner.Inventory.Store.Operations.{
  or_race, enqueue_with, enqueue_current, enqueue_coverage,
}

-- What other workers do to the state of a target between two calls, a relation that composes. A read and
-- the write of an event under a check do nothing else to it; nothing is said of a write of a state.
pub record LeavesStates {W : Type 0} (table : StateTable W)
    (R : Option StateItem → Option StateItem → Type 0) : Type 0 where
  pub composes : {a b c : Option StateItem} → R a b → R b c → R a c
  pub get_leaves :
      (key k : Text) (w : W) → R (table.state w k) (table.state (table.get_item key w).1 k)
  pub checked_leaves :
      (key : Text) (generation : ℕ) (o : OutboxItem) (k : Text) (w : W)
      → R (table.state w k) (table.state (table.transact (put_checked key generation o) w).1 k)

module _ {W : Type 0} {table : StateTable W} {R : Option StateItem → Option StateItem → Type 0}
    (leaves : LeavesStates table R) (k : Text) (before : Option StateItem) (codec : Codec)
    (config : StateConfig) (contract : Contract) where
  abbrev Left : W → Type 0
  Left w = R before (table.state w k)

  get_item-Left : (key : Text) → Preserves Left (table.get_item key)
  get_item-Left key = record { at = λ w h. leaves.composes h (leaves.get_leaves key k w) }

  checked-Left :
      (key : Text) (generation : ℕ) (o : OutboxItem)
      → Preserves Left (table.transact (put_checked key generation o))
  checked-Left key generation o = record {
    at = λ w h. leaves.composes h (leaves.checked_leaves key generation o k w);
  }

  get-Left : (key : Text) → Preserves Left (get table codec config key)
  unfolding get
  get-Left key = search (preserves_rules, get_item-Left)

  on_race-Left :
      {A : Type 0} (rest : Exec W StateError A) (e : StateError)
      → Preserves Left rest
      → Preserves Left (on_race table codec config rest e)
  unfolding on_race
  on_race-Left rest e h = Preserves-when (condition_failure e) rest (raise e) h (Preserves-raise e)

  or_race-Left :
      (b : Bool) (found : Option TargetState) (f : TargetState → Exec W StateError ReconcileResult)
      → ((s : TargetState) → Preserves Left (f s))
      → Preserves Left (or_race table codec config contract b found f)
  or_race-Left true (some s) f h = h s
  or_race-Left true none f h = Preserves-pure _
  or_race-Left false found f h = Preserves-pure _

  enqueue_with-Left :
      (event : OutboxEvent) (expected current : TargetState) (now : ℕ)
      → Preserves Left (enqueue_with table codec config contract event expected current now)
  unfolding enqueue_with
  enqueue_with-Left event expected current now =
      Preserves-attempt _ _
        (Preserves-bind _ _ (checked-Left current.target_id current.generation _)
          (λ u. Preserves-pure _))
        (λ e.
          on_race-Left _ e
            (Preserves-bind _ _ (get-Left expected.target_id) (λ latest. Preserves-pure _)))

  -- `enqueue_coverage` writes no state, also when it raises: with a table on which a read and the write
  -- of an event under a check leave every state to the other workers, whatever they do, the state of
  -- every target is what the other workers made of it, and it is what it was if they did nothing.
  pub enqueue_coverage-LeavesStates :
      (expected : TargetState) (source : EventSource) (now : ℕ)
      → Preserves Left (enqueue_coverage table codec config contract expected source now)
  unfolding enqueue_coverage enqueue_current
  enqueue_coverage-LeavesStates expected source now =
      Preserves-bind _ _ (get-Left expected.target_id) (λ current. or_race-Left _ current _ (λ s.
        Preserves-bind _ _ (Preserves-lift _) (λ event. enqueue_with-Left event expected s now)))
