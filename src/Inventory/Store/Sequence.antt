-- ===== src/Inventory/Store/Sequence.antt =====
-- The operations of the store one after the other (state.py).
use portscanner.Prelude.{ℕ, ◌≡◌, refl, Option, none, some, List, [], ◌∷◌}
use portscanner.Prelude.Text.{Text}
use portscanner.Prelude.Exec.{Exec, Preserves}
use portscanner.Inventory.Error.{StateError}
use portscanner.Inventory.Target.{NormalizedTarget, Codec}
use portscanner.Inventory.Event.{EventSource, Contract}
use portscanner.Inventory.Store.{TargetState, ReconcileResult, StateItem, StateTable, StateConfig}
use portscanner.Inventory.Store.Moves.{here, IsLater, Fenced, Moves-Fenced, IsStateTable}
use portscanner.Inventory.Store.Fence.{Moved}
use portscanner.Inventory.Store.Reconcile.{reconcile}
use portscanner.Inventory.Store.Operations.{remove, enqueue_coverage, confirm_config_versions}
use portscanner.Inventory.Store.Rounds.{reconcile-Preserves}
use portscanner.Inventory.Store.Removal.{
  remove-Preserves, enqueue_coverage-Preserves, confirm_config_versions-Preserves,
}

-- A call of the store.
pub data Operation : Type 0 where
  reconciling : NormalizedTarget → EventSource → ℕ → Operation
  removing_target : TargetState → EventSource → ℕ → Operation
  enqueueing : TargetState → EventSource → ℕ → Operation
  confirming : TargetState → NormalizedTarget → ℕ → Operation

module _ {W : Type 0} (table : StateTable W) (codec : Codec) (config : StateConfig)
    (contract : Contract) where
  abbrev pub perform : Operation → Exec W StateError ReconcileResult
  perform (reconciling t source now) = reconcile table codec config contract t source now
  perform (removing_target s source now) = remove table codec config contract s source now
  perform (enqueueing s source now) = enqueue_coverage table codec config contract s source now
  perform (confirming s t now) = confirm_config_versions table codec config s t now

  -- The calls in order; one that raises does not keep the next from being made.
  abbrev pub perform_all : List Operation → W → W
  perform_all [] w = w
  perform_all (o ∷ os) w = perform_all os (perform o w).1

module _ {W : Type 0} {table : StateTable W} (t : IsStateTable table) (codec : Codec)
    (config : StateConfig) (contract : Contract) (k : Text) where
  perform-Moved :
      (o : Operation) (before : Option StateItem)
      → Preserves (Moved t k before) (perform table codec config contract o)
  perform-Moved (reconciling x source now) before =
      reconcile-Preserves t k before codec config contract x source now
  perform-Moved (removing_target s source now) before =
      remove-Preserves t k before codec config contract s source now
  perform-Moved (enqueueing s source now) before =
      enqueue_coverage-Preserves t k before codec config contract s source now
  perform-Moved (confirming s x now) before =
      confirm_config_versions-Preserves t k before codec config s x now

  perform_all-Moved :
      (os : List Operation) (w : W) (before : Option StateItem)
      → Moved t k before w
      → Moved t k before (perform_all table codec config contract os w)
  perform_all-Moved [] w before h = h
  perform_all-Moved (o ∷ os) w before h =
      perform_all-Moved os _ before ((perform-Moved o before).at w h)

  Fenced-some :
      (i : StateItem) (b : Option StateItem)
      → Fenced i b
      → (j : StateItem) × (b ≡ some j) × IsLater i j
  Fenced-some i none h = absurd h
  Fenced-some i (some j) h = (j, refl, h)

  -- The fence: through any sequence of reconciliations, removals, coverage events and confirmations, with
  -- whatever the other workers do between their calls, the state of a target does not go away, its
  -- generation and its time of observation do not decrease, and its status changes only with its
  -- generation.
  pub perform_all-fenced :
      (os : List Operation) (w : W) (i : StateItem)
      → table.state w k ≡ some i
      → (j : StateItem) × (table.state (perform_all table codec config contract os w) k ≡ some j)
        × IsLater i j
  perform_all-fenced os w i h =
      Fenced-some i _ (Moves-Fenced i (perform_all-Moved os w (some i) (rw h here)))
