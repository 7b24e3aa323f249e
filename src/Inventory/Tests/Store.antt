-- ===== src/Inventory/Tests/Store.antt =====
-- The store's operations on a table in memory.
use portscanner.Prelude.{◌≡◌, refl, ◌∙◌, none, some, [], ◌∷◌}
use portscanner.Prelude.Exec.{Preserves}
use portscanner.Inventory.Target.{target_id_of}
use portscanner.Inventory.Store.{StateItem}
use portscanner.Inventory.Store.Moves.{IsLater}
use portscanner.Inventory.Store.Operations.{enqueue_coverage}
use portscanner.Inventory.Store.Quiet.{LeavesStates, enqueue_coverage-LeavesStates}
use portscanner.Inventory.Store.Sequence.{
  reconciling, removing_target, perform_all, perform_all-fenced,
}
use portscanner.Inventory.Tests.{codec, config, contract, source, first_item, first_state, eni}
use portscanner.Inventory.Tests.Rows.{set, rows, rows-IsStateTable, write_row}

-- There are no other workers.
rows-LeavesStates : LeavesStates rows (λ a b. a ≡ b)
unfolding write_row
rows-LeavesStates = record {
  composes = λ p q. p ∙ q;
  get_leaves = λ key k w. refl;
  checked_leaves = λ key generation o k w. refl;
}

enqueue_coverage-LeavesStates_example :
    Preserves
      (λ w. some first_item ≡ rows.state w (target_id_of (eni 1)))
      (enqueue_coverage rows codec config contract first_state source 5)
enqueue_coverage-LeavesStates_example =
    enqueue_coverage-LeavesStates rows-LeavesStates (target_id_of (eni 1)) (some first_item) codec
      config contract first_state source 5

perform_all-fenced_example :
    (j : StateItem) × (rows.state
        (perform_all rows codec config contract
          (reconciling (eni 2) source 5 ∷ removing_target first_state source 6 ∷ [])
          (set (target_id_of (eni 1)) first_item (λ k. none)))
        (target_id_of (eni 1))
      ≡ some j)
    × IsLater first_item j
perform_all-fenced_example =
    perform_all-fenced rows-IsStateTable codec config contract (target_id_of (eni 1))
      (reconciling (eni 2) source 5 ∷ removing_target first_state source 6 ∷ [])
      (set (target_id_of (eni 1)) first_item (λ k. none)) first_item is_there
  where
    is_there :
        rows.state (set (target_id_of (eni 1)) first_item (λ k. none)) (target_id_of (eni 1))
        ≡ some first_item
    is_there = refl
