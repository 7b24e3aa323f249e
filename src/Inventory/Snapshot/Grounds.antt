-- ===== src/Inventory/Snapshot/Grounds.antt =====
-- What a removal rests on (handlers/snapshot.py, `reconcile_snapshot`).
use mathlib.Core.List.{Mem}
use portscanner.Prelude.{◌≡◌, ◌⊎◌, true, false, none, some, List, [], ◌∷◌, map, any}
use portscanner.Prelude.Text.{text_eq}
use portscanner.Inventory.Target.{target_id_of}
use portscanner.Inventory.Store.{TargetState, ReconcileResult}
use portscanner.Inventory.Snapshot.{
  SnapshotBatch, is_complete, SnapshotOptions, Call, collected, reconciled, removing, listed,
  checked,
}
use portscanner.Inventory.Snapshot.Reconciliation.{gone, to_revalidate, is_allowed, selected}

module _ (options : SnapshotOptions) where
  -- The reconciliation of an observed target has asked for the state to be checked.
  abbrev pub IsDoubted : TargetState → List Call → Type 0
  IsDoubted s calls = (r : ReconcileResult) × Mem (reconciled r) calls × (to_revalidate r ≡ some s)

  -- The state is among the current ones, and no selected target of the complete snapshot of the whole
  -- scope is its target.
  abbrev pub IsAbsent : TargetState → List Call → Type 0
  IsAbsent s calls =
      (b : SnapshotBatch) × (states : List TargetState) × Mem (collected b) calls
      × (is_complete b ≡ true)
      × (options.target_public_ipv4 ≡ none)
      × Mem (listed b.scope states) calls
      × Mem s states
      × (is_allowed options.target_allowed s.target.public_ip ≡ true)
      × (any (text_eq s.target_id) (map target_id_of (selected options b.targets)) ≡ false)

  -- The last call was the ownership check of the state's target in its generation, and said that it is
  -- inactive or has moved; before, the state was doubted or absent.
  abbrev pub MayRemove : TargetState → List Call → Type 0
  MayRemove s (checked target_id generation check ∷ calls) =
      (target_id ≡ s.target_id)
      × (generation ≡ s.generation)
      × (gone check.verdict ≡ true)
      × (IsDoubted s calls ⊎ IsAbsent s calls)
  MayRemove s _ = ⊥

  abbrev pub Grounded : List Call → Type 0
  Grounded [] = Unit
  Grounded (removing s ∷ calls) = Grounded calls × MayRemove s calls
  Grounded (collected b ∷ calls) = Grounded calls
  Grounded (reconciled r ∷ calls) = Grounded calls
  Grounded (listed scope states ∷ calls) = Grounded calls
  Grounded (checked target_id generation check ∷ calls) = Grounded calls
