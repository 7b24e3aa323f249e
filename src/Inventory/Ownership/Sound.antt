-- ===== src/Inventory/Ownership/Sound.antt =====
-- The verdicts of the ownership check are justified (aws/ownership.py, `validate`).
use mathlib.Core.List.{Mem}
use portscanner.Prelude.{ℕ, ◌≡◌, true, some, List}
use portscanner.Prelude.Text.{Text}
use portscanner.Prelude.Value.{Value}
use portscanner.Prelude.Result.{Result, ok}
use portscanner.Prelude.Calls.{Logged}
use portscanner.Inventory.Target.{NormalizedTarget, target_id_of}
use portscanner.Inventory.Store.{TargetState}
use portscanner.Inventory.Snapshot.{OwnershipCheck}
use portscanner.Inventory.Ownership.{
  Normalizer, Clients, Call, read, interfaces, current_state_matches, lifecycle_is_active,
  is_same_policy,
}
use portscanner.Inventory.Ownership.Validation.{Left, raised, returned}
use portscanner.Inventory.Ownership.Justified.{IsSole, IsInPlace, IsJustified}

module _ {W : Type 0} (clients : Clients W) (normalizer : Normalizer) (target_id : Text)
    (generation : ℕ) where
  abbrev Justified : OwnershipCheck → List Call → Type 0
  Justified c calls = IsJustified normalizer target_id generation c calls

  -- What is left early is justified.
  abbrev Early : Left → Logged W Call → Type 0
  Early (raised e) s = Unit
  Early (returned c) s = Justified c s.calls

  -- From here on, the state that was read first, and was current.
  module _ (initial : TargetState)
      (current : current_state_matches (some initial) generation ≡ true) where
    abbrev Read : List Call → Type 0
    Read calls = Mem (read (ok (some initial))) calls

    abbrev Asked : Value → Logged W Call → Type 0
    Asked response s = Read s.calls × Mem (interfaces (ok response)) s.calls

    -- What is known of a live target that passed.
    abbrev Live : NormalizedTarget → Logged W Call → Type 0
    Live live s =
        (response : Value) × (eni : Value) × Read s.calls
        × Mem (interfaces (ok response)) s.calls
        × (IsSole response eni × IsInPlace normalizer initial.target eni)
        × (target_id_of live ≡ target_id)
        × (lifecycle_is_active normalizer live.lifecycle ≡ true)
        × (is_same_policy normalizer initial.target live ≡ true)
