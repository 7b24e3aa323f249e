-- ===== src/Inventory/Store/Moves.antt =====
-- What the workers do to the state of a target, between them and in any order: the writes of state.py
-- as a step relation, and the laws of DynamoDB that they rely on.
use portscanner.Prelude.{
  ℕ, suc, ◌≤◌, ◌<◌, ◌∙◌, ◌≡◌, refl, ◌⊎◌, inl, inr, Bool, true, false, ◌&&◌, Option, none, some,
  arith, ◌==◌,
}
use portscanner.Prelude.Text.{Text, text_eq}
use portscanner.Prelude.Result.{ok}
use portscanner.Inventory.Store.{
  StateItem, Condition, is_absent, is_version, Transaction, put_both, put_state, put_checked,
  StateTable,
}

-- A write of a state. The first has the generation 1; a later one keeps the generation and the status,
-- or has the next generation. None has an earlier observation than the state before.
pub data Move : Option StateItem → Option StateItem → Type 0 where
  start : (j : StateItem) → j.generation ≡ 1 → Move none (some j)
  keep :
      (i j : StateItem)
      → j.generation ≡ i.generation
      → j.status ≡ i.status
      → i.observed_at ≤ j.observed_at
      → Move (some i) (some j)
  step :
      (i j : StateItem)
      → j.generation ≡ suc i.generation
      → i.observed_at ≤ j.observed_at
      → Move (some i) (some j)

pub data Moves (a : Option StateItem) : Option StateItem → Type 0 where
  here : Moves a a
  next : {b c : Option StateItem} → Moves a b → Move b c → Moves a c

pub Moves-trans : {a b c : Option StateItem} → Moves a b → Moves b c → Moves a c
Moves-trans h here = h
Moves-trans h (next m s) = next (Moves-trans h m) s

-- A later state is no older, and of the same generation and status or of a later generation.
abbrev pub IsLater : StateItem → StateItem → Type 0
IsLater i j =
    (i.observed_at ≤ j.observed_at)
    × (((j.generation ≡ i.generation) × (j.status ≡ i.status)) ⊎ (i.generation < j.generation))

IsLater-refl : (i : StateItem) → IsLater i i
IsLater-refl i = (omega arith, inl (refl, refl))

abbrev pub Fenced : StateItem → Option StateItem → Type 0
Fenced i none = ⊥
Fenced i (some j) = IsLater i j

Move-Fenced : (i : StateItem) {b c : Option StateItem} → Fenced i b → Move b c → Fenced i c
Move-Fenced i h (start j e) = absurd h
Move-Fenced i h (keep k j g s o) = (omega (arith, h.0), later h.1)
  where
    later :
        ((k.generation ≡ i.generation) × (k.status ≡ i.status)) ⊎ (i.generation < k.generation)
        → ((j.generation ≡ i.generation) × (j.status ≡ i.status)) ⊎ (i.generation < j.generation)
    later (inl (e, f)) = inl (g ∙ e, s ∙ f)
    later (inr l) = inr (omega arith)
Move-Fenced i h (step k j g o) = (omega (arith, h.0), inr (later h.1))
  where
    later :
        ((k.generation ≡ i.generation) × (k.status ≡ i.status)) ⊎ (i.generation < k.generation)
        → i.generation < j.generation
    later (inl (e, f)) = omega arith
    later (inr l) = omega arith

pub Moves-Fenced : (i : StateItem) {b : Option StateItem} → Moves (some i) b → Fenced i b
Moves-Fenced i here = IsLater-refl i
Moves-Fenced i (next m s) = Move-Fenced i (Moves-Fenced i m) s

-- When the condition of a write holds of the state.
unfoldable pub holds_of : Condition → Option StateItem → Bool
holds_of is_absent none = true
holds_of is_absent (some i) = false
holds_of (is_version generation status at version) none = false
holds_of (is_version generation status at version) (some i) =
    i.generation == generation
    && (text_eq i.status status && (i.observed_at == at && text_eq i.observation_version version))

-- The state that a transaction writes to a key, under its condition.
abbrev pub written_key : Transaction → Option (Text × Condition × StateItem)
written_key (put_both key c i o) = some (key, c, i)
written_key (put_state key c i) = some (key, c, i)
written_key (put_checked key g o) = none

-- What a transaction may do to the state of a key: nothing, beside what other workers do, or
-- its own write, when its condition held.
pub data Effect (key : Text) (before : Option StateItem)
    : Transaction → Option StateItem → Type 0 where
  nothing :
      (t : Transaction) {after : Option StateItem} → Moves before after → Effect key before t after
  wrote :
      (t : Transaction) (c : Condition) (i : StateItem) {found : Option StateItem}
      → written_key t ≡ some (key, c, i)
      → Moves before found
      → holds_of c found ≡ true
      → Effect key before t (some i)

-- Other workers may move any state during a call. A transaction is applied whole and at most once, when
-- its conditions hold, whether it is then reported as done or not.
pub record IsStateTable {W : Type 0} (table : StateTable W) : Type 0 where
  pub get_moves :
      (key k : Text) (w : W) → Moves (table.state w k) (table.state (table.get_item key w).1 k)
  pub transact_moves :
      (t : Transaction) (k : Text) (w : W)
      → Effect k (table.state w k) t (table.state (table.transact t w).1 k)
  pub signal_moves :
      (key : Text) (expires now : ℕ) (k : Text) (w : W)
      → Moves (table.state w k) (table.state (table.put_signal key expires now w).1 k)
  pub delete_moves :
      (key k : Text) (w : W) → Moves (table.state w k) (table.state (table.delete_signal key w).1 k)
  pub transact_done :
      (t : Transaction) (key : Text) (c : Condition) (i : StateItem) (w : W)
      → written_key t ≡ some (key, c, i)
      → (table.transact t w).0 ≡ ok tt
      → table.state (table.transact t w).1 key ≡ some i
