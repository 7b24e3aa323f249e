-- ===== src/Inventory/Store/Fence.antt =====
-- The writes of the store move the state of every target only as the step relation allows, also when
-- they raise (state.py).
use portscanner.Prelude.{
  ℕ, suc, ◌≤◌, ◌≡◌, refl, sym, ap, ◌∙◌, ◌⊎◌, inl, inr, true, Option, none, some, arith, &&-true,
  ◌==◌, ==_iff,
}
use portscanner.Prelude.Text.{Text, text_eq, text_eq_iff}
use portscanner.Prelude.Exec.{
  Exec, Preserves, Preserves-lift_bind, preserves_rules, Preserves-raise, Preserves-when, raise,
}
use portscanner.Prelude.Result.{Result, ok, err, ok_inj}
use portscanner.Inventory.Error.{StateError, condition_failure}
use portscanner.Inventory.Target.{Codec, then_ok}
use portscanner.Inventory.Event.{OutboxEvent}
use portscanner.Inventory.Store.{
  TargetState, StateItem, Condition, is_absent, is_version, Transaction, StateTable, StateConfig,
  state_item, condition_of, first_time,
}
use portscanner.Inventory.Store.Moves.{
  Move, start, keep, step, Moves, next, Moves-trans, holds_of, written_key, Effect, nothing, wrote,
  IsStateTable,
}
use portscanner.Inventory.Store.Reconcile.{get, write_state_and_outbox, write_state_only, on_race}

-- A state to write that follows the previous one: its generation and its time of observation.
pub record Follows (p s : TargetState) : Type 0 where
  pub generations :
      ((s.generation ≡ p.generation) × (s.status ≡ p.status)) ⊎ (s.generation ≡ suc p.generation)
  pub times :
      (before : ℕ)
      → p.observed_at ≡ some before
      → (at : ℕ) × (s.observed_at ≡ some at) × (before ≤ at)

abbrev pub FollowsAny : Option TargetState → TargetState → Type 0
FollowsAny none s = s.generation ≡ 1
FollowsAny (some p) s = Follows p s

pub then_ok-ok :
    {A B : Type 0} (m : Result StateError A) (f : A → Result StateError B) {b : B}
    → then_ok m f ≡ ok b
    → (a : A) × (m ≡ ok a) × (f a ≡ ok b)
then_ok-ok (ok a) f h = (a, refl, h)
then_ok-ok (err e) f h = absurd (cc)

first_time-some :
    (o other : Option ℕ) {at found : ℕ} → o ≡ some at → first_time o other ≡ ok found → found ≡ at
first_time-some (some at) other e h = cc
first_time-some none other e h = absurd (cc)

first_time-only : (o : Option ℕ) {at : ℕ} → first_time o none ≡ ok at → o ≡ some at
first_time-only (some at) h = cc
first_time-only none h = absurd (cc)

-- What an item says of the state that it was made of.
pub state_item-fields :
    (codec : Codec) (s : TargetState) (now : ℕ) (i : StateItem)
    → state_item codec s now ≡ ok i
    → (i.generation ≡ s.generation)
      × (i.status ≡ s.status)
      × ((at : ℕ) → s.observed_at ≡ some at → i.observed_at ≡ at)
unfolding state_item
state_item-fields codec s now i h =
    let (at, e, made) = then_ok-ok (first_time s.observed_at s.target.observed_at) _ h in
    let same = sym (ok_inj made) in
    (
      ap (λ j. j.generation) same,
      ap (λ j. j.status) same,
      λ t o. ap (λ j. j.observed_at) same ∙ first_time-some s.observed_at s.target.observed_at o e,
    )

-- The state that the condition of a later write held of.
version_holds :
    (g at : ℕ) (status version : Text) (found : Option StateItem)
    → holds_of (is_version g status at version) found ≡ true
    → (j : StateItem) × (found ≡ some j)
      × (j.generation ≡ g)
      × (j.status ≡ status)
      × (j.observed_at ≡ at)
unfolding holds_of
version_holds g at status version none h = absurd (cc)
version_holds g at status version (some j) h =
    let (generation, rest) = &&-true (j.generation == g) _ h in
    let (named, rest₁) = &&-true (text_eq j.status status) _ rest in
    let (time, rest₂) = &&-true (j.observed_at == at) _ rest₁ in
    (
      j,
      refl,
      (==_iff j.generation g).0 generation,
      (text_eq_iff j.status status).0 named,
      (==_iff j.observed_at at).0 time,
    )

absent_holds : (found : Option StateItem) → holds_of is_absent found ≡ true → found ≡ none
unfolding holds_of
absent_holds none h = refl
absent_holds (some j) h = absurd (cc)

next_move :
    (i j : StateItem)
    → ((j.generation ≡ i.generation) × (j.status ≡ i.status)) ⊎ (j.generation ≡ suc i.generation)
    → i.observed_at ≤ j.observed_at
    → Move (some i) (some j)
next_move i j (inl (g, s)) o = keep i j g s o
next_move i j (inr g) o = step i j g o

-- A write whose condition is that the state is still the previous one.
Follows-Move :
    (codec : Codec) (previous : Option TargetState) (s : TargetState) (now : ℕ) (c : Condition)
    (i : StateItem) (found : Option StateItem)
    → condition_of codec previous ≡ ok c
    → state_item codec s now ≡ ok i
    → FollowsAny previous s
    → holds_of c found ≡ true
    → Move found (some i)
unfolding condition_of
Follows-Move codec none s now c i found hc hi f h =
    let (generation, status, times) = state_item-fields codec s now i hi in
    rw (absent_holds found (rw (← ok_inj hc) at h)) (start i (generation ∙ f))
Follows-Move codec (some p) s now c i found hc hi f h =
    let (generation, status, times) = state_item-fields codec s now i hi in
    let (at, o, made) = then_ok-ok (first_time p.observed_at none) _ hc in
    let (j, is, g, named, time) =
      version_holds p.generation at p.status _ found (rw (← ok_inj made) at h) in
    let (later, o₁, le) = f.times at (first_time-only p.observed_at o) in
    rw is (
      next_move j i (follows j generation status g named f.generations)
        (omega (arith, le, time, times later o₁)))
  where
    follows :
        (j : StateItem)
        → i.generation ≡ s.generation
        → i.status ≡ s.status
        → j.generation ≡ p.generation
        → j.status ≡ p.status
        → ((s.generation ≡ p.generation) × (s.status ≡ p.status))
          ⊎ (s.generation ≡ suc p.generation)
        → ((i.generation ≡ j.generation) × (i.status ≡ j.status))
          ⊎ (i.generation ≡ suc j.generation)
    follows j a b c d (inl (e, k)) = inl (a ∙ e ∙ sym c, b ∙ k ∙ sym d)
    follows j a b c d (inr e) = inr (a ∙ e ∙ ap suc (sym c))

module _ {W : Type 0} {table : StateTable W} (t : IsStateTable table) (k : Text)
    (before : Option StateItem) where
  -- The state of the target has only moved since.
  abbrev pub Moved : W → Type 0
  Moved w = Moves before (table.state w k)

  get_item-Preserves : (key : Text) → Preserves Moved (table.get_item key)
  get_item-Preserves key = record { at = λ w h. Moves-trans h (t.get_moves key k w) }

  Effect-Moves :
      (x : Transaction) {b c : Option StateItem}
      → ((key : Text) (q : Condition) (i : StateItem) (found : Option StateItem)
          → written_key x ≡ some (key, q, i)
          → holds_of q found ≡ true
          → Move found (some i))
      → Effect k b x c
      → Moves b c
  Effect-Moves x h (nothing _ m) = m
  Effect-Moves x h (wrote _ q i e m p) = next m (h k q i _ e p)

  pub transact-Preserves :
      (x : Transaction)
      → ((key : Text) (q : Condition) (i : StateItem) (found : Option StateItem)
          → written_key x ≡ some (key, q, i)
          → holds_of q found ≡ true
          → Move found (some i))
      → Preserves Moved (table.transact x)
  transact-Preserves x h = record {
    at = λ w m. Moves-trans m (Effect-Moves x h (t.transact_moves x k w));
  }

  module _ (codec : Codec) (config : StateConfig) where
    pub get-Preserves : (key : Text) → Preserves Moved (get table codec config key)
    unfolding get
    get-Preserves key = search (preserves_rules, get_item-Preserves)

    write-Preserves :
        (x : Transaction) (key : Text) (c : Condition) (i : StateItem) (s : TargetState) (now : ℕ)
        (previous : Option TargetState)
        → written_key x ≡ some (key, c, i)
        → FollowsAny previous s
        → condition_of codec previous ≡ ok c
        → state_item codec s now ≡ ok i
        → Preserves Moved (table.transact x)
    write-Preserves x key c i s now previous e f hc hi = transact-Preserves x (λ key' q j found w h.
        let same : ◌≡◌ {A = Text × Condition × StateItem} (key, c, i) (key', q, j) = cc in
        rw (← ap (λ y. y.2) same)
          (Follows-Move codec previous s now c i found hc hi f (rw (ap (λ y. y.1) same) h)))

    pub write_both-Preserves :
        (s : TargetState) (event : OutboxEvent) (now : ℕ) (previous : Option TargetState)
        → FollowsAny previous s
        → Preserves Moved (write_state_and_outbox table codec config s event now previous)
    unfolding write_state_and_outbox
    write_both-Preserves s event now previous f =
        Preserves-lift_bind (condition_of codec previous) _ (λ c hc.
          Preserves-lift_bind (state_item codec s now) _
            (λ i hi. write-Preserves _ s.target_id c i s now previous refl f hc hi))

    pub write_only-Preserves :
        (s : TargetState) (now : ℕ) (previous : TargetState)
        → Follows previous s
        → Preserves Moved (write_state_only table codec config s now previous)
    unfolding write_state_only
    write_only-Preserves s now previous f =
        Preserves-lift_bind (condition_of codec (some previous)) _ (λ c hc.
          Preserves-lift_bind (state_item codec s now) _
            (λ i hi. write-Preserves _ s.target_id c i s now (some previous) refl f hc hi))

    pub on_race-Preserves :
        {A : Type 0} (rest : Exec W StateError A) (e : StateError)
        → Preserves Moved rest
        → Preserves Moved (on_race table codec config rest e)
    unfolding on_race
    on_race-Preserves rest e h =
        Preserves-when (condition_failure e) rest (raise e) h (Preserves-raise e)
