-- ===== src/Generator/Claims/Given.antt =====
-- What an owner has done that is told of it (idempotency.py): `complete` and `mark_retryable`.
use portscanner.Prelude.{
  ℕ, ◌≡◌, refl, ◌≢◌, Bool, true, false, &&-true, inl, inr, Bool-cases, Option, some,
}
use portscanner.Prelude.Text.{Text, codes}
use portscanner.Prelude.Value.{str}
use portscanner.Prelude.Exec.{
  Exec, pure, raise, attempt, recover, then_do, ◌>>=◌, ◌>>◌, when◌run◌otherwise◌, Ends, Ends-ok,
  Ends-bind, Ends-when, Ends-any,
}
use portscanner.Prelude.Exec.Steps.{Ends-pure, Ends-raise}
use portscanner.Prelude.Result.{Result, ok, err}
use portscanner.Generator.Error.{Error}
use portscanner.Generator.Claims.Item.{
  ClaimState, claimed, retryable, state_text, is_terminal, Item, EventClaim, ClaimTable, value_is,
  owned_by, complete_change, retryable_change, on_conditional, conditional_failure,
}
use portscanner.Generator.Claims.Store.{get, complete_again, complete, mark_retryable}
use portscanner.Generator.Claims.Moves.{IsTable}
use portscanner.Generator.Claims.Lawful.{
  IsFree, IsSameEvent, IsLawful, Moves-IsLawful, value_is-eq, not_claimed, not_retryable,
}

-- The item is held under the claim, by its owner and for its event.
pub record IsHeldBy (claim : EventClaim) (i : Item) : Type 0 where
  pub of_claim : i.event_hash ≡ str claim.event_hash
  pub is_claimed : i.state ≡ str (codes "CLAIMED")
  pub by_owner : i.claim_owner ≡ str claim.owner

owned_by-IsHeldBy : (claim : EventClaim) (i : Item) → owned_by claim i ≡ true → IsHeldBy claim i
unfolding owned_by state_text
owned_by-IsHeldBy claim i h =
    let (of_hash, rest) = &&-true (value_is i.event_hash claim.event_hash) _ h in
    let (running, of_owner) = &&-true (value_is i.state (codes "CLAIMED")) _ rest in
    record {
      of_claim = value_is-eq i.event_hash claim.event_hash of_hash;
      is_claimed = value_is-eq i.state (codes "CLAIMED") running;
      by_owner = value_is-eq i.claim_owner claim.owner of_owner;
    }

-- From an item to the next one, in the same attempt at the same event, and then nobody holds it.
pub record IsLetGo (i j : Item) : Type 0 where
  pub same : IsSameEvent i j
  pub attempts : j.attempts ≡ i.attempts
  pub free : IsFree j

module _ {W : Type 0} where
  abbrev SaysFalse : Bool → W → Type 0
  SaysFalse b w = b ≡ false

  abbrev Raised : Error → W → Type 0
  Raised e w = Unit

  true_of_update :
      (update : Exec W Error (Unit {0})) (handler : Error → Exec W Error Bool) (w : W)
      → ((e : Error) (w' : W) → Ends SaysFalse Raised (handler e w'))
      → (attempt (update >> pure true) handler w).0 ≡ ok true
      → ((update w).0 ≡ ok tt) × ((attempt (update >> pure true) handler w).1 ≡ (update w).1)
  unfolding attempt ◌>>=◌ pure
  true_of_update update handler w says_false h = by_end (update w) h
    where
      by_end :
          (x : Result Error (Unit {0}) × W)
          → (recover handler (then_do (λ u. pure true) x)).0 ≡ ok true
          → (x.0 ≡ ok tt) × ((recover handler (then_do (λ u. pure true) x)).1 ≡ x.1)
      by_end (ok tt, v) k = (refl, refl)
      by_end (err e, v) k = absurd (cc (Ends-ok SaysFalse Raised (handler e v) (says_false e v) k))

  on_conditional-SaysFalse :
      (rest : Exec W Error Bool) (e : Error) (w : W)
      → ((w' : W) → Ends SaysFalse Raised (rest w'))
      → Ends SaysFalse Raised (on_conditional rest e w)
  unfolding on_conditional
  on_conditional-SaysFalse rest e w h =
      Ends-when SaysFalse Raised (conditional_failure e) rest (raise e) w (λ c. h w)
        (λ c. Ends-raise SaysFalse Raised e w tt)

  complete_again-SaysFalse :
      (table : ClaimTable W) (claim : EventClaim) (s : ClaimState) (w : W)
      → Ends SaysFalse Raised (complete_again table claim s w)
  unfolding complete_again
  complete_again-SaysFalse table claim s w =
      Ends-bind (λ i w'. Unit {0}) SaysFalse Raised (get table claim.key) _ w (Ends-any _)
        (λ i w' u.
          Ends-when SaysFalse Raised _ _ _ w' (λ c. Ends-pure SaysFalse Raised false w' refl)
            (λ c. Ends-raise SaysFalse Raised _ w' tt))

module _ {W : Type 0} {table : ClaimTable W} (t : IsTable table) (claim : EventClaim) (now : ℕ)
    (w : W) where
  -- What `complete` says it has done: the item went on lawfully to one that was held under the claim, and
  -- from it to the item that is there, in the terminal state, with the verdict and the count.
  pub record WasCompleted (s : ClaimState) (verdict : Text) (cancelled_count : ℕ)
      (after : Option Item) : Type 0 where
    pub found : Item
    pub reached : IsLawful (table.item w claim.key) (some found)
    pub held : IsHeldBy claim found
    pub item : Item
    pub is_there : after ≡ some item
    pub not_running : (s ≢ claimed) × (s ≢ retryable)
    pub in_state : item.state ≡ str (state_text s)
    pub let_go : IsLetGo found item
    pub with_verdict : item.ownership_verdict ≡ some verdict
    pub with_count : item.cancelled_count ≡ some cancelled_count

  -- What `mark_retryable` says it has done: the same with the state RETRYABLE and the error.
  pub record WasReleased (error_code : Text) (after : Option Item) : Type 0 where
    pub found : Item
    pub reached : IsLawful (table.item w claim.key) (some found)
    pub held : IsHeldBy claim found
    pub item : Item
    pub is_there : after ≡ some item
    pub is_retryable : item.state ≡ str (codes "RETRYABLE")
    pub let_go : IsLetGo found item
    pub with_error : item.last_error_code ≡ some error_code
    pub no_verdict : item.ownership_verdict ≡ found.ownership_verdict

  update_completed :
      (s : ClaimState) (verdict : Text) (scanner : Option Text) (cancelled_count : ℕ)
      → is_terminal s ≡ true
      → (attempt
          (table.update_item claim.key
              (owned_by claim)
              (complete_change s now verdict scanner cancelled_count)
            >> pure true)
          (on_conditional (complete_again table claim s))
          w).0
        ≡ ok true
      → WasCompleted s verdict cancelled_count (
          table.item
            (attempt
              (table.update_item claim.key
                  (owned_by claim)
                  (complete_change s now verdict scanner cancelled_count)
                >> pure true)
              (on_conditional (complete_again table claim s))
              w).1
            claim.key)
  unfolding complete_change state_text
  update_completed s verdict scanner cancelled_count terminal h =
      let change : Item → Item = complete_change s now verdict scanner cancelled_count in
      let (done, same) =
        true_of_update (table.update_item claim.key (owned_by claim) change)
          (on_conditional (complete_again table claim s)) w
          (λ e w'.
            on_conditional-SaysFalse (complete_again table claim s) e w'
              (λ v. complete_again-SaysFalse table claim s v))
          h in
      let wrote = t.update_done claim.key (owned_by claim) change w done in
      record {
        found = wrote.found;
        reached = Moves-IsLawful wrote.reached;
        held = owned_by-IsHeldBy claim wrote.found wrote.passed;
        item = change wrote.found;
        is_there = rw same wrote.written;
        not_running = (not_claimed s terminal, not_retryable s terminal);
        in_state = refl;
        let_go = record {
          same = record {
            hashes = refl;
            traces = refl;
            targets = refl;
            generations = refl;
            creations = refl;
          };
          attempts = refl;
          free = record { no_owner = refl; no_lease = refl };
        };
        with_verdict = refl;
        with_count = refl;
      }

  -- When `complete` returns true, the asked state is not CLAIMED and not RETRYABLE, and the worker has
  -- ended its own claim: whatever the others did before, the item was CLAIMED for the claim's event by the
  -- claim's owner, and it is now in the asked state, with the verdict and the count of cancellations, in
  -- the same attempt, and held by nobody.
  pub complete-WasCompleted :
      (s : ClaimState) (verdict : Text) (scanner : Option Text) (cancelled_count : ℕ)
      → (complete table claim s now verdict scanner cancelled_count w).0 ≡ ok true
      → WasCompleted s verdict cancelled_count
          (table.item (complete table claim s now verdict scanner cancelled_count w).1 claim.key)
  unfolding complete when◌run◌otherwise◌ raise
  complete-WasCompleted s verdict scanner cancelled_count h = elim (Bool-cases (is_terminal s)) [
    | inl terminal ↦
        rw terminal (update_completed s verdict scanner cancelled_count terminal (rw terminal at h))
    | inr running ↦ absurd (cc (rw running at h))
  ]

  -- When `mark_retryable` returns true, the worker has released its own claim: whatever the others did
  -- before, the item was CLAIMED for the claim's event by the claim's owner, and it is now RETRYABLE with
  -- the error, in the same attempt, without a new verdict, and held by nobody.
  pub mark_retryable-WasReleased :
      (error_code : Text)
      → (mark_retryable table claim now error_code w).0 ≡ ok true
      → WasReleased error_code
          (table.item (mark_retryable table claim now error_code w).1 claim.key)
  unfolding mark_retryable retryable_change state_text
  mark_retryable-WasReleased error_code h =
      let (done, same) =
        true_of_update
          (table.update_item claim.key (owned_by claim) (retryable_change now error_code))
          (on_conditional (pure false)) w
          (λ e w'.
            on_conditional-SaysFalse (pure false) e w'
              (λ v. Ends-pure SaysFalse Raised false v refl))
          h in
      let wrote =
        t.update_done claim.key (owned_by claim) (retryable_change now error_code) w done in
      record {
        found = wrote.found;
        reached = Moves-IsLawful wrote.reached;
        held = owned_by-IsHeldBy claim wrote.found wrote.passed;
        item = retryable_change now error_code wrote.found;
        is_there = rw same wrote.written;
        is_retryable = refl;
        let_go = record {
          same = record {
            hashes = refl;
            traces = refl;
            targets = refl;
            generations = refl;
            creations = refl;
          };
          attempts = refl;
          free = record { no_owner = refl; no_lease = refl };
        };
        with_error = refl;
        no_verdict = refl;
      }
