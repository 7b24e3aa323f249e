-- ===== src/Generator/Claims/Guarantee.antt =====
-- Every operation of the claim store moves every item only as the step relation allows, also when it
-- raises (idempotency.py).
use portscanner.Prelude.{ℕ, ◌≡◌, inl, inr, Bool, true, false, Option, none, some, Bool-cases}
use portscanner.Prelude.Text.{Text, text_eq, text_eq_iff}
use portscanner.Prelude.Exec.{
  Exec, Preserves, preserves_rules, Preserves-when, Preserves-raise, Preserves-attempt,
  Preserves-bind, Preserves-pure, when◌run◌otherwise◌, raise,
}
use portscanner.Prelude.Result.{Result-cases}
use portscanner.Generator.Error.{Error, value_error}
use portscanner.Generator.Claims.Item.{
  claim_key, seconds, ClaimState, Item, EventClaim, Request, StoreConfig, ClaimTable, reacquirable,
  owned_by, complete_change, retryable_change, is_terminal, on_conditional, conditional_failure,
}
use portscanner.Generator.Claims.Store.{
  lease_end, audit_end, get, classify_after_race, take_over, judge_existing, acquire_existing,
  acquire, complete_again, complete, mark_retryable,
}
use portscanner.Generator.Claims.Moves.{
  Move, create, reacquire, finish, release, Moves, next, Moves-trans, Written, IsTable,
}

module _ {W : Type 0} {table : ClaimTable W} (t : IsTable table) (k : Text)
    (before : Option Item) where
  -- The item of the key has only moved since.
  abbrev pub Moved : W → Type 0
  Moved w = Moves before (table.item w k)

  get_item-Preserves : (key : Text) → Preserves Moved (table.get_item key)
  get_item-Preserves key = record { at = λ w h. Moves-trans h (t.get_moves key k w) }

  -- A write of an item that the step relation allows.
  put_item-Preserves :
      (key : Text) (i : Item) → Move none (some i) → Preserves Moved (table.put_item key i)
  put_item-Preserves key i step = record { at = λ w h. Moves-trans h (moves w) }
    where
      same : (w : W) → Moves (table.item w key) (table.item (table.put_item key i w).1 key)
      same w = elim (Result-cases (table.put_item key i w).0) [
        | inl (a, e) ↦ let (m, done) = t.put_done key i w e in rw done (next m step)
        | inr (x, e) ↦ elim (t.put_failed key i w x e) [
          | inl m ↦ m
          | inr (m, done) ↦ rw done (next m step)
        ]
      ]

      moves : (w : W) → Moves (table.item w k) (table.item (table.put_item key i w).1 k)
      moves w = elim (Bool-cases (text_eq k key)) [
        | inl e ↦ let p = (text_eq_iff k key).0 e in rw p (same w)
        | inr e ↦ t.put_others key i k w (λ p. cc ((text_eq_iff k key).1 p))
      ]

  Written-Moves :
      (test : Item → Bool) (change : Item → Item) (a b : Option Item)
      → ((i : Item) → test i ≡ true → Move (some i) (some (change i)))
      → Written table a b test change
      → Moves a b
  Written-Moves test change a b step x = rw x.written (next x.reached (step x.found x.passed))

  update_item-Preserves :
      (key : Text) (test : Item → Bool) (change : Item → Item)
      → ((i : Item) → test i ≡ true → Move (some i) (some (change i)))
      → Preserves Moved (table.update_item key test change)
  update_item-Preserves key test change step = record { at = λ w h. Moves-trans h (moves w) }
    where
      same :
          (w : W)
          → Moves (table.item w key) (table.item (table.update_item key test change w).1 key)
      same w = elim (Result-cases (table.update_item key test change w).0) [
        | inl (a, e) ↦ Written-Moves test change _ _ step (t.update_done key test change w e)
        | inr (x, e) ↦ elim (t.update_failed key test change w x e) [
          | inl m ↦ m
          | inr x' ↦ Written-Moves test change _ _ step x'
        ]
      ]

      moves :
          (w : W) → Moves (table.item w k) (table.item (table.update_item key test change w).1 k)
      moves w = elim (Bool-cases (text_eq k key)) [
        | inl e ↦ let p = (text_eq_iff k key).0 e in rw p (same w)
        | inr e ↦ t.update_others key test change k w (λ p. cc ((text_eq_iff k key).1 p))
      ]

  get-Preserves : (key : Text) → Preserves Moved (get table key)
  unfolding get
  get-Preserves key = search (preserves_rules, get_item-Preserves)

  classify_after_race-Preserves :
      (key hash : Text) (now : ℕ) → Preserves Moved (classify_after_race table key hash now)
  unfolding classify_after_race
  classify_after_race-Preserves key hash now = search (preserves_rules, get-Preserves)

  on_conditional-Preserves :
      {A : Type 0} (rest : Exec W Error A) (e : Error)
      → Preserves Moved rest
      → Preserves Moved (on_conditional rest e)
  unfolding on_conditional
  on_conditional-Preserves rest e h =
      Preserves-when (conditional_failure e) rest (raise e) h (Preserves-raise e)

  complete_again-Preserves :
      (claim : EventClaim) (s : ClaimState) → Preserves Moved (complete_again table claim s)
  unfolding complete_again
  complete_again-Preserves claim s = search (preserves_rules, get-Preserves)

  pub complete-Preserves :
      (claim : EventClaim) (s : ClaimState) (now : ℕ) (verdict : Text) (scanner : Option Text)
      (cancelled_count : ℕ)
      → Preserves Moved (complete table claim s now verdict scanner cancelled_count)
  unfolding complete when◌run◌otherwise◌
  complete-Preserves claim s now verdict scanner cancelled_count =
      elim (Bool-cases (is_terminal s)) [
        | inr running ↦ rw running (Preserves-raise value_error)
        | inl terminal ↦
            let step : (i : Item)
                → owned_by claim i ≡ true
                → Move (some i) (some (complete_change s now verdict scanner cancelled_count i)) =
              λ i owned. finish claim s now verdict scanner cancelled_count i terminal owned in
            let write = update_item-Preserves claim.key (owned_by claim) _ step in
            rw terminal (
              Preserves-attempt _ _ (Preserves-bind _ _ write (λ a. Preserves-pure true))
                (λ e. on_conditional-Preserves _ e (complete_again-Preserves claim s)))
      ]

  pub mark_retryable-Preserves :
      (claim : EventClaim) (now : ℕ) (error_code : Text)
      → Preserves Moved (mark_retryable table claim now error_code)
  unfolding mark_retryable
  mark_retryable-Preserves claim now error_code =
      let write =
        update_item-Preserves claim.key (owned_by claim) (retryable_change now error_code)
          (release claim now error_code) in
      Preserves-attempt _ _ (Preserves-bind _ _ write (λ a. Preserves-pure true))
        (λ e. on_conditional-Preserves _ e (Preserves-pure false))

  module _ (sha256 : Text → Text) (config : StoreConfig) (r : Request) (now : ℕ) where
    take_over-Preserves :
        (existing : Item) → Preserves Moved (take_over table sha256 config r now existing)
    unfolding take_over
    take_over-Preserves existing =
        let hash = sha256 r.event_id in
        let write =
          update_item-Preserves (claim_key hash) (reacquirable hash (seconds now)) _
            (reacquire hash r.owner (lease_end config now) now (audit_end config now)) in
        Preserves-attempt _ _ (Preserves-bind _ _ write (λ a. Preserves-pure _))
          (λ e. on_conditional-Preserves _ e (classify_after_race-Preserves _ hash now))

    judge_existing-Preserves :
        (existing : Item) (s : ClaimState)
        → Preserves Moved (judge_existing table sha256 config r now existing s)
    unfolding judge_existing
    judge_existing-Preserves existing s = search (preserves_rules, take_over-Preserves)

    acquire_existing-Preserves : Preserves Moved (acquire_existing table sha256 config r now)
    unfolding acquire_existing
    acquire_existing-Preserves = search (preserves_rules, get-Preserves, judge_existing-Preserves)

    pub acquire-Preserves : Preserves Moved (acquire table sha256 config r now)
    unfolding acquire
    acquire-Preserves =
        let write = put_item-Preserves _ _ (create sha256 config r now) in
        Preserves-attempt _ _ (Preserves-bind _ _ write (λ a. Preserves-pure _))
          (λ e. on_conditional-Preserves _ e acquire_existing-Preserves)
