-- ===== src/Generator/Claims/Ownership.antt =====
-- A claim that `acquire` hands out is the one that the table names, and `complete` that returns has
-- left the item in the terminal state (idempotency.py).
use portscanner.Prelude.{
  ℕ, ◌≡◌, refl, ◌≢◌, Bool, true, false, ◌&&◌, not, Option, none, some, arith, &&-true, not-false,
  ap,
}
use portscanner.Prelude.Text.{Text, text_eq_iff, text_eq_refl}
use portscanner.Prelude.Value.{Value, str, pos}
use portscanner.Prelude.Exec.{
  Ends, Ends-of, Ends-attempt, Ends-bind, Ends-ok, Ends-any, Ends-lift, Ends-when, Ends-weaken,
  Exec, pure, raise, lift,
}
use portscanner.Prelude.Result.{ok}
use portscanner.Generator.Error.{Error, claim_lost}
use portscanner.Generator.Claims.Item.{
  ClaimState, state_text, is_terminal, Item, EventClaim, Request, StoreConfig, ClaimTable,
  ClaimResult, value_is, owned_by, reacquirable, complete_change, claim_key, on_conditional,
  conditional_failure, acquired, seconds, reacquire_change,
}
use portscanner.Generator.Claims.Store.{
  fresh_item, get, present, checked_item_state, judge_existing, acquire_existing, acquire,
  complete_again, complete, take_over, classify_after_race, after_race, lease_end, audit_end,
  acquired_result, next_attempt,
}
use portscanner.Generator.Claims.Moves.{IsTable}

pub value_is_sound : (v : Value) (s : Text) → value_is v s ≡ true → v ≡ str s
value_is_sound (str u) s h = ap str ((text_eq_iff u s).0 h)
value_is_sound Value.null s h = absurd (cc)
value_is_sound _ s h = absurd (cc)

-- A result that hands out a claim: the table holds an item that the claim owns.
pub record Grants {W : Type 0} (table : ClaimTable W) (res : ClaimResult) (w : W) : Type 0 where
  pub claim : EventClaim
  pub handed : res.claim ≡ some claim
  pub held : Item
  pub stored : table.item w claim.key ≡ some held
  pub owned : owned_by claim held ≡ true

module _ {W : Type 0} {table : ClaimTable W} (t : IsTable table) where
  -- Only a result of the other dispositions comes without a claim.
  abbrev GrantsIfAcquired : ClaimResult → W → Type 0
  GrantsIfAcquired res w = res.disposition ≡ acquired → Grants table res w

  abbrev Anything : Error → W → Type 0
  Anything e w = Unit

  on_conditional-Ends :
      {A : Type 0} (P : A → W → Type 0) (rest : Exec W Error A) (e : Error) (w : W)
      → Ends P Anything (rest w)
      → Ends P Anything (on_conditional rest e w)
  unfolding on_conditional raise
  on_conditional-Ends P rest e w h =
      Ends-when P Anything (conditional_failure e) rest (raise e) w (λ c. h) (λ c. tt)

  after_race-settled :
      (i : Item) (s : ClaimState) (now : ℕ) (res : ClaimResult)
      → after_race i s now ≡ ok res
      → res.disposition ≢ acquired
  unfolding after_race
  after_race-settled i s now res h = ground arith

  classify_after_race-Ends :
      (key hash : Text) (now : ℕ) (w : W)
      → Ends GrantsIfAcquired Anything (classify_after_race table key hash now w)
  unfolding classify_after_race
  classify_after_race-Ends key hash now w =
      Ends-bind (λ i w'. Unit) GrantsIfAcquired Anything (get table key) _ w (Ends-any _)
        (λ i w₁ u.
          Ends-bind (λ s w'. Unit) GrantsIfAcquired Anything (lift (checked_item_state hash i)) _ w₁
            (Ends-any _)
            (λ s w₂ v.
              Ends-lift GrantsIfAcquired (after_race i s now) w₂
                (λ res e h. absurd (after_race-settled i s now res e h))))

  module _ (sha256 : Text → Text) (config : StoreConfig) (r : Request) (now : ℕ) where
    fresh-owned :
        (w : W)
        → table.item w (claim_key (sha256 r.event_id)) ≡ some (fresh_item sha256 config r now)
        → Grants table (acquired_result sha256 r (pos 1)) w
    unfolding fresh_item owned_by
    fresh-owned w e = record {
      claim = _;
      handed = refl;
      held = fresh_item sha256 config r now;
      stored = e;
      owned = rw (text_eq_refl (sha256 r.event_id), text_eq_refl r.owner) refl;
    }

    reacquired-owned :
        (lease expires : ℕ) (i : Item)
        → reacquirable (sha256 r.event_id) (seconds now) i ≡ true
        → owned_by
            (record {
              key = claim_key (sha256 r.event_id);
              event_hash = sha256 r.event_id;
              owner = r.owner;
              attempt = pos 1;
            })
            (reacquire_change r.owner lease now expires i)
          ≡ true
    unfolding reacquirable owned_by reacquire_change
    reacquired-owned lease expires i h =
        let hashed = (&&-true (value_is i.event_hash (sha256 r.event_id)) _ h).0 in
        rw (hashed, text_eq_refl r.owner) refl

    take_over-Ends :
        (existing : Item) (w : W)
        → Ends GrantsIfAcquired Anything (take_over table sha256 config r now existing w)
    unfolding take_over
    take_over-Ends existing w =
        let hash = sha256 r.event_id in
        let key = claim_key hash in
        let test = reacquirable hash (seconds now) in
        let change = reacquire_change r.owner (lease_end config now) now (audit_end config now) in
        let Wrote : Unit → W → Type 0 =
          λ a w'. (j : Item) × (table.item w' key ≡ some (change j)) × (test j ≡ true) in
        Ends-attempt GrantsIfAcquired Anything Anything _ _ w
          (Ends-bind Wrote GrantsIfAcquired Anything (table.update_item key test change)
            (λ a. pure (acquired_result sha256 r (next_attempt existing))) w
            (Ends-of Wrote Anything _
              (λ a e. let x = t.update_done key test change w e in (x.found, x.written, x.passed))
              (λ e h. tt))
            (λ a w' wrote.
              unfold pure in
              λ h. record {
                claim = _;
                handed = refl;
                held = change wrote.0;
                stored = wrote.1;
                owned =
                    unfold owned_by in
                    reacquired-owned (lease_end config now) (audit_end config now) wrote.0 wrote.2;
              }))
          (λ e w' u.
            on_conditional-Ends GrantsIfAcquired _ e w' (classify_after_race-Ends key hash now w'))

    judge_existing-Ends :
        (existing : Item) (s : ClaimState) (w : W)
        → Ends GrantsIfAcquired Anything (judge_existing table sha256 config r now existing s w)
    unfolding judge_existing pure raise
    judge_existing-Ends existing s w =
        Ends-when GrantsIfAcquired Anything (is_terminal s) _ _ w (λ c h. cc)
          (λ c.
            Ends-when GrantsIfAcquired Anything _ _ _ w (λ d h. cc)
              (λ d.
                Ends-when GrantsIfAcquired Anything _ _ _ w (λ f. tt)
                  (λ f. take_over-Ends existing w)))

    acquire_existing-Ends :
        (w : W) → Ends GrantsIfAcquired Anything (acquire_existing table sha256 config r now w)
    unfolding acquire_existing
    acquire_existing-Ends w =
        Ends-bind (λ i w'. Unit) GrantsIfAcquired Anything (get table _) _ w (Ends-any _)
          (λ i w₁ u.
            Ends-bind (λ s w'. Unit) GrantsIfAcquired Anything
              (lift (checked_item_state (sha256 r.event_id) i)) _ w₁ (Ends-any _)
              (λ s w₂ v. judge_existing-Ends i s w₂))

    acquire-Ends : (w : W) → Ends GrantsIfAcquired Anything (acquire table sha256 config r now w)
    unfolding acquire
    acquire-Ends w =
        let key = claim_key (sha256 r.event_id) in
        let new = fresh_item sha256 config r now in
        let Wrote : Unit → W → Type 0 = λ a w'. table.item w' key ≡ some new in
        Ends-attempt GrantsIfAcquired Anything Anything _ _ w
          (Ends-bind Wrote GrantsIfAcquired Anything (table.put_item key new)
            (λ a. pure (acquired_result sha256 r (pos 1))) w
            (Ends-of Wrote Anything _ (λ a e. (t.put_done key new w e).1) (λ e h. tt))
            (λ a w' wrote. unfold pure in λ h. fresh-owned w' wrote))
          (λ e w' u. on_conditional-Ends GrantsIfAcquired _ e w' (acquire_existing-Ends w'))

    -- When `acquire` returns with the disposition `acquired`, it returns a claim, and the table's
    -- item of that claim is then CLAIMED, for the event's hash, by the claim's owner.
    pub acquire-owned :
        (w : W) {res : ClaimResult}
        → (acquire table sha256 config r now w).0 ≡ ok res
        → res.disposition ≡ acquired
        → Grants table res (acquire table sha256 config r now w).1
    acquire-owned w e h =
        Ends-ok GrantsIfAcquired Anything (acquire table sha256 config r now w) (acquire-Ends w) e h

  -- `complete`.
  module _ (claim : EventClaim) (s : ClaimState) where
    -- The item of the claim's key is in the state, for the claim's hash.
    abbrev pub Settled : Bool → W → Type 0
    Settled b w =
        (j : Item) × (table.item w claim.key ≡ some j)
        × (j.state ≡ str (state_text s))
        × (j.event_hash ≡ str claim.event_hash)

    present-Ends :
        (key : Text) (o : Option Item) (w : W)
        → table.item w key ≡ o
        → Ends (λ i w'. table.item w' key ≡ some i) Anything (lift (present o) w)
    unfolding lift
    present-Ends key none w h = tt
    present-Ends key (some i) w h = h

    get-Ends :
        (key : Text) (w : W) → Ends (λ i w'. table.item w' key ≡ some i) Anything (get table key w)
    unfolding get
    get-Ends key w =
        Ends-bind (λ o w'. table.item w' key ≡ o) (λ i w'. table.item w' key ≡ some i) Anything
          (table.get_item key) _ w (Ends-of _ Anything _ (λ o e. t.get_reads key w o e) (λ e h. tt))
          (λ o w' e. present-Ends key o w' e)

    complete_again-Ends : (w : W) → Ends Settled Anything (complete_again table claim s w)
    unfolding complete_again pure raise
    complete_again-Ends w =
        Ends-bind (λ i w'. table.item w' claim.key ≡ some i) Settled Anything (get table claim.key)
          _ w (get-Ends claim.key w)
          (λ i w' e.
            Ends-when Settled Anything
              (value_is i.event_hash claim.event_hash && value_is i.state (state_text s))
              (pure false) (raise claim_lost) w'
              (λ c.
                let p = &&-true (value_is i.event_hash claim.event_hash) _ c in
                (i, e, value_is_sound _ _ p.1, value_is_sound _ _ p.0))
              (λ c. tt))

    abbrev Completed : Bool → W → Type 0
    Completed b w = (is_terminal s ≡ true) × Settled b w

    change_settles :
        (now : ℕ) (verdict : Text) (scanner : Option Text) (cancelled_count : ℕ) (j : Item)
        → owned_by claim j ≡ true
        → let after = complete_change s now verdict scanner cancelled_count j in
          (after.state ≡ str (state_text s)) × (after.event_hash ≡ str claim.event_hash)
    unfolding complete_change owned_by
    change_settles now verdict scanner cancelled_count j h =
        (refl, value_is_sound _ _ (&&-true (value_is j.event_hash claim.event_hash) _ h).0)

    complete-Ends :
        (now : ℕ) (verdict : Text) (scanner : Option Text) (cancelled_count : ℕ) (w : W)
        → Ends Completed Anything (complete table claim s now verdict scanner cancelled_count w)
    unfolding complete raise
    complete-Ends now verdict scanner cancelled_count w =
        let test = owned_by claim in
        let change = complete_change s now verdict scanner cancelled_count in
        let Wrote : Unit → W → Type 0 =
          λ a w'. (j : Item) × (table.item w' claim.key ≡ some (change j)) × (test j ≡ true) in
        Ends-when Completed Anything (not (is_terminal s)) _ _ w (λ c. tt)
          (λ c.
            let terminal = not-false (is_terminal s) c in
            Ends-attempt Completed Anything Anything _ _ w
              (Ends-bind Wrote Completed Anything (table.update_item claim.key test change)
                (λ a. pure true) w
                (Ends-of Wrote Anything _
                  (λ a e.
                    let x = t.update_done claim.key test change w e in
                    (x.found, x.written, x.passed))
                  (λ e h. tt))
                (λ a w' wrote.
                  unfold pure in
                  let p = change_settles now verdict scanner cancelled_count wrote.0 wrote.2 in
                  (terminal, (change wrote.0, wrote.1, p.0, p.1))))
              (λ e w' u. on_conditional-Ends Completed _ e w' (
                Ends-weaken Settled Completed Anything (complete_again table claim s w')
                  (λ b w'' h. (terminal, h)) (complete_again-Ends w'))))

    -- When `complete` returns, the item of the claim's key is in the asked terminal state, for the
    -- claim's hash: this worker has just written it, or (the result is `False`) another had.
    pub complete-Settled :
        (now : ℕ) (verdict : Text) (scanner : Option Text) (cancelled_count : ℕ) (w : W) {b : Bool}
        → (complete table claim s now verdict scanner cancelled_count w).0 ≡ ok b
        → (is_terminal s ≡ true)
          × Settled b (complete table claim s now verdict scanner cancelled_count w).1
    complete-Settled now verdict scanner cancelled_count w e =
        Ends-ok Completed Anything (complete table claim s now verdict scanner cancelled_count w)
          (complete-Ends now verdict scanner cancelled_count w) e
