-- ===== src/Generator/Claims/Outcomes.antt =====
-- What the operations of the claim store return, against the item that they leave (idempotency.py).
use portscanner.Prelude.{ℕ, ◌≡◌, refl, inl, inr, none, some, Bool-cases, ◌∙◌, sym}
use portscanner.Prelude.Text.{Text, text_eq_refl}
use portscanner.Prelude.Value.{str}
use portscanner.Prelude.Exec.{
  Ends, Ends-of, Ends-attempt, Ends-bind, Ends-ok, ◌>>=◌, raise, lift, when◌run◌otherwise◌,
}
use portscanner.Prelude.Result.{ok}
use portscanner.Generator.Error.{Error}
use portscanner.Generator.Claims.Item.{
  ClaimState, claimed, state_text, Item, Request, StoreConfig, ClaimTable, ClaimResult, claim_key,
  on_conditional, conditional_failure, state_of_text, item_state, duplicate,
}
use portscanner.Generator.Claims.Store.{
  fresh_item, get, present, checked_item_state, judge_existing, acquire_existing, acquire,
  settled_result,
}
use portscanner.Generator.Claims.Moves.{Moves, IsTable, IsFinished, finished_stays}

known_state-text : (s : ClaimState) → state_of_text (state_text s) ≡ some s
unfolding state_text
known_state-text claimed = refl
known_state-text _ = refl

item_state-IsFinished : (i : Item) (s : ClaimState) → IsFinished i s → item_state i ≡ ok s
unfolding item_state
item_state-IsFinished i s h = rw h.named (rw (known_state-text s, item_state) refl)

checked_item_state-IsFinished :
    (hash : Text) (i : Item) (s : ClaimState)
    → i.event_hash ≡ str hash
    → IsFinished i s
    → checked_item_state hash i ≡ ok s
unfolding checked_item_state
checked_item_state-IsFinished hash i s e h =
    rw e (rw (text_eq_refl hash) (item_state-IsFinished i s h))

module _ {W : Type 0} {table : ClaimTable W} (t : IsTable table) (key : Text) (i : Item)
    (s : ClaimState) (finished : IsFinished i s) where
  abbrev Holds : W → Type 0
  Holds w = table.item w key ≡ some i

  Moves-Holds : (w w' : W) → Moves (table.item w key) (table.item w' key) → Holds w → Holds w'
  Moves-Holds w w' m h = finished_stays i s finished (rw h at m)

  not_absent : (w : W) → Holds w → Moves (table.item w key) none → ⊥
  not_absent w h m = cc (finished_stays i s finished (rw h at m))

  put_item-Ends :
      (new : Item) (w : W)
      → Holds w
      → Ends (λ a w'. ⊥) (λ e w'. Holds w') (table.put_item key new w)
  put_item-Ends new w h =
      Ends-of _ _ (table.put_item key new w) (λ a e. not_absent w h (t.put_done key new w e).0)
        (λ x e. elim (t.put_failed key new w x e) [
          | inl m ↦ Moves-Holds w _ m h
          | inr (m, done) ↦ absurd (not_absent w h m)
        ])

  get_item-Ends :
      (w : W)
      → Holds w
      → Ends (λ o w'. (o ≡ some i) × Holds w') (λ e w'. Unit) (table.get_item key w)
  get_item-Ends w h =
      Ends-of _ _ (table.get_item key w)
        (λ o e.
          let after = Moves-Holds w _ (t.get_moves key key w) h in
          (sym (t.get_reads key w o e) ∙ after, after))
        (λ x e. tt)

  get-Ends : (w : W) → Holds w → Ends (λ o w'. (o ≡ i) × Holds w') (λ e w'. Unit) (get table key w)
  unfolding get
  get-Ends w h =
      Ends-bind (λ o w'. (o ≡ some i) × Holds w') (λ o w'. (o ≡ i) × Holds w') (λ e w'. Unit)
        (table.get_item key) (λ found. lift (present found)) w (get_item-Ends w h)
        (λ o w' p. unfold lift in rw p.0 (refl, p.1))

module _ {W : Type 0} {table : ClaimTable W} (t : IsTable table) (sha256 : Text → Text)
    (config : StoreConfig) (r : Request) (now : ℕ) (i : Item) (s : ClaimState)
    (finished : IsFinished i s) (hashed : i.event_hash ≡ str (sha256 r.event_id)) where
  abbrev IsDuplicate : ClaimResult → W → Type 0
  IsDuplicate res w = res ≡ settled_result duplicate s

  acquire_existing-Ends :
      (w : W)
      → table.item w (claim_key (sha256 r.event_id)) ≡ some i
      → Ends IsDuplicate (λ e w'. Unit) (acquire_existing table sha256 config r now w)
  unfolding acquire_existing
  acquire_existing-Ends w h =
      Ends-bind _ _ _ (get table (claim_key (sha256 r.event_id))) _ w
        (get-Ends t (claim_key (sha256 r.event_id)) i s finished w h)
        (λ o w' p.
          unfold ◌>>=◌ judge_existing in
          rw p.0 (
            rw (checked_item_state-IsFinished (sha256 r.event_id) i s hashed finished)
              (rw finished.terminal refl)))

  on_conditional-Ends :
      (e : Error) (w : W)
      → Ends IsDuplicate (λ e w'. Unit) (acquire_existing table sha256 config r now w)
      → Ends IsDuplicate
          (λ e w'. Unit)
          (on_conditional (acquire_existing table sha256 config r now) e w)
  unfolding on_conditional when◌run◌otherwise◌ raise
  on_conditional-Ends e w h = elim (Bool-cases (conditional_failure e)) [
    | inl yielded ↦ rw yielded h
    | inr other ↦ rw other tt
  ]

  acquire-Ends :
      (w : W)
      → table.item w (claim_key (sha256 r.event_id)) ≡ some i
      → Ends IsDuplicate (λ e w'. Unit) (acquire table sha256 config r now w)
  unfolding acquire
  acquire-Ends w h =
      let key = claim_key (sha256 r.event_id) in
      let new = fresh_item sha256 config r now in
      Ends-attempt IsDuplicate (λ e w'. table.item w' key ≡ some i) (λ e w'. Unit) _
        (on_conditional (acquire_existing table sha256 config r now)) w
        (Ends-bind (λ a w'. ⊥) IsDuplicate (λ e w'. table.item w' key ≡ some i)
          (table.put_item key new) _ w (put_item-Ends t key i s finished new w h)
          (λ a w' impossible. absurd impossible))
        (λ e w' held. on_conditional-Ends e w' (acquire_existing-Ends w' held))

  -- A finished event is not claimed again as long as the table keeps its item: when the table's
  -- item of the event is in a terminal state, an `acquire` that returns reports a duplicate in that
  -- state, whatever the other workers do meanwhile.
  pub acquire-IsFinished :
      (w : W) {res : ClaimResult}
      → table.item w (claim_key (sha256 r.event_id)) ≡ some i
      → (acquire table sha256 config r now w).0 ≡ ok res
      → res ≡ settled_result duplicate s
  acquire-IsFinished w h e =
      Ends-ok IsDuplicate (λ x w'. Unit) (acquire table sha256 config r now w) (acquire-Ends w h) e
