-- ===== src/Inventory/Snapshot/Evidence.antt =====
-- The observed targets and the absences of a snapshot remove no state without grounds
-- (handlers/snapshot.py).
pub mod Whole
use mathlib.Core.List.{Mem, mem-cons_of_mem, mem-cons_self}
use portscanner.Prelude.{
  ℕ, ◌≡◌, refl, sym, ◌∙◌, ap, ◌⊎◌, inl, inr, Bool, true, false, ◌||◌, Option, none, some, List, [],
  ◌∷◌, map, any, arith,
}
use portscanner.Prelude.Text.{Text, text_eq}
use portscanner.Prelude.Exec.{Exec, lift, Ends, Ends-bind, Ends-when, Ends-turn}
use portscanner.Prelude.Exec.Steps.{Ends-pure, Ends-looked_up, Ends-lift_bind}
use portscanner.Prelude.Result.{ok, ok_inj}
use portscanner.Prelude.Calls.{Logged, silently-Ends, making-Ends, returning-Ends}
use portscanner.Inventory.Error.{StateError}
use portscanner.Inventory.Target.{NormalizedTarget, Codec, target_id_of, with_observation}
use portscanner.Inventory.Event.{EventSource}
use portscanner.Inventory.Store.{ReconcileAction, TargetState, ReconcileResult}
use portscanner.Inventory.Snapshot.{
  OwnershipCheck, SnapshotScope, SnapshotBatch, SnapshotOptions, Collaborators, Call, collected,
  reconciled, removing, listed, checked, ask_reconcile, ask_remove, ask_confirm, validate,
}
use portscanner.Inventory.Snapshot.Reconciliation.{
  Tally, count_action, gone, live_target, to_revalidate, apply_live, confirm_state, by_live,
  after_check, by_result, apply_observed, apply_all,
}
use portscanner.Inventory.Snapshot.Grounds.{IsDoubted, MayRemove, Grounded}

pub count_action-observed_ids :
    (a : ReconcileAction) (c : Tally) {c' : Tally}
    → count_action a c ≡ ok c'
    → c'.observed_ids ≡ c.observed_ids
unfolding count_action
count_action-observed_ids ReconcileAction.added c h = rw (← ok_inj h) refl
count_action-observed_ids ReconcileAction.changed c h = rw (← ok_inj h) refl
count_action-observed_ids ReconcileAction.noop c h = rw (← ok_inj h) refl
count_action-observed_ids ReconcileAction.removed c h = rw (← ok_inj h) refl
count_action-observed_ids ReconcileAction.race c h = rw (← ok_inj h) refl
count_action-observed_ids ReconcileAction.revalidate c h = absurd (cc)

-- `Known` is what is known of the calls, and stays so.
module _ {W : Type 0} (with_whom : Collaborators W) (codec : Codec)
    (digest : Text → Text → ℕ → ℕ → Text) (options : SnapshotOptions) (now : ℕ)
    (Known : List Call → Type 0)
    (more : (c : Call) (calls : List Call) → Known calls → Known (c ∷ calls)) where
  abbrev pub Good : List Call → Type 0
  Good calls = Grounded options calls × Known calls

  abbrev pub Fine : StateError → Logged W Call → Type 0
  Fine e s = Grounded options s.calls

  pub ask_remove-Ends :
      (state : TargetState) (source : EventSource) (s : Logged W Call)
      → Good s.calls
      → MayRemove options state s.calls
      → Ends (λ r s'. Good s'.calls) Fine (ask_remove with_whom state source now s)
  unfolding ask_remove
  ask_remove-Ends state source s h may =
      making-Ends (λ r calls. Good calls) (λ e calls. Grounded options calls) (removing state) _ s
        (λ r. ((h.0, may), more _ _ h.1)) (λ e. (h.0, may))

  ask_confirm-Ends :
      (state : TargetState) (t : NormalizedTarget) (s : Logged W Call)
      → Good s.calls
      → Ends (λ r s'. Good s'.calls) Fine (ask_confirm with_whom state t now s)
  unfolding ask_confirm
  ask_confirm-Ends state t s h =
      silently-Ends (λ r calls. Good calls) (λ e calls. Grounded options calls) _ s (λ r. h)
        (λ e. h.0)

  ask_reconcile-Ends :
      (t : NormalizedTarget) (source : EventSource) (s : Logged W Call)
      → Good s.calls
      → Ends
          (λ r s'. Good s'.calls × (s'.calls ≡ reconciled r ∷ s.calls))
          Fine
          (ask_reconcile with_whom t source now s)
  unfolding ask_reconcile
  ask_reconcile-Ends t source s h =
      returning-Ends (λ r calls. Good calls × (calls ≡ reconciled r ∷ s.calls))
        (λ e calls. Grounded options calls) reconciled _ s (λ r. ((h.0, more _ _ h.1), refl))
        (λ e. h.0)

  pub validate-Ends :
      (target_id : Text) (generation : ℕ) (s : Logged W Call)
      → Good s.calls
      → Ends
          (λ check s'. Good s'.calls × (s'.calls ≡ checked target_id generation check ∷ s.calls))
          Fine
          (validate with_whom target_id generation s)
  unfolding validate
  validate-Ends target_id generation s h =
      returning-Ends
        (λ check calls. Good calls × (calls ≡ checked target_id generation check ∷ s.calls))
        (λ e calls. Grounded options calls) (checked target_id generation) _ s
        (λ check. ((h.0, more _ _ h.1), refl)) (λ e. h.0)

  pub apply_live-Ends :
      (scope : SnapshotScope) (live : NormalizedTarget) (s : Logged W Call)
      → Good s.calls
      → Ends
          (λ r s'. Good s'.calls)
          Fine
          (apply_live with_whom codec digest options now scope live s)
  unfolding apply_live
  apply_live-Ends scope live s h =
      Ends-lift_bind _ _ _ _ s (λ e. h.0)
        (λ source made.
          Ends-turn (λ r s'. Good s'.calls × (s'.calls ≡ reconciled r ∷ s.calls))
            (λ r s'. Good s'.calls) Fine Fine
            (ask_reconcile with_whom (with_observation now live) source now s) (λ r s' q. q.0)
            (λ e s' q. q) (ask_reconcile-Ends (with_observation now live) source s h))

  confirm_state-Ends :
      (t : NormalizedTarget) (o : Option TargetState) (s : Logged W Call)
      → Good s.calls
      → Ends (λ u s'. Good s'.calls) Fine (confirm_state with_whom codec digest options now t o s)
  confirm_state-Ends t none s h = Ends-pure _ _ tt s h
  confirm_state-Ends t (some state) s h =
      Ends-when _ _ _ _ _ s
        (λ e.
          Ends-bind (λ r s'. Good s'.calls) _ Fine _ _ s (ask_confirm-Ends state t s h)
            (λ r s' q. Ends-pure _ _ tt s' q))
        (λ e. Ends-pure _ _ tt s h)

  by_live-Ends :
      (scope : SnapshotScope) (t : NormalizedTarget) (state : TargetState) (check : OwnershipCheck)
      (o : Option NormalizedTarget) (s : Logged W Call)
      → Good s.calls
      → Ends
          (λ a s'. Good s'.calls)
          Fine
          (by_live with_whom codec digest options now scope t state check o s)
  by_live-Ends scope t state check (some live) s h =
      Ends-bind (λ r s'. Good s'.calls) _ Fine _ _ s (apply_live-Ends scope live s h)
        (λ r s₁ h₁.
          Ends-bind (λ u s'. Good s'.calls) _ Fine _ _ s₁ (confirm_state-Ends t r.state s₁ h₁)
            (λ u s₂ h₂. Ends-pure _ _ r.action s₂ h₂))
  by_live-Ends scope t state check none s h =
      Ends-when _ _ _ _ _ s
        (λ e.
          Ends-bind (λ r s'. Good s'.calls) _ Fine _ _ s (ask_confirm-Ends state t s h)
            (λ r s' q. Ends-pure _ _ r.action s' q))
        (λ e. Ends-pure _ _ ReconcileAction.noop s h)

  after_check-Ends :
      (scope : SnapshotScope) (source : EventSource) (t : NormalizedTarget) (state : TargetState)
      (check : OwnershipCheck) (s : Logged W Call)
      → Good s.calls
      → (gone check.verdict ≡ true → MayRemove options state s.calls)
      → Ends
          (λ a s'. Good s'.calls)
          Fine
          (after_check with_whom codec digest options now scope source t state check s)
  unfolding after_check
  after_check-Ends scope source t state check s h may =
      Ends-when _ _ _ _ _ s
        (λ e.
          Ends-bind (λ r s'. Good s'.calls) _ Fine _ _ s (ask_remove-Ends state source s h (may e))
            (λ r s' q. Ends-pure _ _ r.action s' q))
        (λ e. by_live-Ends scope t state check (live_target check) s h)

  -- The tally has the same observed targets.
  abbrev pub Same : Tally → Tally → Type 0
  Same c c' = c'.observed_ids ≡ c.observed_ids

  by_result-Ends :
      (scope : SnapshotScope) (source : EventSource) (t : NormalizedTarget) (c : Tally)
      (a : ReconcileAction) (o : Option TargetState) (s : Logged W Call)
      → Good s.calls
      → ((state : TargetState) → o ≡ some state → IsDoubted options state s.calls)
      → Ends
          (λ c' s'. Good s'.calls × Same c c')
          Fine
          (by_result with_whom codec digest options now scope source t c a o s)
  by_result-Ends scope source t c a none s h doubted =
      Ends-looked_up _ _ (count_action a c) s (λ c' e. (h, count_action-observed_ids a c e))
        (λ e k. h.0)
  by_result-Ends scope source t c a (some state) s h doubted =
      Ends-bind
        (λ check s'.
          Good s'.calls × (s'.calls ≡ checked state.target_id state.generation check ∷ s.calls))
        _ Fine _ _ s (validate-Ends state.target_id state.generation s h)
        (λ check s₁ h₁.
          Ends-bind (λ a s'. Good s'.calls) _ Fine _ _ s₁
            (after_check-Ends scope source t state check s₁ h₁.0
              (λ e. rw h₁.1 (refl, refl, e, inl (doubted state refl))))
            (λ after s₂ h₂.
              Ends-looked_up _ _ (count_action after _) s₂
                (λ c' e. (h₂, count_action-observed_ids after _ e)) (λ e k. h₂.0)))

  apply_observed-Ends :
      (scope : SnapshotScope) (source : EventSource) (raw : NormalizedTarget) (c : Tally)
      (s : Logged W Call)
      → Good s.calls
      → Ends
          (λ c' s'. Good s'.calls × (c'.observed_ids ≡ target_id_of raw ∷ c.observed_ids))
          Fine
          (apply_observed with_whom codec digest options now scope source raw c s)
  unfolding apply_observed
  apply_observed-Ends scope source raw c s h =
      Ends-lift_bind _ _ _ _ s (λ e. h.0)
        (λ target_source made.
          Ends-bind (λ r s'. Good s'.calls × (s'.calls ≡ reconciled r ∷ s.calls)) _ Fine _ _ s
            (ask_reconcile-Ends _ target_source s h)
            (λ r s₁ h₁.
              by_result-Ends scope source _ _ r.action (to_revalidate r) s₁ h₁.0
                (λ state e. (r, rw h₁.1 mem-cons_self, e))))
