-- ===== src/Inventory/Store/Rounds.antt =====
-- `reconcile` keeps the generation fence (state.py).
use portscanner.Prelude.{
  ℕ, zero, suc, ◌≤◌, ◌≡◌, refl, sym, ap, ◌∙◌, inl, inr, Bool, true, false, Option, none, some,
  arith, Bool-cases, leb, max,
}
use portscanner.Prelude.Text.{Text}
use portscanner.Prelude.Exec.{
  Exec, Preserves, Preserves-lift_bind, Preserves-pure, Preserves-lift, Preserves-when,
  Preserves-attempt, Preserves-bind, pure,
}
use portscanner.Prelude.Result.{ok, ok_inj}
use portscanner.Inventory.Error.{StateError}
use portscanner.Inventory.Target.{
  NormalizedTarget, Codec, config_observation_order, ObservationOrder, advances, not_newer, mixed,
}
use portscanner.Inventory.Event.{EventSource, OutboxEvent, Contract}
use portscanner.Inventory.Store.{TargetState, ReconcileResult, StateItem, StateTable, StateConfig}
use portscanner.Inventory.Store.Moves.{IsStateTable}
use portscanner.Inventory.Store.Fence.{
  Follows, FollowsAny, Moved, get-Preserves, write_both-Preserves, write_only-Preserves,
  on_race-Preserves, then_ok-ok,
}
use portscanner.Inventory.Store.Reconcile.{
  Judged, settled, going, by_order, judge_observed, judge_previous, refreshed, refresh,
  advanced_state, advance_with, advance, write_judged, reconcile_once, or_again, reconcile_rounds,
  reconcile,
}

max-time : (observed_at b : ℕ) {at : ℕ} → max observed_at b ≡ at → b ≤ at
max-time observed_at b e = omega (arith, e)

-- The time of a state to write is not before the previous one.
judge_observed-time :
    (is_config : Bool) (incoming : NormalizedTarget) (observed_at : ℕ) (p : TargetState) (b : ℕ)
    (x : NormalizedTarget) (at : ℕ)
    → judge_observed is_config incoming observed_at p (some b) ≡ ok (going x at)
    → b ≤ at
unfolding judge_observed
judge_observed-time true incoming observed_at p b x at h =
    let (order, e, made) = then_ok-ok (config_observation_order incoming p.target) _ h in
    by_order-time order (ok_inj made)
  where
    by_order-time :
        (order : ObservationOrder)
        → by_order order p incoming (max observed_at b) ≡ going x at
        → b ≤ at
    by_order-time advances e = max-time observed_at b (cc)
    by_order-time not_newer e = absurd (cc)
    by_order-time mixed e = absurd (cc)
judge_observed-time false incoming observed_at p b x at h = elim (Bool-cases (leb observed_at b)) [
  | inl e ↦ absurd (cc (ok_inj (rw e at h)))
  | inr e ↦ max-time observed_at b (cc (ok_inj (rw e at h)))
]

judge_previous-time :
    (is_config : Bool) (incoming : NormalizedTarget) (observed_at : ℕ) (p : TargetState) (b : ℕ)
    (x : NormalizedTarget) (at : ℕ)
    → judge_previous is_config incoming observed_at (some p) ≡ ok (going x at)
    → p.observed_at ≡ some b
    → b ≤ at
unfolding judge_previous
judge_previous-time is_config incoming observed_at p b x at h e =
    judge_observed-time is_config incoming observed_at p b x at
      (sym (ap (λ o. judge_observed is_config incoming observed_at p o) e) ∙ h)

module _ {W : Type 0} {table : StateTable W} (t : IsStateTable table) (k : Text)
    (before : Option StateItem) where
  abbrev Kept : W → Type 0
  Kept w = Moved t k before w

  module _ (codec : Codec) (config : StateConfig) where
    refreshed-Follows :
        (p : TargetState) (incoming : NormalizedTarget) (at : ℕ)
        → ((b : ℕ) → p.observed_at ≡ some b → b ≤ at)
        → Follows p (refreshed codec p incoming at)
    unfolding refreshed
    refreshed-Follows p incoming at h = record {
      generations = inl (refl, refl);
      times = λ b e. (at, refl, h b e);
    }

    refresh-Preserves :
        (p : TargetState) (incoming : NormalizedTarget) (at now : ℕ)
        → ((b : ℕ) → p.observed_at ≡ some b → b ≤ at)
        → Preserves Kept (refresh table codec config p incoming at now)
    unfolding refresh
    refresh-Preserves p incoming at now h =
        Preserves-attempt _ _
          (Preserves-bind _ _
            (write_only-Preserves t k before codec config (refreshed codec p incoming at) now p
              (refreshed-Follows p incoming at h))
            (λ u. Preserves-pure _))
          (λ e. on_race-Preserves t k before codec config (pure none) e (Preserves-pure none))

    module _ (contract : Contract) where
      advanced-Follows :
          (incoming : NormalizedTarget) (event : OutboxEvent) (previous : Option TargetState)
          (at : ℕ)
          → ((p : TargetState) (b : ℕ) → previous ≡ some p → p.observed_at ≡ some b → b ≤ at)
          → FollowsAny previous
              (advanced_state table codec config contract incoming event previous at)
      advanced-Follows incoming event none at h = refl
      advanced-Follows incoming event (some p) at h = record {
        generations = inr refl;
        times = λ b e. (at, refl, h p b refl e);
      }

      advance_with-Preserves :
          (event : OutboxEvent) (incoming : NormalizedTarget) (previous : Option TargetState)
          (at now : ℕ)
          → ((p : TargetState) (b : ℕ) → previous ≡ some p → p.observed_at ≡ some b → b ≤ at)
          → Preserves Kept (advance_with table codec config contract event incoming previous at now)
      unfolding advance_with
      advance_with-Preserves event incoming previous at now h =
          Preserves-attempt _ _
            (Preserves-bind _ _
              (write_both-Preserves t k before codec config _ event now previous
                (advanced-Follows incoming event previous at h))
              (λ u. Preserves-pure _))
            (λ e. on_race-Preserves t k before codec config (pure none) e (Preserves-pure none))

      advance-Preserves :
          (source : EventSource) (incoming : NormalizedTarget) (previous : Option TargetState)
          (at now : ℕ)
          → ((p : TargetState) (b : ℕ) → previous ≡ some p → p.observed_at ≡ some b → b ≤ at)
          → Preserves Kept (advance table codec config contract source incoming previous at now)
      unfolding advance
      advance-Preserves source incoming previous at now h =
          Preserves-bind _ _ (Preserves-lift _)
            (λ event. advance_with-Preserves event incoming previous at now h)

      write_judged-Preserves :
          (source : EventSource) (now : ℕ) (previous : Option TargetState) (j : Judged)
          → ((p : TargetState) (b : ℕ) (incoming : NormalizedTarget) (at : ℕ)
              → j ≡ going incoming at
              → previous ≡ some p
              → p.observed_at ≡ some b
              → b ≤ at)
          → Preserves Kept (write_judged table codec config contract source now previous j)
      unfolding write_judged
      write_judged-Preserves source now previous (settled r) h = Preserves-pure _
      write_judged-Preserves source now none (going incoming at) h =
          advance-Preserves source incoming none at now (λ p b e. absurd (cc))
      write_judged-Preserves source now (some p) (going incoming at) h =
          Preserves-bind _ _ (Preserves-lift _) (λ x.
            Preserves-when _ _ _
              (refresh-Preserves p x at now (λ b e. h p b incoming at refl refl e))
              (advance-Preserves source x (some p) at now (λ q b e o. h q b incoming at refl e o)))

      reconcile_once-Preserves :
          (is_config : Bool) (incoming : NormalizedTarget) (observed_at : ℕ) (source : EventSource)
          (now : ℕ)
          → Preserves Kept
              (reconcile_once table codec config contract is_config incoming observed_at source now)
      unfolding reconcile_once
      reconcile_once-Preserves is_config incoming observed_at source now =
          Preserves-bind _ _ (get-Preserves t k before codec config _) (λ previous.
            Preserves-lift_bind (judge_previous is_config incoming observed_at previous) _ (λ j hj.
              write_judged-Preserves source now previous j (λ p b x at e f o.
                judge_previous-time is_config incoming observed_at p b x at (rw (f, e) at hj) o)))

      reconcile_rounds-Preserves :
          (n : ℕ) (is_config : Bool) (incoming : NormalizedTarget) (observed_at : ℕ)
          (source : EventSource) (now : ℕ)
          → Preserves Kept (
              reconcile_rounds table codec config contract n is_config incoming observed_at source
                now)
      unfolding reconcile_rounds
      reconcile_rounds-Preserves zero is_config incoming observed_at source now =
          Preserves-bind _ _ (get-Preserves t k before codec config _) (λ s. Preserves-pure _)
      reconcile_rounds-Preserves (suc n) is_config incoming observed_at source now =
          Preserves-bind _ _ (reconcile_once-Preserves is_config incoming observed_at source now)
            (λ r.
              or_again-Preserves _ r
                (reconcile_rounds-Preserves n is_config incoming observed_at source now))
        where
          or_again-Preserves :
              (again : Exec W StateError ReconcileResult) (r : Option ReconcileResult)
              → Preserves Kept again
              → Preserves Kept (or_again table codec config contract again r)
          or_again-Preserves again (some r) h = Preserves-pure r
          or_again-Preserves again none h = h

      -- `reconcile` moves the state of every target only by the allowed writes, its own and those of other
      -- workers, also when it raises.
      pub reconcile-Preserves :
          (incoming : NormalizedTarget) (source : EventSource) (now : ℕ)
          → Preserves Kept (reconcile table codec config contract incoming source now)
      unfolding reconcile
      reconcile-Preserves incoming source now = reconcile_rounds-Preserves _ _ _ _ source now
