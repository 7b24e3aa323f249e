-- ===== src/Inventory/Store/Announce.antt =====
-- A result of `reconcile` with an event tells of a state that the table holds (state.py).
use portscanner.Prelude.{
  ℕ, zero, suc, ◌≡◌, refl, sym, ap, ◌∙◌, Bool, true, false, Option, none, some, Bool-cases, inl,
  inr, leb, if◌then◌else◌, max,
}
use portscanner.Prelude.Exec.{
  Exec, Ends, Ends-attempt, Ends-of, Ends-ok, Ends-bind, Ends-any, Ends-lift, Ends-when, pure,
  raise, lift,
}
use portscanner.Prelude.Result.{ok, ok_inj}
use portscanner.Inventory.Error.{StateError, condition_failure}
use portscanner.Inventory.Target.{
  NormalizedTarget, Codec, config_observation_order, ObservationOrder, advances, not_newer, mixed,
  target_id_of,
}
use portscanner.Inventory.Event.{EventSource, OutboxEvent, Contract}
use portscanner.Inventory.Store.{
  TargetState, ReconcileResult, StateItem, put_both, StateTable, StateConfig, active, state_item,
  condition_of, result_of, with_event, is_active, ReconcileAction, noop, race, revalidate, changed,
  added,
}
use portscanner.Inventory.Store.Moves.{IsStateTable}
use portscanner.Inventory.Store.Fence.{then_ok-ok, state_item-fields}
use portscanner.Inventory.Store.Reconcile.{
  Judged, settled, going, by_order, judge_observed, judge_previous, is_unchanged, refreshed, get,
  write_state_and_outbox, write_state_only, on_race, refresh, advanced_state, advance_with, advance,
  outbox_item, lifecycle_kept, write_judged, reconcile_once, or_again, reconcile_rounds, reconcile,
}

judge_observed-silent :
    (is_config : Bool) (x : NormalizedTarget) (observed_at : ℕ) (p : TargetState)
    (before : Option ℕ) (r : ReconcileResult)
    → judge_observed is_config x observed_at p before ≡ ok (settled r)
    → r.event ≡ none
unfolding judge_observed
judge_observed-silent is_config x observed_at p none r h = absurd (cc (ok_inj h))
judge_observed-silent true x observed_at p (some b) r h =
    let (order, e, made) = then_ok-ok (config_observation_order x p.target) _ h in
    by_order-silent order (ok_inj made)
  where
    by_order-silent :
        (order : ObservationOrder)
        → by_order order p x (max observed_at b) ≡ settled r
        → r.event ≡ none
    by_order-silent advances e = absurd (cc)
    by_order-silent not_newer e =
        let same : result_of noop (some p) ≡ r = cc in ap (λ y. y.event) (sym same)
    by_order-silent mixed e =
        let same : result_of revalidate (some p) ≡ r = cc in ap (λ y. y.event) (sym same)
judge_observed-silent false x observed_at p (some b) r h = elim (Bool-cases (leb observed_at b)) [
  | inl e ↦
      let same : result_of noop (some p) ≡ r = cc (ok_inj (rw e at h)) in
      ap (λ y. y.event) (sym same)
  | inr e ↦ absurd (cc (ok_inj (rw e at h)))
]

judge_previous-silent :
    (is_config : Bool) (x : NormalizedTarget) (observed_at : ℕ) (previous : Option TargetState)
    (r : ReconcileResult)
    → judge_previous is_config x observed_at previous ≡ ok (settled r)
    → r.event ≡ none
unfolding judge_previous
judge_previous-silent is_config x observed_at none r h = absurd (cc (ok_inj h))
judge_previous-silent is_config x observed_at (some p) r h =
    judge_observed-silent is_config x observed_at p p.observed_at r h

module _ {W : Type 0} {table : StateTable W} (t : IsStateTable table) (codec : Codec)
    (config : StateConfig) where
  -- The table holds the state of the result: active, in its generation.
  pub record Holds (r : ReconcileResult) (w : W) : Type 0 where
    pub told : TargetState
    pub held : StateItem
    pub reported : r.state ≡ some told
    pub stored_as : table.state w told.target_id ≡ some held
    pub same_generation : held.generation ≡ told.generation
    pub is_active_now : held.status ≡ active

  abbrev Announces : ReconcileResult → W → Type 0
  Announces r w = (e : OutboxEvent) → r.event ≡ some e → Holds r w

  abbrev AnnouncesIfAny : Option ReconcileResult → W → Type 0
  AnnouncesIfAny none w = Unit
  AnnouncesIfAny (some r) w = Announces r w

  abbrev Anything : StateError → W → Type 0
  Anything e w = Unit

  silent : (r : ReconcileResult) (w : W) → r.event ≡ none → Announces r w
  silent r w h e k = absurd (cc)

  pure-silent :
      (r : ReconcileResult) (w : W)
      → r.event ≡ none
      → Ends AnnouncesIfAny Anything (pure (some r) w)
  unfolding pure
  pure-silent r w h = silent r w h

  told-Ends :
      (action : ReconcileAction) (s : TargetState) (event : OutboxEvent) (w : W)
      → (i : StateItem) × (table.state w s.target_id ≡ some i)
        × (i.generation ≡ s.generation)
        × (i.status ≡ active)
      → Ends AnnouncesIfAny Anything (pure (some (with_event action s event)) w)
  unfolding pure
  told-Ends action s event w h = λ e k. record {
    told = s;
    held = h.0;
    reported = refl;
    stored_as = h.1;
    same_generation = h.2;
    is_active_now = h.3;
  }

  on_race-Ends :
      (e : StateError) (w : W)
      → Ends AnnouncesIfAny Anything (on_race table codec config (pure none) e w)
  unfolding on_race pure raise
  on_race-Ends e w =
      Ends-when AnnouncesIfAny Anything (condition_failure e) _ _ w (λ c. tt) (λ c. tt)

  refresh-Ends :
      (p : TargetState) (x : NormalizedTarget) (at now : ℕ) (w : W)
      → Ends AnnouncesIfAny Anything (refresh table codec config p x at now w)
  unfolding refresh
  refresh-Ends p x at now w =
      Ends-attempt AnnouncesIfAny Anything Anything _ _ w
        (Ends-bind (λ u w'. Unit) AnnouncesIfAny Anything
          (write_state_only table codec config _ now p) _ w (Ends-any _)
          (λ u w' h. pure-silent (result_of noop (some (refreshed codec p x at))) w' refl))
        (λ e w' u. on_race-Ends e w')

  module _ (contract : Contract) where
    write_both-Ends :
        (x : NormalizedTarget) (event : OutboxEvent) (previous : Option TargetState) (at now : ℕ)
        (w : W)
        → let s = advanced_state table codec config contract x event previous at in
          Ends
            (λ u w'.
              (i : StateItem) × (table.state w' s.target_id ≡ some i)
              × (i.generation ≡ s.generation)
              × (i.status ≡ s.status))
            Anything
            (write_state_and_outbox table codec config s event now previous w)
    unfolding write_state_and_outbox
    write_both-Ends x event previous at now w =
        let s = advanced_state table codec config contract x event previous at in
        let Goal : Unit {0} → W → Type 0 = λ u w'.
          (i : StateItem) × (table.state w' s.target_id ≡ some i)
          × (i.generation ≡ s.generation)
          × (i.status ≡ s.status) in
        Ends-bind (λ c w'. condition_of codec previous ≡ ok c) Goal Anything
          (lift (condition_of codec previous)) _ w
          (Ends-lift (λ c w'. condition_of codec previous ≡ ok c) (condition_of codec previous) w
            (λ c e. e))
          (λ c w₁ hc.
            Ends-bind (λ i w'. state_item codec s now ≡ ok i) Goal Anything
              (lift (state_item codec s now)) _ w₁
              (Ends-lift (λ i w'. state_item codec s now ≡ ok i) (state_item codec s now) w₁
                (λ i e. e))
              (λ i w₂ hi.
                let (generation, status, times) = state_item-fields codec s now i hi in
                Ends-of Goal Anything
                  (table.transact
                    (put_both s.target_id c i (outbox_item table codec config event x now)) w₂)
                  (λ u e. (i, t.transact_done _ s.target_id c i w₂ refl e, generation, status))
                  (λ e h. tt)))

    advance_with-Ends :
        (event : OutboxEvent) (x : NormalizedTarget) (previous : Option TargetState) (at now : ℕ)
        (w : W)
        → Ends AnnouncesIfAny Anything
            (advance_with table codec config contract event x previous at now w)
    unfolding advance_with
    advance_with-Ends event x previous at now w =
        let s = advanced_state table codec config contract x event previous at in
        let Wrote : Unit {0} → W → Type 0 = λ u w'.
          (i : StateItem) × (table.state w' s.target_id ≡ some i)
          × (i.generation ≡ s.generation)
          × (i.status ≡ s.status) in
        Ends-attempt AnnouncesIfAny Anything Anything _ _ w
          (Ends-bind Wrote AnnouncesIfAny Anything
            (write_state_and_outbox table codec config s event now previous) _ w
            (write_both-Ends x event previous at now w)
            (λ u w' h. told-Ends (if is_active previous then changed else added) s event w' h))
          (λ e w' u. on_race-Ends e w')

    advance-Ends :
        (source : EventSource) (x : NormalizedTarget) (previous : Option TargetState) (at now : ℕ)
        (w : W)
        → Ends AnnouncesIfAny Anything
            (advance table codec config contract source x previous at now w)
    unfolding advance
    advance-Ends source x previous at now w =
        Ends-bind (λ e w'. Unit) AnnouncesIfAny Anything (lift _) _ w (Ends-any _)
          (λ event w' u. advance_with-Ends event x previous at now w')

    write_judged-Ends :
        (source : EventSource) (now : ℕ) (previous : Option TargetState) (j : Judged) (w : W)
        → ((r : ReconcileResult) → j ≡ settled r → r.event ≡ none)
        → Ends AnnouncesIfAny Anything
            (write_judged table codec config contract source now previous j w)
    unfolding write_judged
    write_judged-Ends source now previous (settled r) w h = pure-silent r w (h r refl)
    write_judged-Ends source now none (going x at) w h = advance-Ends source x none at now w
    write_judged-Ends source now (some p) (going x at) w h =
        Ends-bind (λ y w'. Unit) AnnouncesIfAny Anything (lift (lifecycle_kept codec x (some p))) _
          w (Ends-any _)
          (λ y w' u.
            Ends-when AnnouncesIfAny Anything (is_unchanged codec (some p) y) _ _ w'
              (λ same. refresh-Ends p y at now w')
              (λ other. advance-Ends source y (some p) at now w'))

    reconcile_once-Ends :
        (is_config : Bool) (x : NormalizedTarget) (observed_at : ℕ) (source : EventSource) (now : ℕ)
        (w : W)
        → Ends AnnouncesIfAny Anything
            (reconcile_once table codec config contract is_config x observed_at source now w)
    unfolding reconcile_once
    reconcile_once-Ends is_config x observed_at source now w =
        Ends-bind (λ p w'. Unit) AnnouncesIfAny Anything (get table codec config (target_id_of x)) _
          w (Ends-any _)
          (λ previous w₁ u.
            Ends-bind (λ j w'. judge_previous is_config x observed_at previous ≡ ok j)
              AnnouncesIfAny Anything (lift (judge_previous is_config x observed_at previous)) _ w₁
              (Ends-lift (λ j w'. judge_previous is_config x observed_at previous ≡ ok j)
                (judge_previous is_config x observed_at previous) w₁ (λ j e. e))
              (λ j w₂ hj.
                write_judged-Ends source now previous j w₂
                  (λ r e. judge_previous-silent is_config x observed_at previous r (hj ∙ ap ok e))))

    reconcile_rounds-Ends :
        (n : ℕ) (is_config : Bool) (x : NormalizedTarget) (observed_at : ℕ) (source : EventSource)
        (now : ℕ) (w : W)
        → Ends Announces Anything
            (reconcile_rounds table codec config contract n is_config x observed_at source now w)
    unfolding reconcile_rounds pure
    reconcile_rounds-Ends zero is_config x observed_at source now w =
        Ends-bind (λ p w'. Unit) Announces Anything (get table codec config (target_id_of x)) _ w
          (Ends-any _) (λ s w' u. silent (result_of race s) w' refl)
    reconcile_rounds-Ends (suc n) is_config x observed_at source now w =
        Ends-bind AnnouncesIfAny Announces Anything
          (reconcile_once table codec config contract is_config x observed_at source now) _ w
          (reconcile_once-Ends is_config x observed_at source now w)
          (λ r w' h.
            or_again-Ends
              (reconcile_rounds table codec config contract n is_config x observed_at source now) r
              w' h (reconcile_rounds-Ends n is_config x observed_at source now w'))
      where
        or_again-Ends :
            (again : Exec W StateError ReconcileResult) (r : Option ReconcileResult) (w : W)
            → AnnouncesIfAny r w
            → Ends Announces Anything (again w)
            → Ends Announces Anything (or_again table codec config contract again r w)
        or_again-Ends again (some r) w h k = h
        or_again-Ends again none w h k = k

    -- When `reconcile` returns a result with an event, the result has a state, and the table then holds
    -- that target's state as active, in the generation of the result.
    pub reconcile-Holds :
        (x : NormalizedTarget) (source : EventSource) (now : ℕ) (w : W) {r : ReconcileResult}
        (e : OutboxEvent)
        → (reconcile table codec config contract x source now w).0 ≡ ok r
        → r.event ≡ some e
        → Holds r (reconcile table codec config contract x source now w).1
    unfolding reconcile
    reconcile-Holds x source now w e h k =
        Ends-ok Announces Anything (reconcile table codec config contract x source now w)
          (reconcile_rounds-Ends _ _ _ _ source now w) h e k
