-- ===== src/Inventory/Store/Removal.antt =====
-- The other operations keep the generation fence (state.py, `remove`, `enqueue_coverage`,
-- `confirm_config_versions`).
use portscanner.Prelude.{
  ℕ, ◌≤◌, ◌≡◌, refl, sym, ap, ◌∙◌, inl, inr, Bool, true, false, Option, none, some, arith,
  Bool-cases,
}
use portscanner.Prelude.Text.{Text}
use portscanner.Prelude.Exec.{
  Exec, Preserves, Preserves-lift_bind, Preserves-pure, Preserves-lift, Preserves-when,
  Preserves-attempt, Preserves-bind, pure, ◌>>=◌, when◌run◌otherwise◌,
}
use portscanner.Prelude.Result.{ok, ok_inj}
use portscanner.Inventory.Error.{StateError}
use portscanner.Inventory.Target.{NormalizedTarget, Codec, config_observation_order}
use portscanner.Inventory.Event.{EventSource, OutboxEvent, Contract}
use portscanner.Inventory.Store.{TargetState, ReconcileResult, StateItem, StateTable, StateConfig}
use portscanner.Inventory.Store.Moves.{IsStateTable}
use portscanner.Inventory.Store.Fence.{
  Follows, Moved, get-Preserves, transact-Preserves, write_both-Preserves, write_only-Preserves,
  on_race-Preserves, then_ok-ok,
}
use portscanner.Inventory.Store.Reconcile.{get}
use portscanner.Inventory.Store.Operations.{
  removed_state, remove_with, not_after_observed, remove_current, or_race, remove, enqueue_with,
  enqueue_current, enqueue_coverage, confirmed, newer_versions, confirm_with, confirm_at,
  confirm_config_versions,
}

module _ {W : Type 0} {table : StateTable W} (t : IsStateTable table) (k : Text)
    (before : Option StateItem) (codec : Codec) (config : StateConfig) where
  abbrev Kept : W → Type 0
  Kept w = Moved t k before w

  -- The state that a lost race is reported with.
  report-Preserves :
      (key : Text) (f : Option TargetState → ReconcileResult)
      → Preserves Kept (get table codec config key >>= λ latest. pure (f latest))
  report-Preserves key f =
      Preserves-bind _ _ (get-Preserves t k before codec config key)
        (λ latest. Preserves-pure (f latest))

  module _ (contract : Contract) where
    newer-time :
        (at : ℕ) (o : Option ℕ) {b : ℕ}
        → not_after_observed table codec config contract at o ≡ false
        → o ≡ some b
        → b ≤ at
    newer-time at none h e = absurd (cc)
    newer-time at (some c) {b} h e = let same : c ≡ b = cc in rw (← same) (ground arith)

    removed-Follows :
        (p : TargetState) (at : ℕ)
        → not_after_observed table codec config contract at p.observed_at ≡ false
        → Follows p (removed_state table codec config contract p at)
    removed-Follows p at h = record {
      generations = inr refl;
      times = λ b e. (at, refl, newer-time at p.observed_at h e);
    }

    remove_with-Preserves :
        (event : OutboxEvent) (current : TargetState) (source : EventSource) (now : ℕ)
        → not_after_observed table codec config contract source.observed_at current.observed_at
          ≡ false
        → Preserves Kept (remove_with table codec config contract event current source now)
    unfolding remove_with
    remove_with-Preserves event current source now h =
        Preserves-attempt _ _
          (Preserves-bind _ _
            (write_both-Preserves t k before codec config _ event now (some current)
              (removed-Follows current source.observed_at h))
            (λ u. Preserves-pure _))
          (λ e.
            on_race-Preserves t k before codec config _ e (report-Preserves current.target_id _))

    remove_current-Preserves :
        (current : TargetState) (source : EventSource) (now : ℕ)
        → Preserves Kept (remove_current table codec config contract current source now)
    unfolding remove_current
    remove_current-Preserves current source now =
        elim (Bool-cases
          (not_after_observed table codec config contract source.observed_at current.observed_at)) [
            | inl old ↦ rw old (unfold when◌run◌otherwise◌ in Preserves-pure _)
            | inr new ↦ rw new (
                unfold when◌run◌otherwise◌ in
                Preserves-bind _ _ (Preserves-lift _)
                  (λ event. remove_with-Preserves event current source now new))
          ]

    or_race-Preserves :
        (b : Bool) (found : Option TargetState)
        (f : TargetState → Exec W StateError ReconcileResult)
        → ((s : TargetState) → Preserves Kept (f s))
        → Preserves Kept (or_race table codec config contract b found f)
    or_race-Preserves true (some s) f h = h s
    or_race-Preserves true none f h = Preserves-pure _
    or_race-Preserves false found f h = Preserves-pure _

    -- `remove` moves the state of every target only by the allowed writes, its own and those of other
    -- workers, also when it raises.
    pub remove-Preserves :
        (expected : TargetState) (source : EventSource) (now : ℕ)
        → Preserves Kept (remove table codec config contract expected source now)
    unfolding remove
    remove-Preserves expected source now =
        Preserves-bind _ _ (get-Preserves t k before codec config expected.target_id)
          (λ current. or_race-Preserves _ current _ (λ s. remove_current-Preserves s source now))

    enqueue_with-Preserves :
        (event : OutboxEvent) (expected current : TargetState) (now : ℕ)
        → Preserves Kept (enqueue_with table codec config contract event expected current now)
    unfolding enqueue_with
    enqueue_with-Preserves event expected current now =
        Preserves-attempt _ _
          (Preserves-bind _ _ (transact-Preserves t k before _ (λ key q i found e. absurd (cc)))
            (λ u. Preserves-pure _))
          (λ e.
            on_race-Preserves t k before codec config _ e (report-Preserves expected.target_id _))

    pub enqueue_coverage-Preserves :
        (expected : TargetState) (source : EventSource) (now : ℕ)
        → Preserves Kept (enqueue_coverage table codec config contract expected source now)
    unfolding enqueue_coverage enqueue_current
    enqueue_coverage-Preserves expected source now =
        Preserves-bind _ _ (get-Preserves t k before codec config expected.target_id) (λ current.
          or_race-Preserves _ current _ (λ s.
            Preserves-bind _ _ (Preserves-lift _)
              (λ event. enqueue_with-Preserves event expected s now)))

  confirmed-Follows :
      (expected : TargetState) (observation : NormalizedTarget) (at : ℕ) (s : TargetState)
      → confirmed table codec config expected observation at ≡ ok s
      → Follows expected s
  unfolding confirmed
  confirmed-Follows expected observation at s h =
      let (order, e, h₁) = then_ok-ok (config_observation_order observation expected.target) _ h in
      let (versions, f, h₂) = then_ok-ok (newer_versions table codec config _ _ _) _ h₁ in
      let same = sym (ok_inj h₂) in
      record {
        generations = inl (ap (λ x. x.generation) same, ap (λ x. x.status) same);
        times = λ b o. (b, ap (λ x. x.observed_at) same ∙ o, omega arith);
      }

  confirm_with-Preserves :
      (expected : TargetState) (now : ℕ) (s : TargetState)
      → Follows expected s
      → Preserves Kept (confirm_with table codec config expected now s)
  unfolding confirm_with
  confirm_with-Preserves expected now s h =
      Preserves-attempt _ _
        (Preserves-bind _ _ (write_only-Preserves t k before codec config s now expected h)
          (λ u. Preserves-pure _))
        (λ e. on_race-Preserves t k before codec config _ e (report-Preserves expected.target_id _))

  confirm_at-Preserves :
      (expected : TargetState) (observation : NormalizedTarget) (now : ℕ) (at : Option ℕ)
      → Preserves Kept (confirm_at table codec config expected observation now at)
  unfolding confirm_at
  confirm_at-Preserves expected observation now none = Preserves-pure _
  confirm_at-Preserves expected observation now (some at) =
      Preserves-lift_bind (confirmed table codec config expected observation at) _ (λ s h.
        confirm_with-Preserves expected now s (confirmed-Follows expected observation at s h))

  -- `confirm_config_versions` moves the state of every target only by the allowed writes, its own and
  -- those of other workers, also when it raises.
  pub confirm_config_versions-Preserves :
      (expected : TargetState) (observation : NormalizedTarget) (now : ℕ)
      → Preserves Kept (confirm_config_versions table codec config expected observation now)
  unfolding confirm_config_versions
  confirm_config_versions-Preserves expected observation now =
      Preserves-when _ _ _ (Preserves-pure _) (confirm_at-Preserves expected observation now _)
