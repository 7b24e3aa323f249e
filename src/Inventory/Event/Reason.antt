-- ===== src/Inventory/Event/Reason.antt =====
-- The plan of a target event (events.py, `build_target_event`).
use portscanner.Prelude.{
  ℕ, ◌<◌, ◌≡◌, refl, true, Option, none, some, arith, Bool-cases, inl, inr, ◌⊎◌, ◌↔◌,
}
use portscanner.Prelude.Result.{ok}
use portscanner.Inventory.Target.{NormalizedTarget, Codec}
use portscanner.Inventory.Event.{
  ScanReason, new_target, target_change, policy_change, coverage, manual, ScanPlan, plan_of,
  plan_target_event, reason_of_change, reason_is_allowed, policy_changed_since, state_changed_since,
}

-- The windows of every plan: the deadline is after the time of the event, and before its end.
plan_of-windows :
    (reason : ScanReason) (current : NormalizedTarget) (previous : Option NormalizedTarget)
    (now : ℕ)
    → let plan = plan_of reason current previous now in
      (plan.reason ≡ reason) × (now < plan.deadline_at) × (plan.deadline_at < plan.not_after)
unfolding plan_of
plan_of-windows new_target current previous now = (refl, omega arith, omega arith)
plan_of-windows target_change current previous now = (refl, omega arith, omega arith)
plan_of-windows policy_change current previous now = (refl, omega arith, omega arith)
plan_of-windows coverage current previous now = (refl, omega arith, omega arith)
plan_of-windows manual current previous now = (refl, omega arith, omega arith)

module _ (codec : Codec) (current : NormalizedTarget) (now : ℕ) where
  -- A target that is new or whose state signature has changed has a plan, without a given reason: no
  -- check of `build_target_event` fails. The plan is for a new target exactly when there was no previous
  -- state, it starts before its deadline, and its deadline is before its end.
  pub plan_target_event-total :
      (previous : Option NormalizedTarget)
      → (previous ≡ none) ⊎ (state_changed_since codec previous current ≡ true)
      → (plan : ScanPlan) × (plan_target_event codec current now previous none ≡ ok plan)
        × ((plan.reason ≡ new_target) ↔ (previous ≡ none))
        × (now < plan.deadline_at)
        × (plan.deadline_at < plan.not_after)
  unfolding plan_target_event reason_of_change reason_is_allowed policy_changed_since
      state_changed_since
  plan_target_event-total none h =
      let (same, starts, ends) = plan_of-windows new_target current none now in
      (plan_of new_target current none now, refl, (λ e. refl, λ e. same), starts, ends)
  plan_target_event-total (some previous) (inl e) = absurd (cc)
  plan_target_event-total (some previous) (inr differs) =
      elim (Bool-cases (policy_changed_since (some previous) current)) [
        | inl policy ↦
            let (same, starts, ends) = plan_of-windows policy_change current (some previous) now in
            (
              plan_of policy_change current (some previous) now,
              rw policy refl,
              (λ e. absurd (cc), λ e. absurd (cc)),
              starts,
              ends,
            )
        | inr kept ↦
            let (same, starts, ends) = plan_of-windows target_change current (some previous) now in
            (
              plan_of target_change current (some previous) now,
              rw (kept, differs) refl,
              (λ e. absurd (cc), λ e. absurd (cc)),
              starts,
              ends,
            )
      ]
