-- ===== src/Inventory/Rescan/Offered.antt =====
-- Which targets a rescan offers to the store, and what it counts (handlers/rescan.py, `emit_coverage`).
use portscanner.Prelude.{
  ℕ, suc, ◌+◌, ◌≤◌, ◌≢◌, arith, ◌≡◌, refl, ap, ◌∙◌, Option, none, some, List, [], ◌∷◌, length,
}
use portscanner.Prelude.Value.{Value}
use portscanner.Prelude.Exec.{Ends, Ends-bind, Ends-weaken}
use portscanner.Prelude.Exec.Steps.{Ends-pure, Ends-looked_up}
use portscanner.Prelude.Result.{Result, ok, err}
use portscanner.Prelude.Calls.{Logged, reporting-Ends}
use portscanner.Inventory.Error.{StateError}
use portscanner.Inventory.Event.{EventSource, OutboxEvent}
use portscanner.Inventory.Store.{
  ReconcileAction, added, changed, noop, removed, race, revalidate, TargetState, ReconcileResult,
}
use portscanner.Inventory.Rescan.{
  Call, listed, enqueued, Collaborators, Formats, Emitted, Answer, coverage_source, counted,
  count_result, ask_list, ask_enqueue, emit_each, emit_coverage,
}
use portscanner.Inventory.Rescan.Source.{IsSource, coverage_source-IsSource}

no_matter :
    {W A : Type 0} (P : A → Logged W Call → Type 0) (Q : StateError → Logged W Call → Type 0)
    (x : Result StateError A × Logged W Call)
    → Ends P Q x
    → Ends P (λ e s. Unit {0}) x
no_matter P Q (ok a, s) h = h
no_matter P Q (err e, s) h = tt

module _ (source : EventSource) (at : ℕ) where
  -- What a result counts for: an event, if it has one; else a race, if it is one; else nothing.
  pub data Counts (r : ReconcileResult) (c : Emitted) : Emitted → Type 0 where
    with_event :
        (event : OutboxEvent)
        → r.event ≡ some event
        → Counts r c (record { emitted = suc c.emitted; races = c.races })
    lost :
        r.event ≡ none
        → r.action ≡ race
        → Counts r c (record { emitted = c.emitted; races = suc c.races })
    neither : r.event ≡ none → r.action ≢ race → Counts r c c

  count_result-Counts : (r : ReconcileResult) (c : Emitted) → Counts r c (count_result r c)
  unfolding count_result
  count_result-Counts r c = by_event r.event refl
    where
      by_action :
          (a : ReconcileAction) → r.event ≡ none → r.action ≡ a → Counts r c (counted none a c)
      by_action race e k = lost e k
      by_action added e k = neither e (λ x. absurd (cc))
      by_action changed e k = neither e (λ x. absurd (cc))
      by_action noop e k = neither e (λ x. absurd (cc))
      by_action removed e k = neither e (λ x. absurd (cc))
      by_action revalidate e k = neither e (λ x. absurd (cc))

      by_event : (o : Option OutboxEvent) → r.event ≡ o → Counts r c (counted o r.action c)
      by_event (some event) e = with_event event e
      by_event none e = by_action r.action e refl

  -- The calls from `before` on: one for each target, in order, with the source and the time; and the
  -- counts, from the first ones on, of their results.
  abbrev pub Offered : List TargetState → Emitted → Emitted → List Call → List Call → Type 0
  Offered [] c last before after = (c ≡ last) × (before ≡ after)
  Offered (s ∷ ss) c last before after =
      (r : ReconcileResult) × (counts : Emitted) × Counts r c counts
      × Offered ss counts last (enqueued s source at (ok r) ∷ before) after

  Counts-le :
      (r : ReconcileResult) (c counts : Emitted)
      → Counts r c counts
      → counts.emitted + counts.races ≤ suc (c.emitted + c.races)
  Counts-le r c _ (with_event event e) = omega arith
  Counts-le r c _ (lost e k) = omega arith
  Counts-le r c _ (neither e k) = omega arith

  -- No target counts twice.
  Offered-le :
      (ss : List TargetState) (c last : Emitted) (before after : List Call)
      → Offered ss c last before after
      → last.emitted + last.races ≤ c.emitted + c.races + length ss
  Offered-le [] c last before after (same, e) = rw (← same) (omega arith)
  Offered-le (s ∷ ss) c last before after (r, counts, how, rest) =
      let later = Offered-le ss counts last _ after rest in
      let one = Counts-le r c counts how in omega arith

  module _ {W : Type 0} (with_whom : Collaborators W) where
    emit_each-Offered :
        (ss : List TargetState) (c : Emitted) (s : Logged W Call)
        → Ends
            (λ last s'. Offered ss c last s.calls s'.calls)
            (λ e s'. Unit {0})
            (emit_each with_whom source at ss c s)
    unfolding emit_each ask_enqueue
    emit_each-Offered [] c s = Ends-pure _ _ c s (refl, refl)
    emit_each-Offered (t ∷ ss) c s =
        Ends-bind (λ r s'. s'.calls ≡ enqueued t source at (ok r) ∷ s.calls)
          (λ last s'. Offered (t ∷ ss) c last s.calls s'.calls) (λ e s'. Unit {0}) _ _ s
          (no_matter (λ r s'. s'.calls ≡ enqueued t source at (ok r) ∷ s.calls)
            (λ e s'. s'.calls ≡ enqueued t source at (err e) ∷ s.calls)
            (ask_enqueue with_whom t source at s)
            (reporting-Ends (enqueued t source at) (with_whom.enqueue_coverage t source at) s))
          (λ r s₁ e.
            Ends-weaken (λ last s'. Offered ss (count_result r c) last s₁.calls s'.calls)
              (λ last s'. Offered (t ∷ ss) c last s.calls s'.calls) (λ e s'. Unit {0})
              (emit_each with_whom source at ss (count_result r c) s₁)
              (λ last s' h. (r, count_result r c, count_result-Counts r c, rw (← e) h))
              (emit_each-Offered ss (count_result r c) s₁))

-- What a rescan answers: the targets that were listed were offered with the source of the event, in
-- order, and the counts are of their results.
pub record Answered (formats : Formats) (now bucket_seconds : ℕ) (event : Value) (answer : Answer)
    (before after : List Call) : Type 0 where
  pub source : EventSource
  pub at : ℕ
  pub targets : List TargetState
  pub of_event : IsSource formats now bucket_seconds event source at
  pub offered :
      Offered source at targets
        (record { emitted = 0; races = 0 })
        (record { emitted = answer.events; races = answer.races })
        (listed (ok targets) ∷ before)
        after
  pub counted_once : answer.events + answer.races ≤ answer.targets
  pub all_counted : answer.targets ≡ length targets

module _ {W : Type 0} (with_whom : Collaborators W) (formats : Formats) (now bucket_seconds : ℕ)
    (event : Value) where
  -- Where a rescan answers, it has offered each target that is listed to the store, once and in
  -- order, with the source and the time that the event gives; an offer that the store answers with
  -- an event counts as an event, and one that was lost to another worker as a race; no target
  -- counts twice, and the number of targets is that of the list.
  pub emit_coverage-Answered :
      (s : Logged W Call)
      → Ends
          (λ answer s'. Answered formats now bucket_seconds event answer s.calls s'.calls)
          (λ e s'. Unit {0})
          (emit_coverage with_whom formats now bucket_seconds event s)
  unfolding emit_coverage ask_list
  emit_coverage-Answered s =
      Ends-bind
        (λ x s'. (coverage_source formats event now bucket_seconds ≡ ok x) × (s'.calls ≡ s.calls))
        (λ answer s'. Answered formats now bucket_seconds event answer s.calls s'.calls)
        (λ e s'. Unit {0}) _ _ s
        (Ends-looked_up _ (λ e s'. Unit {0}) (coverage_source formats event now bucket_seconds) s
          (λ x e. (e, refl)) (λ e k. tt))
        (λ x s₁ (of_event, same).
          Ends-bind (λ targets s'. s'.calls ≡ listed (ok targets) ∷ s₁.calls)
            (λ answer s'. Answered formats now bucket_seconds event answer s.calls s'.calls)
            (λ e s'. Unit {0}) _ _ s₁
            (no_matter (λ targets s'. s'.calls ≡ listed (ok targets) ∷ s₁.calls)
              (λ e s'. s'.calls ≡ listed (err e) ∷ s₁.calls) (ask_list with_whom s₁)
              (reporting-Ends listed with_whom.list_current s₁))
            (λ targets s₂ list.
              Ends-bind
                (λ last s'.
                  Offered x.0 x.1 targets (record { emitted = 0; races = 0 }) last s₂.calls
                    s'.calls)
                (λ answer s'. Answered formats now bucket_seconds event answer s.calls s'.calls)
                (λ e s'. Unit {0}) _ _ s₂
                (emit_each-Offered x.0 x.1 with_whom targets (record { emitted = 0; races = 0 }) s₂)
                (λ last s₃ h.
                  Ends-pure _ (λ e s'. Unit {0}) _ s₃
                    (record {
                      source = x.0;
                      at = x.1;
                      targets = targets;
                      of_event = coverage_source-IsSource formats now bucket_seconds event of_event;
                      offered = rw (← (list ∙ ap (λ cs. listed (ok targets) ∷ cs) same)) h;
                      counted_once =
                          let counts =
                            Offered-le x.0 x.1 targets (record { emitted = 0; races = 0 }) last
                              s₂.calls s₃.calls h in
                          omega arith;
                      all_counted = refl;
                    }))))
