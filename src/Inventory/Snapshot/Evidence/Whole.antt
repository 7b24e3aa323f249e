-- ===== src/Inventory/Snapshot/Evidence/Whole.antt =====
-- A snapshot removes no state without grounds (handlers/snapshot.py, `reconcile_snapshot`).
use mathlib.Core.List.{Mem, mem-cons_of_mem, mem-cons_self}
use portscanner.Prelude.{
  ℕ, ◌≡◌, refl, inl, inr, Bool, true, false, ◌||◌, not, Option, none, some, List, [], ◌∷◌, map, any,
  arith, Bool-cases, &&-true,
}
use portscanner.Prelude.Text.{Text, text_eq}
use portscanner.Prelude.Exec.{Ends, Ends-bind, Ends-when, Ends-turn, Preserves}
use portscanner.Prelude.Exec.Steps.{Ends-pure, Ends-looked_up, Ends-lift_bind, Preserves-of_Ends}
use portscanner.Prelude.Calls.{Logged, returning-Ends}
use portscanner.Inventory.Error.{StateError}
use portscanner.Inventory.Target.{NormalizedTarget, Codec, target_id_of}
use portscanner.Inventory.Event.{EventSource}
use portscanner.Inventory.Store.{TargetState}
use portscanner.Inventory.Snapshot.{
  OwnershipCheck, SnapshotScope, SnapshotBatch, is_complete, SnapshotOptions, Collaborators, Call,
  collected, listed, checked, ask_collect, list_current,
}
use portscanner.Inventory.Snapshot.Reconciliation.{
  Tally, count_action, gone, live_target, selected, apply_all, or_live, absent_check, apply_absent,
  apply_absences, is_whole, apply_absences_if_whole, no_counts, reconcile_batch, reconcile_snapshot,
}
use portscanner.Inventory.Snapshot.Grounds.{MayRemove, Grounded}
use portscanner.Inventory.Snapshot.Evidence.{
  count_action-observed_ids, ask_remove-Ends, validate-Ends, apply_live-Ends, apply_observed-Ends,
}

-- Every target of the list was observed, and what was observed before.
abbrev Covers : List NormalizedTarget → Tally → Tally → Type 0
Covers ts c c' =
    (id : Text)
    → (any (text_eq id) (map target_id_of ts) || any (text_eq id) c.observed_ids) ≡ true
    → any (text_eq id) c'.observed_ids ≡ true

Covers-cons :
    (t : NormalizedTarget) (ts : List NormalizedTarget) (c c₁ c' : Tally)
    → c₁.observed_ids ≡ target_id_of t ∷ c.observed_ids
    → Covers ts c₁ c'
    → Covers (t ∷ ts) c c'
Covers-cons t ts c c₁ c' e h id k = h id (
    rw e (
      by_tests (text_eq id (target_id_of t)) (any (text_eq id) (map target_id_of ts))
        (any (text_eq id) c.observed_ids) k))
  where
    by_tests : (x y z : Bool) → ((x || y) || z) ≡ true → (y || (x || z)) ≡ true
    by_tests x y z k = ground arith

abbrev Unknown : List Call → Type 0
Unknown calls = Unit

module _ {W : Type 0} (with_whom : Collaborators W) (codec : Codec)
    (digest : Text → Text → ℕ → ℕ → Text) (options : SnapshotOptions) (now : ℕ)
    (b : SnapshotBatch) where
  abbrev Collected : List Call → Type 0
  Collected calls = Mem (collected b) calls

  abbrev Collected-more : (c : Call) (calls : List Call) → Collected calls → Collected (c ∷ calls)
  Collected-more c calls m = mem-cons_of_mem c m

  abbrev Raised : StateError → Logged W Call → Type 0
  Raised e s = Grounded options s.calls

  apply_all-Ends :
      (scope : SnapshotScope) (source : EventSource) (ts : List NormalizedTarget) (c : Tally)
      (s : Logged W Call)
      → Grounded options s.calls × Collected s.calls
      → Ends
          (λ c' s'. Grounded options s'.calls × Collected s'.calls × Covers ts c c')
          Raised
          (apply_all with_whom codec digest options now scope source ts c s)
  unfolding apply_all
  apply_all-Ends scope source [] c s h = Ends-pure _ _ c s (h.0, h.1, λ id k. k)
  apply_all-Ends scope source (t ∷ ts) c s h =
      Ends-bind
        (λ c' s'.
          (Grounded options s'.calls × Collected s'.calls)
          × (c'.observed_ids ≡ target_id_of t ∷ c.observed_ids))
        (λ c' s'. Grounded options s'.calls × Collected s'.calls × Covers (t ∷ ts) c c') Raised _ _
        s
        (apply_observed-Ends with_whom codec digest options now Collected Collected-more scope
          source t c s h)
        (λ c₁ s₁ h₁.
          Ends-turn (λ c' s'. Grounded options s'.calls × Collected s'.calls × Covers ts c₁ c')
            (λ c' s'. Grounded options s'.calls × Collected s'.calls × Covers (t ∷ ts) c c') Raised
            Raised (apply_all with_whom codec digest options now scope source ts c₁ s₁)
            (λ c' s' q. (q.0, q.1, Covers-cons t ts c c₁ c' h₁.1 q.2)) (λ e s' q. q)
            (apply_all-Ends scope source ts c₁ s₁ h₁.0))

  module _ (states : List TargetState) (complete : is_complete b ≡ true)
      (whole : options.target_public_ipv4 ≡ none) where
    abbrev Listed : List Call → Type 0
    Listed calls = Mem (collected b) calls × Mem (listed b.scope states) calls

    abbrev Listed-more : (c : Call) (calls : List Call) → Listed calls → Listed (c ∷ calls)
    Listed-more c calls m = (mem-cons_of_mem c m.0, mem-cons_of_mem c m.1)

    abbrev Known : Logged W Call → Type 0
    Known s = Grounded options s.calls × Listed s.calls

    -- The selected targets are observed.
    abbrev Observed : Tally → Type 0
    Observed c =
        (id : Text)
        → any (text_eq id) (map target_id_of (selected options b.targets)) ≡ true
        → any (text_eq id) c.observed_ids ≡ true

    abbrev Ended : Tally → Tally → Logged W Call → Type 0
    Ended c c' s = Known s × (c'.observed_ids ≡ c.observed_ids)

    or_live-Ends :
        (c : Tally) (o : Option NormalizedTarget) (s : Logged W Call)
        → Known s
        → Ends (Ended c) Raised (or_live with_whom codec digest options now b.scope c o s)
    or_live-Ends c none s h = Ends-pure _ _ c s (h, refl)
    or_live-Ends c (some live) s h =
        Ends-bind (λ r s'. Known s') _ Raised _ _ s
          (apply_live-Ends with_whom codec digest options now Listed Listed-more b.scope live s h)
          (λ r s₁ h₁.
            Ends-looked_up _ _ (count_action r.action c) s₁
              (λ c' e. (h₁, count_action-observed_ids r.action c e)) (λ e k. h₁.0))

    absent_check-Ends :
        (source : EventSource) (state : TargetState) (check : OwnershipCheck) (c : Tally)
        (s : Logged W Call)
        → Known s
        → (gone check.verdict ≡ true → MayRemove options state s.calls)
        → Ends
            (Ended c)
            Raised
            (absent_check with_whom codec digest options now b.scope source state check c s)
    unfolding absent_check
    absent_check-Ends source state check c s h may =
        Ends-when _ _ _ _ _ s
          (λ e.
            Ends-bind (λ r s'. Known s') _ Raised _ _ s
              (ask_remove-Ends with_whom codec digest options now Listed Listed-more state source s
                h (may e))
              (λ r s₁ h₁.
                Ends-looked_up _ _ (count_action r.action c) s₁
                  (λ c' e. (h₁, count_action-observed_ids r.action c e)) (λ e k. h₁.0)))
          (λ e. or_live-Ends c (live_target check) s h)

    apply_absent-Ends :
        (source : EventSource) (state : TargetState) (c : Tally) (s : Logged W Call)
        → Known s
        → Mem state states
        → Observed c
        → Ends
            (Ended c)
            Raised
            (apply_absent with_whom codec digest options now b.scope source state c s)
    unfolding apply_absent
    apply_absent-Ends source state c s h among seen =
        Ends-when _ _ _ _ _ s (λ e. Ends-pure _ _ c s (h, refl))
          (λ e.
            let looked = or-false _ _ e in
            Ends-bind
              (λ check s'.
                Known s' × (s'.calls ≡ checked state.target_id state.generation check ∷ s.calls))
              _ Raised _ _ s
              (validate-Ends with_whom codec digest options now Listed Listed-more state.target_id
                state.generation s h)
              (λ check s₁ h₁. absent_check-Ends source state check _ s₁ h₁.0 (λ g. rw h₁.1 (
                refl,
                refl,
                g,
                inr (
                  b,
                  states,
                  h.1.0,
                  complete,
                  whole,
                  h.1.1,
                  among,
                  looked.0,
                  unseen state.target_id looked.1,
                ),
              ))))
      where
        or-false : (x y : Bool) → (not x || y) ≡ false → (x ≡ true) × (y ≡ false)
        or-false x y k = ground arith

        unseen :
            (id : Text)
            → any (text_eq id) c.observed_ids ≡ false
            → any (text_eq id) (map target_id_of (selected options b.targets)) ≡ false
        unseen id k =
            elim (Bool-cases (any (text_eq id) (map target_id_of (selected options b.targets)))) [
              | inl found ↦ absurd (cc (seen id found, k))
              | inr nowhere ↦ nowhere
            ]

    apply_absences-Ends :
        (source : EventSource) (ss : List TargetState) (c : Tally) (s : Logged W Call)
        → Known s
        → ((state : TargetState) → Mem state ss → Mem state states)
        → Observed c
        → Ends
            (λ c' s'. Known s')
            Raised
            (apply_absences with_whom codec digest options now b.scope source ss c s)
    unfolding apply_absences
    apply_absences-Ends source [] c s h among seen = Ends-pure _ _ c s h
    apply_absences-Ends source (state ∷ ss) c s h among seen =
        Ends-bind (Ended c) _ Raised _ _ s
          (apply_absent-Ends source state c s h (among state mem-cons_self) seen)
          (λ c₁ s₁ h₁.
            apply_absences-Ends source ss c₁ s₁ h₁.0
              (λ other m. among other (mem-cons_of_mem state m)) (λ id k. rw h₁.1 (seen id k)))

  apply_absences_if_whole-Ends :
      (source : EventSource) (c : Tally) (s : Logged W Call)
      → Grounded options s.calls × Collected s.calls
      → ((id : Text)
          → any (text_eq id) (map target_id_of (selected options b.targets)) ≡ true
          → any (text_eq id) c.observed_ids ≡ true)
      → Ends
          (λ c' s'. Grounded options s'.calls)
          Raised
          (apply_absences_if_whole with_whom codec digest options now b source c s)
  unfolding apply_absences_if_whole list_current
  apply_absences_if_whole-Ends source c s h seen =
      Ends-when _ _ _ _ _ s
        (λ e.
          let both = &&-true (is_complete b) _ e in
          Ends-bind
            (λ states s'.
              Grounded options s'.calls
              × Mem (collected b) s'.calls
              × Mem (listed b.scope states) s'.calls)
            _ Raised _ _ s
            (returning-Ends
              (λ states calls.
                Grounded options calls
                × Mem (collected b) calls
                × Mem (listed b.scope states) calls)
              (λ e calls. Grounded options calls) (listed b.scope) _ s
              (λ states. (h.0, mem-cons_of_mem _ h.1, mem-cons_self)) (λ e. h.0))
            (λ states s₁ h₁.
              Ends-turn (λ c' s'. Known states both.0 (whole both.1) s')
                (λ c' s'. Grounded options s'.calls) Raised Raised
                (apply_absences with_whom codec digest options now b.scope source states c s₁)
                (λ c' s' q. q.0) (λ e s' q. q)
                (apply_absences-Ends states both.0 (whole both.1) source states c s₁
                  (h₁.0, (h₁.1, h₁.2)) (λ state m. m) seen)))
        (λ e. Ends-pure _ _ c s h.0)
    where
      whole_of : (o : Option Text) → is_whole with_whom codec digest options now o ≡ true → o ≡ none
      whole_of none k = refl
      whole_of (some ip) k = absurd (cc)

      whole :
          is_whole with_whom codec digest options now options.target_public_ipv4 ≡ true
          → options.target_public_ipv4 ≡ none
      whole k = whole_of options.target_public_ipv4 k

  reconcile_batch-Ends :
      (s : Logged W Call)
      → Grounded options s.calls × Collected s.calls
      → Ends
          (λ c' s'. Grounded options s'.calls)
          Raised
          (reconcile_batch with_whom codec digest options now b s)
  unfolding reconcile_batch
  reconcile_batch-Ends s h =
      Ends-lift_bind _ _ _ _ s (λ e. h.0)
        (λ u exact.
          Ends-lift_bind _ _ _ _ s (λ e. h.0)
            (λ source made.
              Ends-lift_bind _ _ _ _ s (λ e. h.0)
                (λ v one.
                  Ends-bind
                    (λ c' s'.
                      Grounded options s'.calls
                      × Collected s'.calls
                      × Covers (selected options b.targets)
                          (no_counts with_whom codec digest options now) c')
                    _ Raised _ _ s
                    (apply_all-Ends b.scope source (selected options b.targets) _ s h)
                    (λ c₁ s₁ h₁.
                      apply_absences_if_whole-Ends source c₁ s₁ (h₁.0, h₁.1)
                        (λ id k. h₁.2 id (rw k refl))))))

module _ {W : Type 0} (with_whom : Collaborators W) (codec : Codec)
    (digest : Text → Text → ℕ → ℕ → Text) (options : SnapshotOptions) (now : ℕ) where
  -- A snapshot asks for the removal of a state only on grounds, whatever its collaborators answer and
  -- also when it raises: the last call was the ownership check of the state's target in its generation,
  -- and said that the target is inactive or has moved; and either the reconciliation of an observed
  -- target had asked for that state to be checked, or the snapshot is complete and of its whole scope,
  -- the state is one of the current ones of the scope, of an allowed address, and none of the selected
  -- targets is its target.
  pub reconcile_snapshot-Grounded :
      Preserves
        (λ (s : Logged W Call). Grounded options s.calls)
        (reconcile_snapshot with_whom codec digest options now)
  unfolding reconcile_snapshot ask_collect
  reconcile_snapshot-Grounded =
      Preserves-of_Ends (λ (s : Logged W Call). Grounded options s.calls) _
        (λ s h.
          Ends-bind (λ b s'. Grounded options s'.calls × Mem (collected b) s'.calls)
            (λ c' s'. Grounded options s'.calls) (λ e s'. Grounded options s'.calls) _ _ s
            (returning-Ends (λ b calls. Grounded options calls × Mem (collected b) calls)
              (λ e calls. Grounded options calls) collected _ s (λ b. (h, mem-cons_self)) (λ e. h))
            (λ b s₁ h₁. reconcile_batch-Ends with_whom codec digest options now b s₁ h₁))
