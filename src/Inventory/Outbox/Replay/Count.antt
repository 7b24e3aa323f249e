-- ===== src/Inventory/Outbox/Replay/Count.antt =====
-- The counts of a replay (handlers/outbox.py, `_Runtime.replay`).
use portscanner.Prelude.{
  ℕ, suc, ◌+◌, ◌≡◌, refl, ◌∙◌, inl, inr, Bool, true, false, List, [], ◌∷◌, arith, Bool-cases,
  if◌then◌else◌,
}
use portscanner.Prelude.Value.{Value, is_mapping}
use portscanner.Prelude.Exec.{recover, then_do, Exec, pure, attempt, ◌>>=◌, when◌run◌otherwise◌}
use portscanner.Prelude.Result.{Result, ok, err}
use portscanner.Inventory.Outbox.Replay.{Replayed, one_more, as_insert, replay_item, replay_items}

-- How one item ends.
pub data Outcome : Type 0 where
  delivered skipped failed : Outcome

abbrev one_delivered : Outcome → ℕ
one_delivered o = elim o [ delivered ↦ 1 | _ ↦ 0 ]

abbrev one_failed : Outcome → ℕ
one_failed o = elim o [ failed ↦ 1 | _ ↦ 0 ]

-- How many of the outcomes are of that kind.
abbrev pub deliveries : List Outcome → ℕ
deliveries [] = 0
deliveries (o ∷ os) = one_delivered o + deliveries os

abbrev pub failures_of : List Outcome → ℕ
failures_of [] = 0
failures_of (o ∷ os) = one_failed o + failures_of os

-- The counts, with the outcomes added.
abbrev pub totals : List Outcome → Replayed → Replayed
totals os c = record {
  processed = c.processed + deliveries os;
  failures = c.failures + failures_of os;
}

abbrev outcome_of_item : {E : Type 0} → Result E Bool → Outcome
outcome_of_item (ok true) = delivered
outcome_of_item (ok false) = skipped
outcome_of_item (err e) = failed

module _ {S E : Type 0} (dispatch : Value → Exec S E Bool) where
  -- Each item on its own, once and in order: what it leaves is what the next one starts from, whether it
  -- raised or not.
  abbrev pub attempted : Value → S → Outcome × S
  attempted item s =
      if is_mapping item
      then (outcome_of_item (dispatch (as_insert item) s).0, (dispatch (as_insert item) s).1)
      else (failed, s)

  abbrev pub attempts : List Value → S → List Outcome × S
  attempts [] s = ([], s)
  attempts (item ∷ items) s =
      let first = attempted item s in
      let rest = attempts items first.1 in (first.0 ∷ rest.0, rest.1)

  totals-eq :
      (c : Replayed) (os : List Outcome) (s : S) {n m : ℕ}
      → n ≡ c.processed + deliveries os
      → m ≡ c.failures + failures_of os
      → ◌≡◌ {A = Result E Replayed × S}
          (ok (record { processed = n; failures = m }), s)
          (ok (totals os c), s)
  totals-eq c os s h k = rw (h, k) refl

  -- What one item's run gives, by how the delivery ended.
  abbrev ended : Replayed → Result E Bool × S → Result E Replayed × S
  ended c x = (ok (totals (outcome_of_item x.0 ∷ []) c), x.1)

  by_result :
      (c : Replayed) (x : Result E Bool × S)
      → recover
          (λ e. pure (record c { failures = suc c.failures }))
          (then_do (λ b. pure (one_more b c)) x)
        ≡ ended c x
  unfolding pure
  by_result c (ok true, s) = totals-eq c (delivered ∷ []) s (omega arith) (omega arith)
  by_result c (ok false, s) = totals-eq c (skipped ∷ []) s (omega arith) (omega arith)
  by_result c (err e, s) = totals-eq c (failed ∷ []) s (omega arith) (omega arith)

  replay_item-attempted :
      (item : Value) (c : Replayed) (s : S)
      → replay_item dispatch item c s
        ≡ (ok (totals ((attempted item s).0 ∷ []) c), (attempted item s).1)
  unfolding replay_item when◌run◌otherwise◌ attempt ◌>>=◌ pure
  replay_item-attempted item c s = elim (Bool-cases (is_mapping item)) [
    | inr no_mapping ↦ rw no_mapping (totals-eq c (failed ∷ []) s (omega arith) (omega arith))
    | inl mapping ↦ rw mapping (by_result c (dispatch (as_insert item) s))
  ]

  totals-cons :
      (o : Outcome) (os : List Outcome) (c : Replayed) (s : S)
      → ◌≡◌ {A = Result E Replayed × S}
          (ok (totals os (totals (o ∷ []) c)), s)
          (ok (totals (o ∷ os) c), s)
  totals-cons o os c s = totals-eq c (o ∷ os) s (omega arith) (omega arith)

  -- The loop of a replay is the same as attempting each item on its own, once and in order, and adding
  -- what came of each: it never raises, a failing item stops no later one, and the counts are those of
  -- the items delivered and of the items that failed.
  pub replay_items-attempts :
      (items : List Value) (c : Replayed) (s : S)
      → replay_items dispatch items c s ≡ (ok (totals (attempts items s).0 c), (attempts items s).1)
  unfolding replay_items ◌>>=◌ pure
  replay_items-attempts [] c s = totals-eq c [] s (omega arith) (omega arith)
  replay_items-attempts (item ∷ items) c s =
      let first = attempted item s in
      rw (replay_item-attempted item c s) (
        replay_items-attempts items (totals (first.0 ∷ []) c) first.1
        ∙ totals-cons first.0 (attempts items first.1).0 c (attempts items first.1).1)
