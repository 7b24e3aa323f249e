-- ===== src/Inventory/Rescan/Source.antt =====
-- The source that a rescan takes (handlers/rescan.py, `coverage_source`).
use portscanner.Prelude.{
  inl, inr, true, ℕ, ◌*◌, ◌/◌, ◌≢◌, ◌&&◌, &&-true, Bool-cases, ◌≡◌, refl, ap, ◌∙◌, Option, none,
  some, [],
}
use portscanner.Prelude.Text.{Text, codes, strip}
use portscanner.Prelude.Text.Ascii.{not_empty}
use portscanner.Prelude.Value.{
  Value, null, boolean, int, number, str, mapping, object, sequence, get_key, is_null,
}
use portscanner.Prelude.Result.{Result, ok, err, ok_inj}
use portscanner.Inventory.Error.{StateError}
use portscanner.Inventory.Event.{EventSource}
use portscanner.Inventory.Rescan.{
  Formats, coverage_source, scheduled_time, scheduled_source, or_invalid, by_event, bucket_source,
  schedule_bucket,
}

module _ (formats : Formats) (now bucket_seconds : ℕ) (event : Value) where
  -- The source of an event and its time: of the schedule, if it has an identifier that is not blank and
  -- a time; of a bucket of time, if it has none of the two.
  pub data IsSource : EventSource → ℕ → Type 0 where
    scheduled :
        (id time : Text) (at : ℕ)
        → get_key "id" event ≡ str id
        → get_key "time" event ≡ str time
        → strip id ≢ []
        → formats.parse_time time ≡ some at
        → IsSource
            (record {
              name = codes "scheduled-coverage";
              event_id = id;
              request_id =
                  formats.digest_event (codes "portscanner.inventory.coverage-request.v1") id at;
              event_time = at;
              observed_at = at;
            })
            at
    direct :
        (bucket at : ℕ)
        → get_key "id" event ≡ null
        → get_key "time" event ≡ null
        → bucket ≡ now / 1000000 / bucket_seconds
        → at ≡ bucket * bucket_seconds * 1000000
        → IsSource
            (record {
              name = codes "scheduled-coverage";
              event_id =
                  formats.digest_bucket
                    (codes "portscanner.inventory.coverage-bucket.v1")
                    bucket
                    bucket_seconds;
              request_id =
                  formats.digest_bucket
                    (codes "portscanner.inventory.coverage-request.v1")
                    bucket
                    bucket_seconds;
              event_time = at;
              observed_at = at;
            })
            at

  is_null-eq : (v : Value) → is_null v ≡ true → v ≡ null
  is_null-eq null h = refl
  is_null-eq (boolean b) h = absurd (cc)
  is_null-eq (int i) h = absurd (cc)
  is_null-eq (number i) h = absurd (cc)
  is_null-eq (str s) h = absurd (cc)
  is_null-eq (mapping fs) h = absurd (cc)
  is_null-eq (object s fs) h = absurd (cc)
  is_null-eq (sequence vs) h = absurd (cc)

  scheduled_time-some :
      (v : Value) {at : ℕ}
      → scheduled_time formats v ≡ ok at
      → (time : Text) × (v ≡ str time) × (formats.parse_time time ≡ some at)
  unfolding scheduled_time
  scheduled_time-some (str s) h = by_time (formats.parse_time s) refl h
    where
      by_time :
          (o : Option ℕ) {at : ℕ}
          → formats.parse_time s ≡ o
          → or_invalid formats o ≡ ok at
          → (time : Text) × (str s ≡ str time) × (formats.parse_time time ≡ some at)
      by_time none e k = absurd (cc)
      by_time (some t) e k = (s, refl, e ∙ ap (λ x. some x) (ok_inj k))
  scheduled_time-some null h = absurd (cc)
  scheduled_time-some (boolean b) h = absurd (cc)
  scheduled_time-some (int i) h = absurd (cc)
  scheduled_time-some (number i) h = absurd (cc)
  scheduled_time-some (mapping fs) h = absurd (cc)
  scheduled_time-some (object s fs) h = absurd (cc)
  scheduled_time-some (sequence vs) h = absurd (cc)

  not_empty-ne : (s : Text) → not_empty s ≡ true → s ≢ []
  not_empty-ne s h e = cc (rw e at h)

  scheduled_source-IsSource :
      (v time : Value) {x : EventSource × ℕ}
      → get_key "id" event ≡ v
      → get_key "time" event ≡ time
      → scheduled_source formats v time ≡ ok x
      → IsSource x.0 x.1
  unfolding scheduled_source
  scheduled_source-IsSource (str s) time e k h = elim (Bool-cases (not_empty (strip s))) [
    | inr blank ↦ absurd (cc (rw blank at h))
    | inl filled ↦
        by_time (scheduled_time formats time) refl (not_empty-ne (strip s) filled) (rw filled at h)
  ]
    where
      by_time :
          (r : Result StateError ℕ) {x : EventSource × ℕ}
          → scheduled_time formats time ≡ r
          → strip s ≢ []
          → by_event formats s r ≡ ok x
          → IsSource x.0 x.1
      by_time (err f) q n m = absurd (cc)
      by_time (ok at) q n m =
          let (t, is, parsed) = scheduled_time-some time q in
          rw (← ok_inj m) (scheduled s t at e (k ∙ is) n parsed)
  scheduled_source-IsSource null time e k h = absurd (cc)
  scheduled_source-IsSource (boolean b) time e k h = absurd (cc)
  scheduled_source-IsSource (int i) time e k h = absurd (cc)
  scheduled_source-IsSource (number i) time e k h = absurd (cc)
  scheduled_source-IsSource (mapping fs) time e k h = absurd (cc)
  scheduled_source-IsSource (object s fs) time e k h = absurd (cc)
  scheduled_source-IsSource (sequence vs) time e k h = absurd (cc)

  pub coverage_source-IsSource :
      {x : EventSource × ℕ}
      → coverage_source formats event now bucket_seconds ≡ ok x
      → IsSource x.0 x.1
  unfolding coverage_source bucket_source schedule_bucket
  coverage_source-IsSource h =
      elim (Bool-cases (is_null (get_key "id" event) && is_null (get_key "time" event))) [
        | inl none_given ↦
            let (no_id, no_time) = &&-true (is_null (get_key "id" event)) _ none_given in
            rw (← ok_inj (rw none_given at h)) (
              direct _ _ (is_null-eq (get_key "id" event) no_id)
                (is_null-eq (get_key "time" event) no_time) refl refl)
        | inr given ↦
            scheduled_source-IsSource (get_key "id" event) (get_key "time" event) refl refl
              (rw given at h)
      ]
