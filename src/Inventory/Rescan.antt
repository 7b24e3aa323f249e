-- ===== src/Inventory/Rescan.antt =====
-- The rescan (inventory/src/portscanner_inventory/handlers/rescan.py): events of low priority for the
-- current targets. `parse_time` is `datetime.fromisoformat`, none where it raises or gives no time zone;
-- `digest_event` and `digest_bucket` are `deterministic_sha256` of a namespace and the two values.
pub mod Source
pub mod Offered
use portscanner.Prelude.{
  ℕ, suc, ◌+◌, ◌*◌, ◌/◌, Bool, true, false, ◌&&◌, not, Option, none, some, List, [], ◌∷◌, length,
  ◌==◌, if◌then◌else◌,
}
use portscanner.Prelude.Text.{Text, codes, strip}
use portscanner.Prelude.Text.Ascii.{not_empty}
use portscanner.Prelude.Value.{Value, str, get_key, is_null}
use portscanner.Prelude.Exec.{Exec, pure, lift, ◌>>=◌}
use portscanner.Prelude.Result.{Result, ok, err}
use portscanner.Prelude.Calls.{Logged, reporting}
use portscanner.Inventory.Error.{StateError, value_error}
use portscanner.Inventory.Event.{EventSource, OutboxEvent}
use portscanner.Inventory.Store.{ReconcileAction, race, TargetState, ReconcileResult}

-- The calls that have been made, with how they ended.
pub data Call : Type 0 where
  listed : Result StateError (List TargetState) → Call
  enqueued : TargetState → EventSource → ℕ → Result StateError ReconcileResult → Call

-- The store.
pub record Collaborators (W : Type 0) : Type 0 where
  pub list_current : Exec W StateError (List TargetState)
  pub enqueue_coverage : TargetState → EventSource → ℕ → Exec W StateError ReconcileResult

pub record Formats : Type 0 where
  pub parse_time : Text → Option ℕ
  pub digest_event : Text → Text → ℕ → Text
  pub digest_bucket : Text → ℕ → ℕ → Text

-- The counts of events and of races.
pub record Emitted : Type 0 where
  pub emitted : ℕ
  pub races : ℕ

pub record Answer : Type 0 where
  pub targets : ℕ
  pub events : ℕ
  pub races : ℕ

-- `schedule_bucket`, with a positive size: the bucket and the time at which it starts.
unfoldable pub schedule_bucket : ℕ → ℕ → ℕ × ℕ
schedule_bucket now bucket_seconds =
    (now / 1000000 / bucket_seconds, now / 1000000 / bucket_seconds * bucket_seconds * 1000000)

abbrev pub source_at : Text → Text → ℕ → EventSource
source_at event_id request_id at = record {
  name = codes "scheduled-coverage";
  event_id = event_id;
  request_id = request_id;
  event_time = at;
  observed_at = at;
}

module _ (formats : Formats) where
  abbrev pub or_invalid : Option ℕ → Result StateError ℕ
  or_invalid none = err value_error
  or_invalid (some at) = ok at

  -- `_scheduled_time`, of a value of JSON.
  unfoldable pub scheduled_time : Value → Result StateError ℕ
  scheduled_time (str s) = or_invalid (formats.parse_time s)
  scheduled_time v = err value_error

  abbrev pub by_event : Text → Result StateError ℕ → Result StateError (EventSource × ℕ)
  by_event event_id (err e) = err e
  by_event event_id (ok at) = ok (
    source_at event_id
        (formats.digest_event (codes "portscanner.inventory.coverage-request.v1") event_id at) at,
    at,
  )

  unfoldable pub scheduled_source : Value → Value → Result StateError (EventSource × ℕ)
  scheduled_source (str s) time =
      if not_empty (strip s) then by_event s (scheduled_time time) else err value_error
  scheduled_source id time = err value_error

  -- The source of a direct call, of a bucket and its time.
  unfoldable pub bucket_source : ℕ → ℕ × ℕ → EventSource × ℕ
  bucket_source bucket_seconds (bucket, at) = (
    source_at
        (formats.digest_bucket (codes "portscanner.inventory.coverage-bucket.v1") bucket
          bucket_seconds)
        (formats.digest_bucket (codes "portscanner.inventory.coverage-request.v1") bucket
          bucket_seconds)
        at,
    at,
  )

  unfoldable pub coverage_source : Value → ℕ → ℕ → Result StateError (EventSource × ℕ)
  coverage_source event now bucket_seconds =
      if is_null (get_key "id" event) && is_null (get_key "time" event)
      then ok (bucket_source bucket_seconds (schedule_bucket now bucket_seconds))
      else scheduled_source (get_key "id" event) (get_key "time" event)

abbrev is_race : ReconcileAction → Bool
is_race action = elim action [ race ↦ true | _ ↦ false ]

abbrev pub counted : Option OutboxEvent → ReconcileAction → Emitted → Emitted
counted (some event) action c = record c { emitted = suc c.emitted }
counted none action c = if is_race action then record c { races = suc c.races } else c

-- What the result of one target counts for.
unfoldable pub count_result : ReconcileResult → Emitted → Emitted
count_result r c = counted r.event r.action c

module _ {W : Type 0} (with_whom : Collaborators W) where
  unfoldable pub ask_list : Exec (Logged W Call) StateError (List TargetState)
  ask_list = reporting listed with_whom.list_current

  unfoldable pub ask_enqueue :
      TargetState → EventSource → ℕ → Exec (Logged W Call) StateError ReconcileResult
  ask_enqueue s source at =
      reporting (enqueued s source at) (with_whom.enqueue_coverage s source at)

  unfoldable pub emit_each :
      EventSource → ℕ → List TargetState → Emitted → Exec (Logged W Call) StateError Emitted
  emit_each source at [] c = pure c
  emit_each source at (s ∷ ss) c = do
    r ← ask_enqueue s source at
    emit_each source at ss (count_result r c)

  -- An event that is not given is the empty one.
  unfoldable pub emit_coverage : Formats → ℕ → ℕ → Value → Exec (Logged W Call) StateError Answer
  emit_coverage formats now bucket_seconds event = do
    (source, at) ← lift (coverage_source formats event now bucket_seconds)
    targets ← ask_list
    c ← emit_each source at targets (record { emitted = 0; races = 0 })
    pure (record { targets = length targets; events = c.emitted; races = c.races })
