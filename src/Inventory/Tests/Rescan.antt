-- ===== src/Inventory/Tests/Rescan.antt =====
-- A rescan at a concrete input.
use portscanner.Prelude.{◌≡◌, refl, none, [], ◌∷◌}
use portscanner.Prelude.Value.{mapping, end}
use portscanner.Prelude.Exec.{pure, lift, ◌>>=◌, Ends}
use portscanner.Prelude.Result.{ok}
use portscanner.Prelude.Calls.{Logged, reporting}
use portscanner.Inventory.Store.{race}
use portscanner.Inventory.Rescan.{
  Call, Collaborators, Formats, schedule_bucket, bucket_source, coverage_source, count_result,
  ask_list, ask_enqueue, emit_each, emit_coverage,
}
use portscanner.Inventory.Rescan.Offered.{Answered, emit_coverage-Answered}
use portscanner.Inventory.Tests.{first_state}

-- One target, whose state was changed by another worker.
abbrev store : Collaborators (Unit {0})
store = record {
  list_current = pure (first_state ∷ []);
  enqueue_coverage = λ s source at. pure (record { action = race; state = none; event = none });
}

abbrev formats : Formats
formats = record {
  parse_time = λ s. none;
  digest_event = λ namespace id at. id;
  digest_bucket = λ namespace bucket seconds. bucket ∷ seconds ∷ [];
}

abbrev start : Logged (Unit {0}) Call
start = record { world = tt; calls = [] }

one_race :
    (emit_coverage store formats 7200000000 3600 (mapping end) start).0
    ≡ ok (record { targets = 1; events = 0; races = 1 })
unfolding emit_coverage ask_list emit_each ask_enqueue count_result coverage_source bucket_source
    schedule_bucket reporting ◌>>=◌ lift pure
one_race = refl

emit_coverage-Answered_example :
    Ends
      (λ answer s'. Answered formats 7200000000 3600 (mapping end) answer [] s'.calls)
      (λ e s'. Unit {0})
      (emit_coverage store formats 7200000000 3600 (mapping end) start)
emit_coverage-Answered_example =
    emit_coverage-Answered store formats 7200000000 3600 (mapping end) start
