-- ===== src/Inventory/Tests/Outbox.antt =====
-- The outbox at one record, whose object is new.
use portscanner.Prelude.{◌≡◌, true, none, some, [], ◌∷◌, String}
use portscanner.Prelude.Text.{codes}
use portscanner.Prelude.Value.{Value, null, str, mapping, sequence, Fields, end, field, nil, cons}
use portscanner.Prelude.Exec.{Preserves}
use portscanner.Prelude.Result.{ok}
use portscanner.Prelude.Calls.{Logged}
use portscanner.Inventory.Event.{new_target}
use portscanner.Inventory.Outbox.{
  DeliveredEvent, Formats, DeliveryConfig, DeliveryServices, Call, put_object, send_message,
  update_item, now,
}
use portscanner.Inventory.Outbox.Image.{Delivery}
use portscanner.Inventory.Outbox.Delivery.{dispatch_record}
use portscanner.Inventory.Outbox.Replay.{Replayed, replay_items, outbox_handler}
use portscanner.Inventory.Outbox.Replay.Count.{totals, attempts, replay_items-attempts}
use portscanner.Inventory.Outbox.Replay.Order.{outbox_handler-Ordered}
use portscanner.Inventory.Outbox.Order.{Ordered}

abbrev hash : String
hash = "00112233445566778899aabbccddeeff00112233445566778899aabbccddeeff"

abbrev attribute_of : String → String → Fields → Fields
attribute_of name text rest = field name (mapping (field "S" (str (codes text)) end)) rest

-- An item of the outbox.
abbrev image : Value
image = mapping (
    attribute_of "entity" "outbox" (
      attribute_of "pk" "p" (
        attribute_of "sk" "s" (
          attribute_of "event_id" hash (
            attribute_of "account_id" "111122223333" (
              attribute_of "region" "us-east-1" (
                attribute_of "event_json" "{}" (
                  field "delivery_ttl_seconds" (mapping (field "N" (str (codes "86400")) end))
                    end))))))))

abbrev stream_record : Value
stream_record = mapping (
    field "eventName" (str (codes "INSERT"))
      (field "dynamodb" (mapping (field "NewImage" image end)) end))

abbrev event : DeliveredEvent
event = record {
  event_id = codes hash;
  account_id = codes "111122223333";
  region = codes "us-east-1";
  reason = some new_target;
}

abbrev formats : Formats
formats = record {
  parse_target_event = λ raw. ok event;
  canonical_json = λ e. codes "{}";
  sha256 = λ body. codes hash;
  md5 = λ body. codes "md5";
  show = λ v. [];
}

abbrev config : DeliveryConfig
config = record {
  bucket = codes "b";
  prefix = codes "events/";
  priority_queue_url = codes "priority";
  coverage_queue_url = codes "coverage";
  target_event_queue_url = codes "events";
  has_dynamodb = true;
  table_name = some (codes "t");
  delivered_at = none;
}

abbrev services : DeliveryServices (Unit {0})
services = record {
  put_object = λ key body h w. (ok (mapping (field "ETag" (str (codes "e1")) end)), w);
  head_object = λ key w. (ok null, w);
  send_message = λ queue message w. (ok tt, w);
  update_item = λ update w. (ok tt, w);
  get_item = λ pk sk w. (ok null, w);
  now = λ w. (ok 1000000, w);
  query = λ w. (ok (mapping (field "Items" (sequence (cons image (cons null nil))) end)), w);
}

abbrev start : Logged (Unit {0}) Call
start = record { world = tt; calls = [] }

outbox_handler-Ordered_example :
    Preserves
      (λ (s : Logged (Unit {0}) Call). Ordered formats config s.calls)
      (outbox_handler services formats config
        (mapping (field "mode" (str (codes "replay-outbox")) end)))
outbox_handler-Ordered_example =
    outbox_handler-Ordered formats config services
      (mapping (field "mode" (str (codes "replay-outbox")) end))

abbrev nothing_yet : Replayed
nothing_yet = record { processed = 0; failures = 0 }

replay_items-attempts_example :
    replay_items (dispatch_record services formats config) (image ∷ null ∷ []) nothing_yet start ≡ (
      ok (
          totals
            (attempts (dispatch_record services formats config) (image ∷ null ∷ []) start).0
            nothing_yet),
      (attempts (dispatch_record services formats config) (image ∷ null ∷ []) start).1,
    )
replay_items-attempts_example =
    replay_items-attempts (dispatch_record services formats config) (image ∷ null ∷ []) nothing_yet
      start
