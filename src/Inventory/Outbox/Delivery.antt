-- ===== src/Inventory/Outbox/Delivery.antt =====
-- `dispatch_record` and `_mark_delivered` (handlers/outbox.py).
use portscanner.Prelude.{
  ℕ, ◌+◌, ◌/◌, Bool, true, false, ◌&&◌, Option, none, some, if◌then◌else◌, length,
}
use portscanner.Prelude.Text.{Text, codes, text_eq}
use portscanner.Prelude.Value.{Value, mapping, end, get_key, is_mapping}
use portscanner.Prelude.Exec.{Exec, pure, raise, lift, attempt, ◌>>=◌, ◌>>◌, when◌run◌otherwise◌}
use portscanner.Prelude.Result.{guard}
use portscanner.Prelude.Calls.{Logged}
use portscanner.Inventory.Event.{ScanReason, coverage}
use portscanner.Inventory.Outbox.{
  DeliveryError, value_error, aws_error_code, is_conflict, Formats, DeliveryConfig, DeliveredUpdate,
  DeliveryServices, Call, put_object, head_object, send_message, update_item, get_item, now,
}
use portscanner.Inventory.Outbox.Image.{
  attribute, delivery_retention_seconds, filled, etag, version_id, verify_existing_object,
  notification_body, Delivery, checked_record,
}

abbrev pub Action : Type 0 → Type 0 → Type 0
Action W A = Exec (Logged W Call) DeliveryError A

-- The object's ETag and version.
abbrev pub Identity : Type 0
Identity = Option Text × Option Text

abbrev pub has_no_identity : Identity → Bool
has_no_identity (none, none) = true
has_no_identity _ = false

-- A removal, and an event of a reason that is not coverage, has priority.
abbrev pub routed_queue_url : DeliveryConfig → Option ScanReason → Text
routed_queue_url config (some coverage) = config.coverage_queue_url
routed_queue_url config _ = config.priority_queue_url

module _ {W : Type 0} (services : DeliveryServices W) (formats : Formats)
    (config : DeliveryConfig) where
  abbrev as_mapping : Value → Value
  as_mapping v = if is_mapping v then v else mapping end

  -- HEAD of an object that is there, and its verification.
  unfoldable pub verified_head : Delivery → Action W Value
  verified_head d = do
    response ← head_object services d.key
    lift (guard (is_mapping response) value_error)
    lift (verify_existing_object response (formats.md5 d.body) d.payload_sha256)
    pure response

  unfoldable pub on_conflict : Delivery → DeliveryError → Action W Value
  on_conflict d e = when is_conflict e run verified_head d otherwise raise e

  -- The immutable object: written, or there with the same content.
  unfoldable pub store_object : Delivery → Action W Value
  store_object d =
      attempt
        (do
          response ← put_object services d.key d.body d.payload_sha256
          pure (as_mapping response))
        (on_conflict d)

  unfoldable pub identity_of : Value → Action W Identity
  identity_of response = do e ← lift (etag response); v ← lift (version_id response); pure (e, v)

  -- The identity, of a second answer if the first has none.
  unfoldable pub identified : Delivery → Identity → Action W Identity
  identified d identity =
      when has_no_identity identity
      run (do response ← verified_head d; identity_of response)
      otherwise pure identity

  -- Delivered already, with the same event.
  abbrev is_delivered : Text → Value → Bool
  is_delivered event_id item =
      is_mapping item
      && has_text (codes "outbox-delivered") (attribute formats.show item "entity")
      && has_text event_id (attribute formats.show item "event_id")
    where
      has_text : Text → Option Text → Bool
      has_text expected none = false
      has_text expected (some s) = text_eq s expected

  unfoldable pub on_marked : DeliveredUpdate → DeliveryError → Action W (Unit {0})
  on_marked update e =
      when text_eq (aws_error_code e) (codes "ConditionalCheckFailedException")
      run (do
        response ← get_item services update.pk update.sk
        when is_delivered update.event_id (get_key "Item" response) run pure tt otherwise raise e)
      otherwise raise e

  -- `_mark_delivered`. (`get_key` of a value that is no mapping is null.)
  unfoldable pub mark_delivered : Value → ℕ → Action W (Unit {0})
  mark_delivered image delivered_at = do
    seconds ← lift (delivery_retention_seconds formats.show image)
    pk ← lift (filled (attribute formats.show image "pk"))
    sk ← lift (filled (attribute formats.show image "sk"))
    event_id ← lift (filled (attribute formats.show image "event_id"))
    let update : DeliveredUpdate = record {
      pk = pk;
      sk = sk;
      event_id = event_id;
      delivered_at = delivered_at;
      expires_at = delivered_at / 1000000 + seconds;
    } in
        attempt (update_item services update) (on_marked update)

  abbrev pub delivery_time : Option ℕ → Action W ℕ
  delivery_time (some at) = pure at
  delivery_time none = now services

  -- The marking, if there are a client and a table.
  unfoldable pub mark_if_tracked : Value → Option Text → Action W (Unit {0})
  mark_if_tracked image none = pure tt
  mark_if_tracked image (some table_name) =
      when config.has_dynamodb
      run (do at ← delivery_time config.delivered_at; mark_delivered image at)
      otherwise pure tt

  -- The effects after the object is known.
  unfoldable pub announce : Delivery → Identity → Action W (Unit {0})
  announce d (e, v) = do
    message ← lift (notification_body config.bucket d.key (length d.body) e v)
    send_message services config.target_event_queue_url message
    send_message services (routed_queue_url config d.event.reason) message
    mark_if_tracked d.image config.table_name

  unfoldable pub deliver : Delivery → Action W Bool
  deliver d = do
    response ← store_object d
    first ← identity_of response
    identity ← identified d first
    announce d identity
    pure true

  abbrev pub deliver_checked : Option Delivery → Action W Bool
  deliver_checked none = pure false
  deliver_checked (some d) = deliver d

  unfoldable pub dispatch_record : Value → Action W Bool
  dispatch_record r = do d ← lift (checked_record formats config r); deliver_checked d
