-- ===== src/Inventory/Outbox/Order.antt =====
-- The order of the effects of a delivery (handlers/outbox.py, `dispatch_record`).
pub mod Checked
pub mod Object
pub mod Marking
pub mod Dispatch
use mathlib.Core.List.{Mem, mem-cons_self, mem-cons_of_mem}
use portscanner.Prelude.{
  ℕ, ◌+◌, ◌/◌, ◌≡◌, refl, sym, ap, if◌then◌else◌, ◌∙◌, Bool, true, false, ◌&&◌, ◌⊎◌, inl, inr, ◌≢◌,
  Option, none, some, List, [], ◌∷◌, ◌++◌, length,
}
use portscanner.Prelude.Text.{Text, text_eq}
use portscanner.Prelude.Text.Ascii.{is_sha256}
use portscanner.Prelude.Value.{Value, get_key, is_mapping}
use portscanner.Prelude.Exec.{
  Exec, pure, lift, Ends, Ends-bind, Ends-attempt, Ends-when, Ends-turn, Preserves,
}
use portscanner.Prelude.Exec.Steps.{Ends-pure, Ends-raise, Ends-looked_up, Ends-lift_bind}
use portscanner.Prelude.Result.{ok, err, guard, ◌>>=◌, ◌>>◌, >>=-eq-ok, guard-eq-ok, ok_inj}
use portscanner.Prelude.Calls.{Logged, silently-Ends, entering-Ends, making-Ends, returning-Ends}
use portscanner.Inventory.Event.{
  ScanReason, new_target, target_change, policy_change, coverage, manual,
}
use portscanner.Inventory.Outbox.{
  DeliveryError, value_error, DeliveredEvent, Formats, DeliveryConfig, DeliveredUpdate,
  DeliveryServices, Call, putting, stored, found, sending, sent, marking, put_object, head_object,
  send_message, update_item, get_item, now,
}
use portscanner.Inventory.Outbox.Image.{
  attribute, filled, delivery_retention_seconds, etag, version_id, verify_existing_object,
  notification_body, Delivery, checked_record, checked_event, checked_identity, checked_new_image,
  is_account, is_region, same_flag, has_table, checked_image, checked_tracking,
}
use portscanner.Inventory.Outbox.Delivery.{
  Action, Identity, verified_head, on_conflict, store_object, identity_of, identified,
  routed_queue_url, on_marked, mark_delivered, mark_if_tracked, delivery_time, announce, deliver,
  deliver_checked, dispatch_record,
}

module _ (formats : Formats) (config : DeliveryConfig) where
  -- The object was written, or it was found, and verified against the body.
  abbrev pub Verified : Text → List ℕ → List Call → Type 0
  Verified key body calls =
      Mem (stored key body) calls
      ⊎ (response : Value) × Mem (found key response) calls
        × (verify_existing_object response (formats.md5 body) (formats.sha256 body) ≡ ok tt)

  -- The message is the notification of an object that is there.
  abbrev pub NamesObject : Value → List Call → Type 0
  NamesObject message calls =
      (key : Text) × (body : List ℕ) × (e : Option Text) × (v : Option Text) × (notification_body
          config.bucket key (length body) e v
        ≡ ok message)
      × Verified key body calls

  -- A message names an object that is there; it goes to the queue of target events first; and an item
  -- is marked when a message was sent to that queue and then to one of the others.
  abbrev pub Ordered : List Call → Type 0
  Ordered [] = Unit
  Ordered (putting key body ∷ calls) = Ordered calls
  Ordered (stored key body ∷ calls) = Ordered calls
  Ordered (found key response ∷ calls) = Ordered calls
  Ordered (sending queue message ∷ calls) =
      Ordered calls
      × NamesObject message calls
      × ((queue ≡ config.target_event_queue_url)
          ⊎ Mem (sent config.target_event_queue_url message) calls)
  Ordered (sent queue message ∷ calls) = Ordered calls
  Ordered (marking update ∷ calls) =
      Ordered calls
      × (message : Value) × NamesObject message calls
      × Mem (sent config.target_event_queue_url message) calls
      × (Mem (sent config.priority_queue_url message) calls
          ⊎ Mem (sent config.coverage_queue_url message) calls)

  -- The item of the image is marked, by its own key and event, if there are a client and a table.
  abbrev pub Marked : Value → Option Text → List Call → List Call → Type 0
  Marked image none before calls = calls ≡ before
  Marked image (some table_name) before calls =
      ((config.has_dynamodb ≡ false) × (calls ≡ before))
      ⊎ (update : DeliveredUpdate) × (calls ≡ marking update ∷ before)
        × (attribute formats.show image "pk" ≡ some update.pk)
        × (attribute formats.show image "sk" ≡ some update.sk)
        × (attribute formats.show image "event_id" ≡ some update.event_id)

  -- The queue of a reason: the one for coverage, and for all else the priority queue.
  abbrev pub IsQueueOf : Option ScanReason → Text → Type 0
  IsQueueOf reason queue =
      ((reason ≡ some coverage) × (queue ≡ config.coverage_queue_url))
      ⊎ ((reason ≢ some coverage) × (queue ≡ config.priority_queue_url))

  -- The calls of a delivery: the object is there, then its notification is sent to the queue of target
  -- events and to the queue of the event's reason, then the item is marked.
  abbrev pub IsDelivered : Delivery → List Call → Type 0
  IsDelivered d calls =
      (message : Value) × (queue : Text) × (before : List Call) × (e : Option Text) × (v : Option
        Text)
      × (notification_body config.bucket d.key (length d.body) e v ≡ ok message)
      × Verified d.key d.body before
      × IsQueueOf d.event.reason queue
      × Marked d.image config.table_name
          (sent queue message
            ∷ sending queue message
            ∷ sent config.target_event_queue_url message
            ∷ sending config.target_event_queue_url message
            ∷ before)
          calls

  pub Verified-more :
      {key : Text} {body : List ℕ} {calls : List Call} (c : Call)
      → Verified key body calls
      → Verified key body (c ∷ calls)
  Verified-more c (inl m) = inl (mem-cons_of_mem c m)
  Verified-more c (inr (r, m, e)) = inr (r, mem-cons_of_mem c m, e)

  -- The body's hash is the delivery's.
  abbrev pub Hashed : Delivery → Type 0
  Hashed d = d.payload_sha256 ≡ formats.sha256 d.body

  abbrev pub Fine : {W : Type 0} → DeliveryError → Logged W Call → Type 0
  Fine e s = Ordered s.calls

  -- The state is in order, and the object is there.
  abbrev pub There : {W : Type 0} → Delivery → Logged W Call → Type 0
  There d s = Ordered s.calls × Verified d.key d.body s.calls
