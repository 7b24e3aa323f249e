-- ===== src/Inventory/Outbox/Replay.antt =====
-- The handler of the outbox: a batch of stream records (base.py, `partial_batch`), or the replay of
-- pending items (handlers/outbox.py, `_Runtime.replay`).
pub mod Order
pub mod Count
use portscanner.Prelude.{
  ℕ, suc, Bool, true, false, ◌&&◌, ◌||◌, not, some, List, [], ◌∷◌, ◌++◌, if◌then◌else◌, ◌==◌,
}
use portscanner.Prelude.Text.{Text, codes, text_eq}
use portscanner.Prelude.Text.Ascii.{not_empty}
use portscanner.Prelude.Value.{
  Value, str, null, boolean, int, pos, number, mapping, sequence, Items, nil, cons, end, field,
  get_key, has_key, is_mapping, text_of_value, is_true, list_of,
}
use portscanner.Prelude.Exec.{Exec, pure, raise, lift, attempt, ◌>>=◌, ◌>>◌, when◌run◌otherwise◌}
use portscanner.Prelude.Result.{Result, ok, err}
use portscanner.Prelude.Calls.{Logged}
use portscanner.Inventory.Outbox.{
  DeliveryError, value_error, attribute_error, runtime_error, Formats, DeliveryConfig,
  DeliveryServices, Call, query,
}
use portscanner.Inventory.Outbox.Delivery.{dispatch_record}

-- `str(v or "")`.
abbrev pub text_or_empty : (Value → Text) → Value → Text
text_or_empty show v = if is_true v then text_of_value show v else []

abbrev first_text : Text → Text → Text
first_text [] other = other
first_text (c ∷ cs) other = c ∷ cs

-- The identifier of a record by its source.
unfoldable pub identifier_of : (Value → Text) → Value → Text
identifier_of show r =
    let source =
      first_text (text_or_empty show (get_key "eventSource" r))
        (text_or_empty show (get_key "EventSource" r)) in
    if text_eq source (codes "aws:sqs") || not (not_empty source) && has_key "messageId" r
    then text_or_empty show (get_key "messageId" r)
    else if text_eq source (codes "aws:dynamodb") || not (not_empty source) && has_key "dynamodb" r
    then text_or_empty show (get_key "SequenceNumber" (get_key "dynamodb" r))
    else []

-- `no_attribute` is what the reading of an attribute raises, of a record that is no mapping.
module _ {S E A : Type 0} (show : Value → Text) (no_attribute : E)
    (process : Value → Exec S E A) where
  -- One round of the loop: the identifiers that it adds.
  unfoldable pub process_record : Value → Exec S E (List Text)
  process_record r =
      attempt (do done ← process r; pure [])
        (λ e.
          when not_empty (identifier_of show r)
          run pure (identifier_of show r ∷ [])
          otherwise raise e)

  -- `partial_batch`.
  unfoldable pub partial_batch : List Value → Exec S E (List Text)
  partial_batch [] = pure []
  partial_batch (r ∷ rs) = do
    when is_mapping r run pure tt otherwise raise no_attribute
    failed ← process_record r
    later ← partial_batch rs
    pure (failed ++ later)

-- What a replay counts.
pub record Replayed : Type 0 where
  pub processed : ℕ
  pub failures : ℕ

-- The record that the replay makes of an item.
abbrev pub as_insert : Value → Value
as_insert item = mapping (
    field "eventName" (str (codes "INSERT"))
      (field "dynamodb" (mapping (field "NewImage" item end)) end))

abbrev pub one_more : Bool → Replayed → Replayed
one_more true c = record c { processed = suc c.processed }
one_more false c = c

module _ {S E : Type 0} (dispatch : Value → Exec S E Bool) where
  unfoldable pub replay_item : Value → Replayed → Exec S E Replayed
  replay_item item c =
      when is_mapping item
      run attempt (do delivered ← dispatch (as_insert item); pure (one_more delivered c))
          (λ e. pure (record c { failures = suc c.failures }))
      otherwise pure (record c { failures = suc c.failures })

  -- The loop of `replay`.
  unfoldable pub replay_items : List Value → Replayed → Exec S E Replayed
  replay_items [] c = pure c
  replay_items (item ∷ items) c = do counted ← replay_item item c; replay_items items counted

abbrev items_of : Value → Result DeliveryError (List Value)
items_of (sequence vs) = ok (list_of vs)
items_of _ = err value_error

-- The result of the handler.
pub data Handled : Type 0 where
  replayed : Replayed → Handled
  batch_failures : List Text → Handled

module _ {W : Type 0} (services : DeliveryServices W) (formats : Formats)
    (config : DeliveryConfig) where
  unfoldable pub replay : Exec (Logged W Call) DeliveryError Replayed
  replay = do
    response ← query services
    items ← lift (items_of (get_key "Items" response))
    counts ←
        replay_items (dispatch_record services formats config) items
          (record { processed = 0; failures = 0 })
    when counts.failures == 0 run pure counts otherwise raise runtime_error

  abbrev is_replay : Value → Bool
  is_replay (str s) = text_eq s (codes "replay-outbox")
  is_replay _ = false

  -- `lambda_handler`.
  unfoldable pub outbox_handler : Value → Exec (Logged W Call) DeliveryError Handled
  outbox_handler event =
      when is_replay (get_key "mode" event)
      run (do counts ← replay; pure (replayed counts))
      otherwise (do
        records ← lift (items_of (get_key "Records" event))
        failed ←
            partial_batch formats.show attribute_error (dispatch_record services formats config)
              records
        pure (batch_failures failed))
