-- ===== src/Inventory/Outbox.antt =====
-- The dispatcher of the outbox (inventory/src/portscanner_inventory/handlers/outbox.py): what it works
-- on, its services, and a record of the calls. The JSON text of a notification stands as the value
-- that it reads back to.
pub mod Image
pub mod Delivery
pub mod Replay
pub mod Order
use portscanner.Prelude.{ℕ, Bool, true, false, Option, none, some, List, ◌||◌}
use portscanner.Prelude.Text.{Text, codes, text_eq}
use portscanner.Prelude.Value.{Value}
use portscanner.Prelude.Exec.{Exec}
use portscanner.Prelude.Result.{Result}
use portscanner.Prelude.Calls.{Logged, silently, entering, making, returning}
use portscanner.Inventory.Event.{ScanReason}

-- `client` is an exception of the AWS client, with what `aws_error_code` says of it.
pub data DeliveryError : Type 0 where
  client : Text → DeliveryError
  value_error type_error attribute_error runtime_error : DeliveryError

-- `aws_error_code`.
unfoldable pub aws_error_code : DeliveryError → Text
aws_error_code (client code) = code
aws_error_code value_error = codes "ValueError"
aws_error_code type_error = codes "TypeError"
aws_error_code attribute_error = codes "AttributeError"
aws_error_code runtime_error = codes "RuntimeError"

unfoldable pub is_conflict : DeliveryError → Bool
is_conflict e =
    text_eq (aws_error_code e) (codes "ConditionalRequestConflict")
    || text_eq (aws_error_code e) (codes "PreconditionFailed")

-- What the delivery reads of a parsed event: `reason` is none for a removal.
pub record DeliveredEvent : Type 0 where
  pub event_id : Text
  pub account_id : Text
  pub region : Text
  pub reason : Option ScanReason

-- The contract's parser and canonical JSON in UTF-8, `hexdigest` of the two hashes, and `str` of a value
-- that is no `str`.
pub record Formats : Type 0 where
  pub parse_target_event : Text → Result DeliveryError DeliveredEvent
  pub canonical_json : DeliveredEvent → List ℕ
  pub sha256 : List ℕ → Text
  pub md5 : List ℕ → Text
  pub show : Value → Text

-- The keyword arguments; `has_dynamodb` says whether there is a client of DynamoDB. A time is a number
-- of microseconds since 1970.
pub record DeliveryConfig : Type 0 where
  pub bucket : Text
  pub prefix : Text
  pub priority_queue_url : Text
  pub coverage_queue_url : Text
  pub target_event_queue_url : Text
  pub has_dynamodb : Bool
  pub table_name : Option Text
  pub delivered_at : Option ℕ

-- The update of the outbox's item.
pub record DeliveredUpdate : Type 0 where
  pub pk : Text
  pub sk : Text
  pub event_id : Text
  pub delivered_at : ℕ
  pub expires_at : ℕ

-- The calls of the AWS clients. `put_object` has the key, the body and the hash in the metadata, and
-- writes no key that exists.
pub record DeliveryServices (W : Type 0) : Type 0 where
  pub put_object : Text → List ℕ → Text → Exec W DeliveryError Value
  pub head_object : Text → Exec W DeliveryError Value
  pub send_message : Text → Value → Exec W DeliveryError (Unit {0})
  pub update_item : DeliveredUpdate → Exec W DeliveryError (Unit {0})
  pub get_item : Text → Text → Exec W DeliveryError Value
  pub now : Exec W DeliveryError ℕ
  pub query : Exec W DeliveryError Value

-- The entries of the record of calls. A call that changes something has an entry when it is made and
-- one when it has returned.
pub data Call : Type 0 where
  putting stored : Text → List ℕ → Call
  found : Text → Value → Call
  sending sent : Text → Value → Call
  marking : DeliveredUpdate → Call

module _ {W : Type 0} (services : DeliveryServices W) where
  unfoldable pub put_object : Text → List ℕ → Text → Exec (Logged W Call) DeliveryError Value
  put_object key body hash =
      entering (putting key body) (λ r. stored key body) (services.put_object key body hash)

  unfoldable pub head_object : Text → Exec (Logged W Call) DeliveryError Value
  head_object key = returning (found key) (services.head_object key)

  unfoldable pub send_message : Text → Value → Exec (Logged W Call) DeliveryError (Unit {0})
  send_message queue message =
      entering (sending queue message) (λ r. sent queue message)
        (services.send_message queue message)

  unfoldable pub update_item : DeliveredUpdate → Exec (Logged W Call) DeliveryError (Unit {0})
  update_item update = making (marking update) (services.update_item update)

  unfoldable pub get_item : Text → Text → Exec (Logged W Call) DeliveryError Value
  get_item pk sk = silently (services.get_item pk sk)

  unfoldable pub now : Exec (Logged W Call) DeliveryError ℕ
  now = silently services.now

  unfoldable pub query : Exec (Logged W Call) DeliveryError Value
  query = silently services.query
