-- ===== src/Inventory/Outbox/Image.antt =====
-- The reading of an outbox item, of the answers of S3, and the notification (handlers/outbox.py).
use portscanner.Prelude.{
  ℕ, Bool, true, false, ◌&&◌, ◌||◌, not, Option, none, some, List, [], ◌∷◌, ◌++◌, leb, ◌==◌,
  if◌then◌else◌, length, all, String,
}
use portscanner.Prelude.Text.{Text, codes, text_eq, strip, split_on, is_digit}
use portscanner.Prelude.Text.Ascii.{
  is_lower, lower, strip_code, has_code, not_empty, is_sha256, int_of_text,
}
use portscanner.Prelude.Text.Url.{quote_plus, is_ascii}
use portscanner.Prelude.Value.{
  ℤ, pos, Value, null, int, str, mapping, sequence, Fields, end, field, nil, cons, get_key,
  has_field, get_field, is_mapping, text_of_value,
}
use portscanner.Prelude.Result.{Result, ok, err, guard, ◌>>=◌, ◌>>◌}
use portscanner.Inventory.Outbox.{
  DeliveryError, value_error, type_error, DeliveredEvent, Formats, DeliveryConfig,
}

-- `value["S"]` or `value["N"]` of an attribute of DynamoDB, if it has one.
abbrev typed_value : String → Value → Option Value
typed_value kind (mapping fs) = if has_field kind fs then some (get_field kind fs) else none
typed_value kind _ = none

abbrev text_of_attribute : (Value → Text) → Option Value → Option Text
text_of_attribute show none = none
text_of_attribute show (some v) = some (text_of_value show v)

-- `_attribute`.
unfoldable pub attribute : (Value → Text) → Value → String → Option Text
attribute show image name = text_of_attribute show (typed_value "S" (get_key name image))

abbrev int_of_attribute : (Value → Text) → Option Value → Option ℤ
int_of_attribute show none = none
int_of_attribute show (some v) = int_of_text (text_of_value show v)

-- `_number_attribute`.
unfoldable pub number_attribute : (Value → Text) → Value → String → Option ℤ
number_attribute show image name = int_of_attribute show (typed_value "N" (get_key name image))

abbrev pub bounded_retention : Option ℤ → Result DeliveryError ℕ
bounded_retention (some (pos n)) = guard (leb 86400 n && leb n 31536000) value_error >> ok n
bounded_retention _ = err value_error

-- `_delivery_retention_seconds`.
unfoldable pub delivery_retention_seconds : (Value → Text) → Value → Result DeliveryError ℕ
delivery_retention_seconds show image =
    bounded_retention (number_attribute show image "delivery_ttl_seconds")

-- The value of a key that is there and not empty.
abbrev pub filled : Option Text → Result DeliveryError Text
filled (some (c ∷ cs)) = ok (c ∷ cs)
filled _ = err value_error

-- A text of one line.
abbrev single_line : Text → Result DeliveryError Text
single_line s =
    guard (not_empty s && not (has_code 13 s) && not (has_code 10 s)) value_error >> ok s

abbrev etag_of_value : Value → Result DeliveryError (Option Text)
etag_of_value null = ok none
etag_of_value (str s) = single_line (strip_code 34 (strip s)) >>= λ t. ok (some t)
etag_of_value _ = err value_error

-- `_etag`.
unfoldable pub etag : Value → Result DeliveryError (Option Text)
etag response = etag_of_value (get_key "ETag" response)

abbrev version_of_value : Value → Result DeliveryError (Option Text)
version_of_value null = ok none
version_of_value (str s) =
    single_line (strip s) >>= λ t. ok (if text_eq (lower t) (codes "null") then none else some t)
version_of_value _ = err value_error

-- `_version_id`.
unfoldable pub version_id : Value → Result DeliveryError (Option Text)
version_id response = version_of_value (get_key "VersionId" response)

-- The value of the key of the hash, in lower case: a later one wins.
abbrev later_or : Option Value → Option Value → Option Value
later_or (some v) first = some v
later_or none first = first

unfoldable pub metadata_hash : Fields → Option Value
metadata_hash end = none
metadata_hash (field key v rest) =
    later_or (metadata_hash rest)
      (if text_eq (lower (codes key)) (codes "payload-sha256") then some v else none)

abbrev etag_matches : Text → Option Text → Result DeliveryError (Unit {0})
etag_matches expected none = err value_error
etag_matches expected (some found) =
    guard (is_ascii found) type_error >> guard (text_eq found expected) value_error

-- The comparison of the object's ETag with the hash of the body. (`compare_digest` raises on a text
-- that is not ASCII.)
unfoldable pub verify_etag : Value → Text → Result DeliveryError (Unit {0})
verify_etag response md5 = etag response >>= etag_matches md5

abbrev pub verify_hash :
    Option Value → Text → Result DeliveryError (Unit {0}) → Result DeliveryError (Unit {0})
verify_hash none expected by_etag = by_etag
verify_hash (some null) expected by_etag = by_etag
verify_hash (some (str found)) expected by_etag =
    guard (is_sha256 found && text_eq found expected) value_error
verify_hash (some _) expected by_etag = err value_error

abbrev verify_metadata :
    Value → Text → Result DeliveryError (Unit {0}) → Result DeliveryError (Unit {0})
verify_metadata (mapping fs) expected by_etag = verify_hash (metadata_hash fs) expected by_etag
verify_metadata _ expected by_etag = by_etag

-- `_verify_existing_object`, of the body's hashes.
unfoldable pub verify_existing_object : Value → Text → Text → Result DeliveryError (Unit {0})
verify_existing_object response md5 payload_sha256 =
    verify_metadata (get_key "Metadata" response) payload_sha256 (verify_etag response md5)

abbrev pub identity_fields : Option Text → Option Text → Fields → Fields
identity_fields (some e) (some v) rest = field "eTag" (str e) (field "versionId" (str v) rest)
identity_fields (some e) none rest = field "eTag" (str e) rest
identity_fields none (some v) rest = field "versionId" (str v) rest
identity_fields none none rest = rest

-- The notification of an object.
unfoldable pub notification : Text → Text → ℕ → Option Text → Option Text → Value
notification bucket key size e v =
    let object = mapping (
      field "key" (str (quote_plus key))
        (field "size" (int (pos size)) (identity_fields e v end))) in
    let s3 = mapping (
      field "s3SchemaVersion" (str (codes "1.0")) (
        field "configurationId" (str (codes "portscanner-inventory-outbox")) (
          field "bucket" (mapping (field "name" (str bucket) end)) (field "object" object end)))) in
    let entry = mapping (
      field "eventVersion" (str (codes "2.1")) (
        field "eventSource" (str (codes "aws:s3"))
          (field "eventName" (str (codes "ObjectCreated:Put")) (field "s3" s3 end)))) in
    mapping (field "Records" (sequence (cons entry nil)) end)

abbrev has_either : Option Text → Option Text → Bool
has_either none none = false
has_either _ _ = true

-- `_notification_body`.
unfoldable pub notification_body :
    Text → Text → ℕ → Option Text → Option Text → Result DeliveryError Value
notification_body bucket key size e v =
    guard (has_either e v) value_error >> ok (notification bucket key size e v)

-- `re.fullmatch(r"[0-9]{12}", s)`.
unfoldable pub is_account : Text → Bool
is_account s = length s == 12 && all is_digit s

-- The parts of a region after the first dash: at least two, the last one digits.
abbrev region_parts : List Text → Bool
region_parts [] = false
region_parts (p ∷ []) = not_empty p && all is_digit p
region_parts (p ∷ q ∷ rest) =
    not_empty p && all (λ c. is_lower c || is_digit c) p && region_parts (q ∷ rest)

abbrev after_area : List Text → Bool
after_area (p ∷ q ∷ rest) = region_parts (p ∷ q ∷ rest)
after_area _ = false

abbrev region_of : List Text → Bool
region_of [] = false
region_of (area ∷ rest) = length area == 2 && all is_lower area && after_area rest

-- `re.fullmatch(r"[a-z]{2}(?:-[a-z0-9]+)+-[0-9]+", s)`.
unfoldable pub is_region : Text → Bool
is_region s = region_of (split_on 45 s)

-- What a delivery goes by: the item, its checked identity, the event, and the object.
pub record Delivery : Type 0 where
  pub image : Value
  pub event : DeliveredEvent
  pub event_id : Text
  pub key : Text
  pub body : List ℕ
  pub payload_sha256 : Text

abbrev or_empty : Option Text → Text
or_empty none = []
or_empty (some s) = s

module _ (formats : Formats) (config : DeliveryConfig) where
  abbrev object_key : Text → Text → Text → Text
  object_key account_id region event_id =
      strip_code 47 config.prefix
      ++ codes "/"
      ++ account_id
      ++ codes "/"
      ++ region
      ++ codes "/"
      ++ event_id
      ++ codes ".json"

  -- The checks of the identity, and the object of the event.
  abbrev pub checked_event :
      Value → Text → Text → Text → DeliveredEvent → Result DeliveryError Delivery
  checked_event image event_id account_id region event =
      guard (text_eq event.event_id event_id) value_error
      >> (guard (text_eq event.account_id account_id && text_eq event.region region) value_error
          >> ok (record {
            image = image;
            event = event;
            event_id = event_id;
            key = object_key account_id region event_id;
            body = formats.canonical_json event;
            payload_sha256 = formats.sha256 (formats.canonical_json event);
          }))

  abbrev pub checked_identity :
      Value → Text → Text → Text → Option Text → Result DeliveryError Delivery
  checked_identity image event_id account_id region none = err value_error
  checked_identity image event_id account_id region (some raw) =
      guard (is_sha256 event_id && is_account account_id && is_region region) value_error
      >> (formats.parse_target_event raw >>= checked_event image event_id account_id region)

  unfoldable pub checked_image : Value → Result DeliveryError Delivery
  checked_image image =
      checked_identity image (or_empty (attribute formats.show image "event_id"))
        (or_empty (attribute formats.show image "account_id"))
        (or_empty (attribute formats.show image "region"))
        (attribute formats.show image "event_json")

  -- The checks of what the delivery is marked by, before any effect.
  unfoldable pub checked_tracking : Value → Result DeliveryError (Unit {0})
  checked_tracking image =
      if config.has_dynamodb
      then filled (attribute formats.show image "pk")
        >>= (λ pk. filled (attribute formats.show image "sk"))
        >>= (λ sk. delivery_retention_seconds formats.show image)
        >>= (λ seconds. ok tt)
      else ok tt

  abbrev pub has_table : Option Text → Bool
  has_table none = false
  has_table (some name) = true

  abbrev pub same_flag : Bool → Bool → Bool
  same_flag true b = b
  same_flag false b = not b

  abbrev is_outbox : Option Text → Bool
  is_outbox none = false
  is_outbox (some s) = text_eq s (codes "outbox")

  abbrev pub checked_new_image : Value → Result DeliveryError (Option Delivery)
  checked_new_image image =
      if is_mapping image && is_outbox (attribute formats.show image "entity")
      then checked_tracking image >> (checked_image image >>= λ d. ok (some d))
      else ok none

  abbrev is_insert : Value → Bool
  is_insert (str s) = text_eq s (codes "INSERT")
  is_insert _ = false

  -- The part of `dispatch_record` before its effects: none for a record that is not delivered.
  unfoldable pub checked_record : Value → Result DeliveryError (Option Delivery)
  checked_record r =
      if is_insert (get_key "eventName" r)
      then guard (same_flag config.has_dynamodb (has_table config.table_name)) value_error
        >> (guard (is_mapping (get_key "dynamodb" r)) value_error
            >> checked_new_image (get_key "NewImage" (get_key "dynamodb" r)))
      else ok none
