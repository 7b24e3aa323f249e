-- ===== src/Generator/Reader.antt =====
-- The reading of a target event (generator/src/portscanner_generator/event_reader.py): the
-- notification in an SQS record, `decode_sqs_s3_record`. `loads` is `json.loads`, none where it raises.
pub mod Response
pub mod Fetch
pub mod Decoded
pub mod Notified
pub mod Checked
pub mod Fetched
use portscanner.Prelude.{
  ℕ, ◌==◌, Bool, true, false, ◌&&◌, ◌||◌, not, Option, none, some, List, [], ◌∷◌, if◌then◌else◌,
  String,
}
use portscanner.Prelude.Text.{Text, codes, text_eq, strip}
use portscanner.Prelude.Text.Ascii.{lower, has_code, not_empty}
use portscanner.Prelude.Text.Url.{hex_value, unquote_plus}
use portscanner.Prelude.Value.{
  Value, null, str, mapping, sequence, Fields, nil, cons, get_key, get_field, has_field, has_key,
  is_mapping, is_true, equals_text,
}
use portscanner.Prelude.Result.{Result, ok, err, guard, ◌>>=◌, ◌>>◌}

-- The rejections, which are not retried, then what else a reading raises: a `RuntimeError`, an
-- exception of the client of S3 with the code of its response, and an exception of the parser that
-- is no rejection.
pub data ReadError : Type 0 where
  invalid_sqs_envelope unexpected_s3_object mutable_s3_object malformed_target_event : ReadError
  runtime_error parser_error : ReadError
  remote : Option Text → ReadError

pub record ReaderConfig : Type 0 where
  pub event_bucket : Text
  pub event_prefix : Text
  pub max_event_bytes : ℕ

pub record S3ObjectReference : Type 0 where
  pub bucket : Text
  pub key : Text
  pub etag : Option Text
  pub version_id : Option Text

-- `s.startswith(prefix)`.
unfoldable pub starts_with : Text → Text → Bool
starts_with [] s = true
starts_with (c ∷ cs) [] = false
starts_with (c ∷ cs) (d ∷ ds) = c == d && starts_with cs ds

abbrev must_be_mapping : Option Value → Result ReadError Value
must_be_mapping (some (mapping fs)) = ok (mapping fs)
must_be_mapping _ = err invalid_sqs_envelope

abbrev pub must_be_text : Value → Result ReadError Text
must_be_text (str s) = ok s
must_be_text _ = err invalid_sqs_envelope

-- `v[name]`, of any value: a missing key, or a value that is no mapping, is an incomplete notification.
abbrev pub item_of : String → Value → Result ReadError Value
item_of name (mapping fs) =
    if has_field name fs then ok (get_field name fs) else err invalid_sqs_envelope
item_of name _ = err invalid_sqs_envelope

abbrev pub is_some_hex : Option ℕ → Bool
is_some_hex none = false
is_some_hex (some d) = true

-- Whether `%(?![0-9A-Fa-f]{2})` is found in the text.
unfoldable pub has_invalid_percent : Text → Bool
has_invalid_percent [] = false
has_invalid_percent (c ∷ []) = c == 37
has_invalid_percent (c ∷ d ∷ []) = c == 37 || has_invalid_percent (d ∷ [])
has_invalid_percent (c ∷ d ∷ e ∷ rest) =
    c == 37 && not (is_some_hex (hex_value d) && is_some_hex (hex_value e))
    || has_invalid_percent (d ∷ e ∷ rest)

-- `json.loads` of an SNS message inside the body.
abbrev from_sns : (Text → Option Value) → Value → Result ReadError Value
from_sns loads payload =
    if has_key "Message" payload
    then must_be_text (get_key "Message" payload) >>= (λ message. must_be_mapping (loads message))
    else ok payload

abbrev sole_record : Value → Result ReadError Value
sole_record (sequence (cons v nil)) = must_be_mapping (some v)
sole_record _ = err invalid_sqs_envelope

abbrev is_creation : Value → Bool
is_creation (str s) = starts_with (codes "ObjectCreated:") s
is_creation _ = false

-- The one notification of a record.
unfoldable pub notification_of : (Text → Option Value) → Value → Result ReadError Value
notification_of loads r =
    guard (equals_text (get_key "eventSource" r) (codes "aws:sqs")) invalid_sqs_envelope
    >> (must_be_text (get_key "body" r) >>= (λ body.
        guard (not_empty body) invalid_sqs_envelope
        >> (must_be_mapping (loads body) >>= from_sns loads >>= (λ payload.
            sole_record (get_key "Records" payload) >>= (λ n.
              guard (equals_text (get_key "eventSource" n) (codes "aws:s3")) invalid_sqs_envelope
              >> (guard (is_creation (get_key "eventName" n)) invalid_sqs_envelope >> ok n))))))

abbrev decoded_key : Option Text → Result ReadError Text
decoded_key none = err invalid_sqs_envelope
decoded_key (some key) = ok key

-- The key of the object, unquoted.
unfoldable pub key_of : Text → Result ReadError Text
key_of encoded =
    guard (not (has_invalid_percent encoded)) invalid_sqs_envelope
    >> decoded_key (unquote_plus encoded)

-- `None` or a text.
abbrev pub text_if_any : Value → Result ReadError (Option Text)
text_if_any null = ok none
text_if_any (str s) = ok (some s)
text_if_any _ = err invalid_sqs_envelope

abbrev pub without_null : Option Text → Option Text
without_null none = none
without_null (some s) = if text_eq (lower s) (codes "null") then none else some s

abbrev pub one_line : Option Text → Result ReadError (Option Text)
one_line none = ok none
one_line (some s) =
    guard (not_empty (strip s) && not (has_code 13 (strip s)) && not (has_code 10 (strip s)))
      invalid_sqs_envelope
    >> ok (some (strip s))

abbrev pub has_identity : Option Text → Option Text → Bool
has_identity none none = false
has_identity _ _ = true

-- `object_data.get("eTag") or object_data.get("etag")`.
abbrev pub given_etag : Value → Value
given_etag v = if is_true (get_key "eTag" v) then get_key "eTag" v else get_key "etag" v

-- The ETag and the version of the object's data.
unfoldable pub object_identity : Value → Result ReadError (Option Text × Option Text)
object_identity object_data = text_if_any (given_etag object_data) >>= (λ e.
    text_if_any (get_key "versionId" object_data) >>= (λ v. one_line e >>= (λ etag.
      one_line (without_null v)
      >>= (λ version. guard (has_identity etag version) mutable_s3_object >> ok (etag, version)))))

module _ (loads : Text → Option Value) (config : ReaderConfig) where
  -- The checks of the bucket and of the key.
  unfoldable pub reference_of : Text → Text → Value → Result ReadError S3ObjectReference
  reference_of bucket key object_data =
      guard (text_eq bucket config.event_bucket && starts_with config.event_prefix key)
        unexpected_s3_object
      >> (guard (not (text_eq key config.event_prefix)) unexpected_s3_object
          >> (object_identity object_data
              >>= (λ i. ok (record { bucket = bucket; key = key; etag = i.0; version_id = i.1 }))))

  unfoldable pub decode_sqs_s3_record : Value → Result ReadError S3ObjectReference
  decode_sqs_s3_record r = notification_of loads r >>= (λ n. item_of "s3" n >>= (λ s3.
      item_of "bucket" s3 >>= (λ b. item_of "name" b >>= (λ name.
        item_of "object" s3 >>= (λ object_data. item_of "key" object_data >>= (λ encoded.
          must_be_text name >>= (λ bucket. must_be_text encoded >>= (λ encoded_key.
            key_of encoded_key >>= (λ key. reference_of bucket key object_data)))))))))
