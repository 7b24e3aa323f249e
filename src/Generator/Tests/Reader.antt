-- ===== src/Generator/Tests/Reader.antt =====
-- The reading of an event at one notification of the inventory.
use portscanner.Prelude.{ℕ, ◌≡◌, refl, true, Option, none, some, [], if◌then◌else◌}
use portscanner.Prelude.Text.{Text, codes, text_eq, strip}
use portscanner.Prelude.Text.Ascii.{lower, strip_code}
use portscanner.Prelude.Text.Url.{
  quote_plus, quote_byte, utf8, unquote_plus, unquote_bytes, decode_utf8,
}
use portscanner.Prelude.Value.{Value, str, mapping, object, int, pos, end, field}
use portscanner.Prelude.Exec.{pure, raise, lift, attempt, ◌>>=◌}
use portscanner.Prelude.Result.{Result, ok}
use portscanner.Inventory.Outbox.Image.{notification}
use portscanner.Generator.Reader.{
  ReadError, ReaderConfig, S3ObjectReference, starts_with, decode_sqs_s3_record, notification_of,
  key_of, has_invalid_percent, object_identity, reference_of,
}
use portscanner.Generator.Reader.Decoded.{IsInSource, decode_sqs_s3_record-IsInSource}
use portscanner.Generator.Reader.Notified.{decode_sqs_s3_record-notification}
use portscanner.Generator.Reader.Response.{
  check_response, load_json_document, int_of_value, without_etag_quotes,
}
use portscanner.Generator.Reader.Fetch.{
  ObjectStore, fetch_target_event, get_object, read_content, closing,
}
use portscanner.Generator.Reader.Fetched.{WasFetched, fetch_target_event-WasFetched}

abbrev config : ReaderConfig
config = record { event_bucket = codes "b"; event_prefix = codes "events/"; max_event_bytes = 9 }

abbrev key : Text
key = codes "events/a 1.json"

-- The one text that is JSON here is "n".
abbrev loads : Text → Option Value
loads t =
    if text_eq t (codes "n")
    then some (notification (codes "b") key 2 (some (codes "e1")) none)
    else none

abbrev sqs_record : Value
sqs_record =
    mapping (field "eventSource" (str (codes "aws:sqs")) (field "body" (str (codes "n")) end))

abbrev reference : S3ObjectReference
reference = record { bucket = codes "b"; key = key; etag = some (codes "e1"); version_id = none }

decode_sqs_s3_record-notification_example :
    decode_sqs_s3_record loads config sqs_record ≡ ok reference
unfolding strip starts_with lower
decode_sqs_s3_record-notification_example =
    decode_sqs_s3_record-notification loads config sqs_record (codes "n") key 2 (some (codes "e1"))
      none refl refl refl refl refl refl refl (refl, refl, refl, refl) tt refl

is_decoded : decode_sqs_s3_record loads config sqs_record ≡ ok reference
unfolding decode_sqs_s3_record notification_of key_of has_invalid_percent object_identity
    reference_of starts_with notification quote_plus quote_byte utf8 unquote_plus unquote_bytes
    decode_utf8 strip lower
is_decoded = refl

decode_sqs_s3_record-IsInSource_example : IsInSource config reference
decode_sqs_s3_record-IsInSource_example =
    decode_sqs_s3_record-IsInSource loads config sqs_record is_decoded

abbrev document : Value
document = mapping (field "x" (int (pos 1)) end)

abbrev load_unique : Text → Option Value
load_unique t = some document

abbrev show : Value → Text
show v = []

abbrev parser : Value → Result ReadError ℕ
parser v = ok 7

abbrev store : ObjectStore (Unit {0})
store = record {
  get_object = λ r w. (
    ok (
        mapping (
          field "ContentLength" (int (pos 2))
            (field "ETag" (str (codes "\"e1\"")) (field "Body" (object [] end) end)))),
    w,
  );
  can_read = λ body. true;
  read = λ body n w. (ok (some (codes "{}")), w);
  close = λ body w. (ok tt, w);
}

is_fetched : (fetch_target_event show load_unique config store parser reference tt).0 ≡ ok 7
unfolding fetch_target_event get_object read_content closing check_response load_json_document
    int_of_value without_etag_quotes strip strip_code decode_utf8 attempt lift pure raise ◌>>=◌
is_fetched = refl

fetch_target_event-WasFetched_example :
    WasFetched show load_unique config store parser reference tt 7
fetch_target_event-WasFetched_example =
    fetch_target_event-WasFetched show load_unique config store parser reference tt is_fetched
