-- ===== src/Generator/Reader/Response.antt =====
-- The checks of an answer of S3, and the document of an event (event_reader.py).
use portscanner.Prelude.{
  ℕ, Bool, true, false, ◌||◌, not, ◌∷◌, Option, none, some, List, if◌then◌else◌, leb, ltb, length,
}
use portscanner.Prelude.Text.{Text, codes, text_eq, strip}
use portscanner.Prelude.Text.Ascii.{strip_code, int_of_text}
use portscanner.Prelude.Text.Url.{decode_utf8}
use portscanner.Prelude.Value.{
  ℤ, pos, negsuc, Value, null, boolean, int, number, str, mapping, get_key, is_true, text_of_value,
}
use portscanner.Prelude.Result.{Result, ok, err, guard, ◌>>=◌}
use portscanner.Generator.Reader.{
  ReadError, mutable_s3_object, malformed_target_event, runtime_error, parser_error, remote,
  ReaderConfig, S3ObjectReference,
}

-- What an exception of the parser is: a `KeyError`, `TypeError` or `ValueError`, or another one.
pub data ParserFailure : Type 0 where
  refused other_failure : ParserFailure

-- `int(v)` of what S3 answers: a `Decimal` there is integral.
unfoldable pub int_of_value : Value → Option ℤ
int_of_value (int n) = some n
int_of_value (boolean true) = some (pos 1)
int_of_value (boolean false) = some (pos 0)
int_of_value (number n) = n
int_of_value (str s) = int_of_text s
int_of_value _ = none

abbrev pub exceeds : ℤ → ℕ → Bool
exceeds (pos n) bound = ltb bound n
exceeds (negsuc n) bound = false

abbrev pub length_within : ℕ → Option ℤ → Result ReadError (Unit {0})
length_within bound none = err runtime_error
length_within bound (some n) = guard (not (exceeds n bound)) malformed_target_event

abbrev pub text_given : Option Text → Option Text
text_given (some (c ∷ cs)) = some (c ∷ cs)
text_given _ = none

-- `_without_etag_quotes`.
unfoldable pub without_etag_quotes : Text → Text
without_etag_quotes s = strip_code 34 (strip s)

abbrev precondition_failed : Option Text → Bool
precondition_failed none = false
precondition_failed (some code) =
    text_eq code (codes "PreconditionFailed") || text_eq code (codes "412")

unfoldable pub on_get_error : ReadError → ReadError
on_get_error (remote code) = if precondition_failed code then mutable_s3_object else remote code
on_get_error e = e

abbrev contract_result : {A : Type 0} → Result ParserFailure A → Result ReadError A
contract_result (ok a) = ok a
contract_result (err refused) = err malformed_target_event
contract_result (err other_failure) = err parser_error

-- `parse_shared_contract`.
unfoldable pub parse_shared_contract :
    {A : Type 0} → (Value → Result ParserFailure A) → Value → Result ReadError A
parse_shared_contract parse_target_event document = contract_result (parse_target_event document)

module _ (show : Value → Text) (load_unique : Text → Option Value) (config : ReaderConfig) where
  abbrev pub document_of : Option Text → Option Value
  document_of none = none
  document_of (some text) = load_unique text

  abbrev pub one_object : Option Value → Result ReadError Value
  one_object (some (mapping fs)) = ok (mapping fs)
  one_object _ = err malformed_target_event

  -- `_load_json_document`: `load_unique` is `json.loads`, none where it raises or a key stands twice.
  unfoldable pub load_json_document : List ℕ → Result ReadError Value
  load_json_document content = one_object (document_of (decode_utf8 content))

  -- A header that is there must be the one of the reference.
  abbrev pub same_etag : Option Text → Value → Bool
  same_etag none answered = true
  same_etag (some e) answered =
      not (is_true answered)
      || text_eq (without_etag_quotes (text_of_value show answered)) (without_etag_quotes e)

  abbrev pub same_version : Option Text → Value → Bool
  same_version none answered = true
  same_version (some v) answered = not (is_true answered) || text_eq (text_of_value show answered) v

  abbrev pub content_length_within : Value → Result ReadError (Unit {0})
  content_length_within null = ok tt
  content_length_within v = length_within config.max_event_bytes (int_of_value v)

  -- The checks of the answer before its body is read.
  unfoldable pub check_response : S3ObjectReference → Value → Result ReadError (Unit {0})
  check_response r response = content_length_within (get_key "ContentLength" response) >>= (λ a.
      guard (same_etag (text_given r.etag) (get_key "ETag" response)) mutable_s3_object >>= (λ b.
        guard (same_version (text_given r.version_id) (get_key "VersionId" response))
          mutable_s3_object))

  abbrev pub bounded : Option (List ℕ) → Result ReadError (List ℕ)
  bounded none = err runtime_error
  bounded (some content) =
      guard (leb (length content) config.max_event_bytes) malformed_target_event
      >>= (λ u. ok content)
