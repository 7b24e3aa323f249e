-- ===== src/Generator/Reader/Fetch.antt =====
-- `fetch_target_event` and `read_target_event` (event_reader.py). The client of S3 is the interface
-- `ObjectStore`, the parser of events is `parser`.
use portscanner.Prelude.{ℕ, suc, Bool, ◌&&◌, not, Option, List}
use portscanner.Prelude.Text.{Text}
use portscanner.Prelude.Value.{Value, get_key, is_null}
use portscanner.Prelude.Exec.{Exec, pure, raise, lift, attempt, ◌>>=◌, ◌>>◌}
use portscanner.Prelude.Result.{Result, ok, err, guard}
use portscanner.Generator.Reader.{
  ReadError, runtime_error, ReaderConfig, S3ObjectReference, decode_sqs_s3_record,
}
use portscanner.Generator.Reader.Response.{
  text_given, on_get_error, check_response, bounded, load_json_document,
}

pub record GetObject : Type 0 where
  pub bucket : Text
  pub key : Text
  pub if_match : Option Text
  pub version_id : Option Text

-- The client of S3. `can_read` is whether a body has a `read` that can be called; `read` gives none
-- for what is no bytes; `close` does nothing where the body has none.
pub record ObjectStore (W : Type 0) : Type 0 where
  pub get_object : GetObject → Exec W ReadError Value
  pub can_read : Value → Bool
  pub read : Value → ℕ → Exec W ReadError (Option (List ℕ))
  pub close : Value → Exec W ReadError (Unit {0})

-- `try: m  finally: c`.
abbrev pub after_close :
    {W A : Type 0} → Result ReadError A → Result ReadError (Unit {0}) × W → Result ReadError A × W
after_close r (ok u, w) = (r, w)
after_close r (err e, w) = (err e, w)

unfoldable pub closing :
    {W A : Type 0} → Exec W ReadError A → Exec W ReadError (Unit {0}) → Exec W ReadError A
closing m c w = after_close (m w).0 (c (m w).1)

module _ (show : Value → Text) (load_unique : Text → Option Value) (config : ReaderConfig)
    {W A : Type 0} (store : ObjectStore W) (parser : Value → Result ReadError A) where
  unfoldable pub get_object : S3ObjectReference → Exec W ReadError Value
  get_object r =
      attempt
        (store.get_object (record {
          bucket = r.bucket;
          key = r.key;
          if_match = text_given r.etag;
          version_id = text_given r.version_id;
        }))
        (λ e. raise (on_get_error e))

  -- At most one byte more than an event may have is read.
  unfoldable pub read_content : Value → Exec W ReadError (List ℕ)
  read_content body = do
    lift (guard (not (is_null body) && store.can_read body) runtime_error)
    content ← closing (store.read body (suc config.max_event_bytes)) (store.close body)
    lift (bounded show load_unique config content)

  unfoldable pub fetch_target_event : S3ObjectReference → Exec W ReadError A
  fetch_target_event r = do
    response ← get_object r
    lift (check_response show load_unique config r response)
    content ← read_content (get_key "Body" response)
    document ← lift (load_json_document show load_unique config content)
    lift (parser document)

  unfoldable pub read_target_event :
      (Text → Option Value) → Value → Exec W ReadError (S3ObjectReference × A)
  read_target_event loads sqs_record = do
    r ← lift (decode_sqs_s3_record loads config sqs_record)
    event ← fetch_target_event r
    pure (r, event)
