-- ===== src/Generator/Reader/Fetched.antt =====
-- What an event that was fetched went through (event_reader.py, `fetch_target_event`).
use portscanner.Prelude.{
  ℕ, suc, ◌≤◌, ◌≡◌, refl, sym, true, [], ◌∷◌, ◌∙◌, ap, ◌&&◌, not, Option, none, some, List, leb,
  length, leb→le,
}
use portscanner.Prelude.Text.{Text}
use portscanner.Prelude.Text.Url.{decode_utf8}
use portscanner.Prelude.Value.{
  pos, Value, Fields, mapping, get_key, is_null, is_true, text_of_value,
}
use portscanner.Prelude.Exec.{Exec, lift, raise, attempt, recover}
use portscanner.Prelude.Exec.Steps.{bind-ok, lift-ok}
use portscanner.Prelude.Result.{Result, ok, err, guard, guard-eq-ok, ok_inj}
use portscanner.Generator.Reader.{
  ReadError, malformed_target_event, runtime_error, ReaderConfig, S3ObjectReference,
}
use portscanner.Generator.Reader.Response.{
  text_given, on_get_error, int_of_value, without_etag_quotes, check_response, bounded,
  load_json_document,
}
use portscanner.Generator.Reader.Checked.{check_response-Matches, load_json_document-ok}
use portscanner.Generator.Reader.Fetch.{
  GetObject, ObjectStore, get_object, read_content, fetch_target_event, closing, after_close,
}

module _ (show : Value → Text) (load_unique : Text → Option Value) (config : ReaderConfig)
    {W A : Type 0} (store : ObjectStore W) (parser : Value → Result ReadError A) where
  closing-ok :
      {B : Type 0} (m : Exec W ReadError B) (c : Exec W ReadError (Unit {0})) (w : W) {b : B}
      → (closing m c w).0 ≡ ok b
      → (m w).0 ≡ ok b
  unfolding closing
  closing-ok m c w h = by_close (m w).0 (c (m w).1) h
    where
      by_close :
          {B : Type 0} (r : Result ReadError B) (x : Result ReadError (Unit {0}) × W) {b : B}
          → (after_close r x).0 ≡ ok b
          → r ≡ ok b
      by_close r (ok u, w) k = k
      by_close r (err e, w) k = absurd (cc)

  bounded-length :
      (o : Option (List ℕ)) {content : List ℕ}
      → bounded show load_unique config o ≡ ok content
      → (o ≡ some content) × (length content ≤ config.max_event_bytes)
  bounded-length none h = absurd (cc)
  bounded-length (some bytes) {content} h =
      let p = guard-eq-ok (leb (length bytes) config.max_event_bytes) malformed_target_event _ h in
      let same : bytes ≡ content = ok_inj p.1 in
      (ap (λ x. some x) same, rw (← same) (leb→le (length bytes) config.max_event_bytes p.0))

  -- A text of the reference is given to S3, unless it is empty.
  abbrev pub IsGiven : Option Text → Option Text → Type 0
  IsGiven (some (c ∷ cs)) given = given ≡ some (c ∷ cs)
  IsGiven _ given = given ≡ none

  -- What the store was asked for, what it gave, and what came of it.
  pub record WasFetched (r : S3ObjectReference) (w : W) (event : A) : Type 0 where
    pub request : GetObject
    pub of_bucket : request.bucket ≡ r.bucket
    pub of_key : request.key ≡ r.key
    pub of_etag : IsGiven r.etag request.if_match
    pub of_version : IsGiven r.version_id request.version_id
    pub response : Value
    pub answered : (store.get_object request w).0 ≡ ok response
    pub length_answered :
        (n : ℕ)
        → int_of_value (get_key "ContentLength" response) ≡ some (pos n)
        → n ≤ config.max_event_bytes
    pub etag_answered :
        (t : Text)
        → request.if_match ≡ some t
        → is_true (get_key "ETag" response) ≡ true
        → without_etag_quotes (text_of_value show (get_key "ETag" response)) ≡ without_etag_quotes t
    pub version_answered :
        (t : Text)
        → request.version_id ≡ some t
        → is_true (get_key "VersionId" response) ≡ true
        → text_of_value show (get_key "VersionId" response) ≡ t
    pub content : List ℕ
    pub was_read :
        (store.read
          (get_key "Body" response)
          (suc config.max_event_bytes)
          (store.get_object request w).1).0
        ≡ ok (some content)
    pub within : length content ≤ config.max_event_bytes
    pub text : Text
    pub decoded : decode_utf8 content ≡ some text
    pub fields : Fields
    pub loaded : load_unique text ≡ some (mapping fields)
    pub parsed : parser (mapping fields) ≡ ok event

  text_given-IsGiven : (o : Option Text) → IsGiven o (text_given o)
  text_given-IsGiven none = refl
  text_given-IsGiven (some []) = refl
  text_given-IsGiven (some (c ∷ cs)) = refl

  abbrev request_of : S3ObjectReference → GetObject
  request_of r = record {
    bucket = r.bucket;
    key = r.key;
    if_match = text_given r.etag;
    version_id = text_given r.version_id;
  }

  -- An answer that is returned is the store's, and so is the state.
  get_object-answered :
      (r : S3ObjectReference) (w : W) {response : Value}
      → (get_object show load_unique config store parser r w).0 ≡ ok response
      → ((store.get_object (request_of r) w).0 ≡ ok response)
        × ((get_object show load_unique config store parser r w).1
            ≡ (store.get_object (request_of r) w).1)
  unfolding get_object attempt raise
  get_object-answered r w h = by_end (store.get_object (request_of r) w) h
    where
      by_end :
          (x : Result ReadError Value × W) {response : Value}
          → (recover (λ e. raise (on_get_error e)) x).0 ≡ ok response
          → (x.0 ≡ ok response) × ((recover (λ e. raise (on_get_error e)) x).1 ≡ x.1)
      by_end (ok v, w) k = (k, refl)
      by_end (err e, w) k = absurd (cc)

  lifted-ok : {B : Type 0} (r : Result ReadError B) (w : W) {b : B} → (lift r w).0 ≡ ok b → r ≡ ok b
  unfolding lift
  lifted-ok r w h = h

  read_content-read :
      (body : Value) (w : W) {content : List ℕ}
      → (read_content show load_unique config store parser body w).0 ≡ ok content
      → ((store.read body (suc config.max_event_bytes) w).0 ≡ ok (some content))
        × (length content ≤ config.max_event_bytes)
  unfolding read_content
  read_content-read body w h =
      let (u, can_read, h₁) =
        lift-ok (guard (not (is_null body) && store.can_read body) runtime_error) _ w h in
      let (found, was_read, h₂) =
        bind-ok (closing (store.read body (suc config.max_event_bytes)) (store.close body)) _ w
          h₁ in
      let p = bounded-length found (lifted-ok (bounded show load_unique config found) _ h₂) in
      (closing-ok _ (store.close body) w was_read ∙ ap (λ o. ok o) p.0, p.1)

  -- An event that is returned was parsed from the one JSON object that the bytes of a body hold, no more
  -- of them than the limit. S3 gave the body when asked for the object of the reference, with each of
  -- its ETag and version that is not empty. Where the answer has an ETag or a version and S3 was asked for
  -- one, it is the same, an ETag apart from spaces and quotes at its ends; and a length that is answered
  -- is within the limit.
  pub fetch_target_event-WasFetched :
      (r : S3ObjectReference) (w : W) {event : A}
      → (fetch_target_event show load_unique config store parser r w).0 ≡ ok event
      → WasFetched r w event
  unfolding fetch_target_event
  fetch_target_event-WasFetched r w h =
      let (found, got, h₁) = bind-ok (get_object show load_unique config store parser r) _ w h in
      let w₁ = (get_object show load_unique config store parser r w).1 in
      let (u, checked, h₂) = lift-ok (check_response show load_unique config r found) _ w₁ h₁ in
      let (bytes, taken, h₃) =
        bind-ok (read_content show load_unique config store parser (get_key "Body" found)) _ w₁
          h₂ in
      let w₂ = (read_content show load_unique config store parser (get_key "Body" found) w₁).1 in
      let (document, is_json, h₄) =
        lift-ok (load_json_document show load_unique config bytes) _ w₂ h₃ in
      let (was_taken, short) = read_content-read (get_key "Body" found) w₁ taken in
      let (was_answered, same) = get_object-answered r w got in
      let matches = check_response-Matches show load_unique config r found checked in
      let (utf8, fs, is_utf8, is_object, is_document) =
        load_json_document-ok show load_unique config bytes is_json in
      record {
        request = request_of r;
        of_bucket = refl;
        of_key = refl;
        of_etag = text_given-IsGiven r.etag;
        of_version = text_given-IsGiven r.version_id;
        response = found;
        answered = was_answered;
        length_answered = matches.length_is_within;
        etag_answered = matches.etag_is_same;
        version_answered = matches.version_is_same;
        content = bytes;
        was_read = rw same at was_taken;
        within = short;
        text = utf8;
        decoded = is_utf8;
        fields = fs;
        loaded = is_object;
        parsed = ap (λ d. parser d) (sym is_document) ∙ lifted-ok (parser document) w₂ h₄;
      }
