-- ===== src/Generator/Reader/Checked.antt =====
-- What the checks of an answer of S3 and of its document give (event_reader.py, `fetch_target_event`).
use portscanner.Prelude.{
  ℕ, ◌≤◌, ◌≡◌, refl, Bool, true, false, not, Option, none, some, List, ltb, arith,
}
use portscanner.Prelude.Text.{Text, text_eq_sound}
use portscanner.Prelude.Text.Url.{decode_utf8}
use portscanner.Prelude.Value.{
  ℤ, pos, negsuc, Value, Fields, null, boolean, int, number, str, mapping, object, sequence,
  get_key, is_true, text_of_value,
}
use portscanner.Prelude.Result.{ok, guard, >>=-eq-ok}
use portscanner.Generator.Reader.{ReadError, mutable_s3_object, ReaderConfig, S3ObjectReference}
use portscanner.Generator.Reader.Response.{
  int_of_value, text_given, without_etag_quotes, length_within, document_of, one_object, same_etag,
  same_version, content_length_within, check_response, load_json_document,
}

guard-true : (b : Bool) (e : ReadError) {u : Unit {0}} → guard b e ≡ ok u → b ≡ true
guard-true true e h = refl
guard-true false e h = absurd (cc)

module _ (show : Value → Text) (load_unique : Text → Option Value) (config : ReaderConfig) where
  length_within-le :
      (o : Option ℤ) {u : Unit {0}}
      → length_within config.max_event_bytes o ≡ ok u
      → (n : ℕ) → o ≡ some (pos n)
      → n ≤ config.max_event_bytes
  length_within-le none h n e = absurd (cc)
  length_within-le (some (negsuc m)) h n e = absurd (cc)
  length_within-le (some (pos m)) h n e =
      let same : m ≡ n = cc in
      let within : not (ltb config.max_event_bytes m) ≡ true = guard-true _ _ h in
      rw (← same) (ground arith)

  content_length-le :
      (v : Value) {u : Unit {0}}
      → content_length_within show load_unique config v ≡ ok u
      → (n : ℕ) → int_of_value v ≡ some (pos n)
      → n ≤ config.max_event_bytes
  content_length-le null h n e = absurd (unfold int_of_value in cc)
  content_length-le (boolean b) h n e = length_within-le _ h n e
  content_length-le (int i) h n e = length_within-le _ h n e
  content_length-le (number i) h n e = length_within-le _ h n e
  content_length-le (str s) h n e = length_within-le _ h n e
  content_length-le (mapping fs) h n e = length_within-le _ h n e
  content_length-le (object s fs) h n e = length_within-le _ h n e
  content_length-le (sequence vs) h n e = length_within-le _ h n e

  -- The length, the ETag and the version of an answer that passes.
  pub record Matches (r : S3ObjectReference) (response : Value) : Type 0 where
    pub length_is_within :
        (n : ℕ)
        → int_of_value (get_key "ContentLength" response) ≡ some (pos n)
        → n ≤ config.max_event_bytes
    pub etag_is_same :
        (t : Text)
        → text_given r.etag ≡ some t
        → is_true (get_key "ETag" response) ≡ true
        → without_etag_quotes (text_of_value show (get_key "ETag" response)) ≡ without_etag_quotes t
    pub version_is_same :
        (t : Text)
        → text_given r.version_id ≡ some t
        → is_true (get_key "VersionId" response) ≡ true
        → text_of_value show (get_key "VersionId" response) ≡ t

  same_etag-eq :
      (o : Option Text) (v : Value)
      → same_etag show load_unique config o v ≡ true
      → (t : Text) → o ≡ some t
      → is_true v ≡ true
      → without_etag_quotes (text_of_value show v) ≡ without_etag_quotes t
  same_etag-eq none v h t e k = absurd (cc)
  same_etag-eq (some s) v h t e k =
      let same : s ≡ t = cc in rw (← same) (text_eq_sound _ _ (rw k at h))

  same_version-eq :
      (o : Option Text) (v : Value)
      → same_version show load_unique config o v ≡ true
      → (t : Text) → o ≡ some t
      → is_true v ≡ true
      → text_of_value show v ≡ t
  same_version-eq none v h t e k = absurd (cc)
  same_version-eq (some s) v h t e k =
      let same : s ≡ t = cc in rw (← same) (text_eq_sound _ _ (rw k at h))

  pub check_response-Matches :
      (r : S3ObjectReference) (response : Value) {u : Unit {0}}
      → check_response show load_unique config r response ≡ ok u
      → Matches r response
  unfolding check_response
  check_response-Matches r response h =
      let (a, is_within, h₁) =
        >>=-eq-ok (content_length_within show load_unique config (get_key "ContentLength" response))
          _ h in
      let (b, is_same, h₂) =
        >>=-eq-ok
          (guard (same_etag show load_unique config (text_given r.etag) (get_key "ETag" response))
            mutable_s3_object)
          _ h₁ in
      record {
        length_is_within = content_length-le _ is_within;
        etag_is_same = same_etag-eq (text_given r.etag) _ (guard-true _ _ is_same);
        version_is_same = same_version-eq (text_given r.version_id) _ (guard-true _ _ h₂);
      }

  one_object-ok :
      (o : Option Value) {d : Value}
      → one_object show load_unique config o ≡ ok d
      → (fs : Fields) × (o ≡ some (mapping fs)) × (d ≡ mapping fs)
  one_object-ok (some (mapping fs)) h = (fs, refl, cc)
  one_object-ok none h = absurd (cc)
  one_object-ok (some null) h = absurd (cc)
  one_object-ok (some (boolean b)) h = absurd (cc)
  one_object-ok (some (int i)) h = absurd (cc)
  one_object-ok (some (number i)) h = absurd (cc)
  one_object-ok (some (str s)) h = absurd (cc)
  one_object-ok (some (object s fs)) h = absurd (cc)
  one_object-ok (some (sequence vs)) h = absurd (cc)

  -- A document is the one JSON object of a text.
  pub load_json_document-ok :
      (content : List ℕ) {d : Value}
      → load_json_document show load_unique config content ≡ ok d
      → (text : Text) × (fs : Fields) × (decode_utf8 content ≡ some text)
        × (load_unique text ≡ some (mapping fs))
        × (d ≡ mapping fs)
  unfolding load_json_document
  load_json_document-ok content h = by_text (decode_utf8 content) refl h
    where
      by_text :
          (o : Option Text) {d : Value}
          → decode_utf8 content ≡ o
          → one_object show load_unique config (document_of show load_unique config o) ≡ ok d
          → (text : Text) × (fs : Fields) × (decode_utf8 content ≡ some text)
            × (load_unique text ≡ some (mapping fs))
            × (d ≡ mapping fs)
      by_text none e k = absurd (cc)
      by_text (some text) e k =
          let (fs, loaded, same) = one_object-ok (load_unique text) k in (text, fs, e, loaded, same)
