-- ===== src/Generator/Reader/Decoded.antt =====
-- What a decoded notification names (event_reader.py, `decode_sqs_s3_record`).
use portscanner.Prelude.{◌≡◌, ◌≢◌, true, ◌&&◌, not, Option, &&-true}
use portscanner.Prelude.Text.{Text, text_eq, text_eq_sound, text_eq_refl}
use portscanner.Prelude.Value.{Value, get_key}
use portscanner.Prelude.Result.{ok, >>=-eq-ok, guard-eq-ok, ok_inj}
use portscanner.Generator.Reader.{
  unexpected_s3_object, mutable_s3_object, ReaderConfig, S3ObjectReference, starts_with,
  has_identity, object_identity, reference_of, decode_sqs_s3_record, notification_of, item_of,
  must_be_text, key_of, text_if_any, given_etag, one_line, without_null,
}

-- An object of the configured bucket, under the prefix and not the prefix itself, with an ETag or a
-- version.
abbrev pub IsInSource : ReaderConfig → S3ObjectReference → Type 0
IsInSource config r =
    (r.bucket ≡ config.event_bucket)
    × (starts_with config.event_prefix r.key ≡ true)
    × (r.key ≢ config.event_prefix)
    × (has_identity r.etag r.version_id ≡ true)

object_identity-has :
    (v : Value) {i : Option Text × Option Text}
    → object_identity v ≡ ok i
    → has_identity i.0 i.1 ≡ true
unfolding object_identity
object_identity-has v {i} h =
    let (e, he, h₁) = >>=-eq-ok (text_if_any (given_etag v)) _ h in
    let (w, hw, h₂) = >>=-eq-ok (text_if_any (get_key "versionId" v)) _ h₁ in
    let (x, hx, h₃) = >>=-eq-ok (one_line e) _ h₂ in
    let (y, hy, h₄) = >>=-eq-ok (one_line (without_null w)) _ h₃ in
    let p = guard-eq-ok (has_identity x y) mutable_s3_object _ h₄ in
    let same : ◌≡◌ {A = Option Text × Option Text} (x, y) i = ok_inj p.1 in rw (← same) p.0

reference_of-IsInSource :
    (loads : Text → Option Value) (config : ReaderConfig) (bucket key : Text) (v : Value)
    {r : S3ObjectReference}
    → reference_of loads config bucket key v ≡ ok r
    → IsInSource config r
unfolding reference_of
reference_of-IsInSource loads config bucket key v {r} h =
    let p =
      guard-eq-ok (text_eq bucket config.event_bucket && starts_with config.event_prefix key)
        unexpected_s3_object _ h in
    let q = guard-eq-ok (not (text_eq key config.event_prefix)) unexpected_s3_object _ p.1 in
    let (i, hi, h₃) = >>=-eq-ok (object_identity v) _ q.1 in
    let both = &&-true _ _ p.0 in
    let made : ◌≡◌ {A = S3ObjectReference}
        (record { bucket = bucket; key = key; etag = i.0; version_id = i.1 }) r =
      ok_inj h₃ in
    rw (← made) (
      text_eq_sound bucket config.event_bucket both.0,
      both.1,
      λ same. absurd (cc (q.0, text_eq_refl config.event_prefix, same)),
      object_identity-has v hi,
    )

-- A record that is decoded names one object of the configured bucket, under the prefix and not the
-- prefix itself, and identifies it by an ETag or a version.
pub decode_sqs_s3_record-IsInSource :
    (loads : Text → Option Value) (config : ReaderConfig) (sqs_record : Value)
    {r : S3ObjectReference}
    → decode_sqs_s3_record loads config sqs_record ≡ ok r
    → IsInSource config r
unfolding decode_sqs_s3_record
decode_sqs_s3_record-IsInSource loads config sqs_record h =
    let (n, e₁, h₁) = >>=-eq-ok (notification_of loads sqs_record) _ h in
    let (s3, e₂, h₂) = >>=-eq-ok (item_of "s3" n) _ h₁ in
    let (b, e₃, h₃) = >>=-eq-ok (item_of "bucket" s3) _ h₂ in
    let (name, e₄, h₄) = >>=-eq-ok (item_of "name" b) _ h₃ in
    let (v, e₅, h₅) = >>=-eq-ok (item_of "object" s3) _ h₄ in
    let (encoded, e₆, h₆) = >>=-eq-ok (item_of "key" v) _ h₅ in
    let (bucket, e₇, h₇) = >>=-eq-ok (must_be_text name) _ h₆ in
    let (encoded_key, e₈, h₈) = >>=-eq-ok (must_be_text encoded) _ h₇ in
    let (key, e₉, h₉) = >>=-eq-ok (key_of encoded_key) _ h₈ in
    reference_of-IsInSource loads config bucket key v h₉
