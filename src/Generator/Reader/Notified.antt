-- ===== src/Generator/Reader/Notified.antt =====
-- The notification that the inventory sends (inventory/src/portscanner_inventory/handlers/outbox.py)
-- is the one that the generator decodes (event_reader.py).
use mathlib.Core.List.{append-nil}
use portscanner.Prelude.{
  ℕ, ◌≡◌, refl, ◌∙◌, true, false, Option, none, some, [], ◌∷◌, ◌++◌, ◌/◌, ◌%◌, ◌==◌, arith, ltb,
  Bool-cases, inl, inr, &&-true,
}
use portscanner.Prelude.Text.{Text, codes, text_eq, text_eq_refl, strip}
use portscanner.Prelude.Text.Ascii.{lower, has_code, not_empty}
use portscanner.Prelude.Text.Url.{
  quote_plus, quote_byte, is_ascii, unquote_plus-quote_plus, hex_digit, always_safe, utf8,
  hex_value-hex_digit,
}
use portscanner.Prelude.Value.{Value, str, mapping, int, pos, field, end, get_key}
use portscanner.Prelude.Result.{ok}
use portscanner.Inventory.Outbox.Image.{notification, identity_fields}
use portscanner.Generator.Reader.{
  ReaderConfig, starts_with, has_identity, has_invalid_percent, key_of, one_line, object_identity,
  reference_of, notification_of, decode_sqs_s3_record,
}

-- A text of one line without spaces at its ends.
abbrev pub IsClean : Text → Type 0
IsClean s = (strip s ≡ s) × (not_empty s ≡ true) × (has_code 13 s ≡ false) × (has_code 10 s ≡ false)

abbrev pub IsCleanEtag : Option Text → Type 0
IsCleanEtag none = Unit
IsCleanEtag (some e) = IsClean e

abbrev pub IsCleanVersion : Option Text → Type 0
IsCleanVersion none = Unit
IsCleanVersion (some v) = IsClean v × (text_eq (lower v) (codes "null") ≡ false)

has_invalid_percent-plain :
    (c : ℕ) (s : Text) → (c == 37) ≡ false → has_invalid_percent (c ∷ s) ≡ has_invalid_percent s
unfolding has_invalid_percent
has_invalid_percent-plain c [] h = h
has_invalid_percent-plain c (d ∷ []) h = rw h refl
has_invalid_percent-plain c (d ∷ e ∷ rest) h = rw h refl

has_invalid_percent-quote_byte :
    (c : ℕ) (s : Text)
    → ltb c 128 ≡ true
    → has_invalid_percent (quote_byte c ++ s) ≡ has_invalid_percent s
unfolding quote_byte has_invalid_percent
has_invalid_percent-quote_byte c s h = elim (Bool-cases (always_safe c)) [
  | inl safe ↦ rw safe (has_invalid_percent-plain c s (ground arith))
  | inr unsafe ↦
      rw
        (
          unsafe,
          hex_value-hex_digit (c / 16) (ground arith),
          hex_value-hex_digit (c % 16) (omega arith),
        )
        (has_invalid_percent-plain (hex_digit (c / 16)) (hex_digit (c % 16) ∷ s) (ground arith)
          ∙ has_invalid_percent-plain (hex_digit (c % 16)) s (ground arith))
]

has_invalid_percent-quote_plus :
    (s : Text) → is_ascii s ≡ true → has_invalid_percent (quote_plus s) ≡ false
unfolding quote_plus utf8 has_invalid_percent
has_invalid_percent-quote_plus [] h = refl
has_invalid_percent-quote_plus (c ∷ cs) h =
    let p = &&-true (ltb c 128) _ h in
    elim (Bool-cases (c == 32)) [
      | inl space ↦ rw space (
          has_invalid_percent-plain 43 (quote_plus cs) refl ∙ has_invalid_percent-quote_plus cs p.1)
      | inr other ↦
          rw (other, p.0, append-nil)
            (has_invalid_percent-quote_byte c (quote_plus cs) p.0
              ∙ has_invalid_percent-quote_plus cs p.1)
    ]

key_of-quote_plus : (key : Text) → is_ascii key ≡ true → key_of (quote_plus key) ≡ ok key
unfolding key_of
key_of-quote_plus key h =
    rw (has_invalid_percent-quote_plus key h, unquote_plus-quote_plus key h) refl

one_line_clean : (o : Option Text) → IsCleanEtag o → one_line o ≡ ok o
one_line_clean none h = refl
one_line_clean (some s) h = rw (h.0, h.1, h.2, h.3) refl

-- The data of an object in a notification.
abbrev object_value : Text → ℕ → Option Text → Option Text → Value
object_value key size e v =
    mapping
      (field "key" (str (quote_plus key)) (field "size" (int (pos size)) (identity_fields e v end)))

object_identity-object_value :
    (key : Text) (size : ℕ) (e v : Option Text)
    → IsCleanEtag e
    → IsCleanVersion v
    → has_identity e v ≡ true
    → object_identity (object_value key size e v) ≡ ok (e, v)
unfolding object_identity
object_identity-object_value key size none none h k t = absurd (cc)
object_identity-object_value key size (some []) v h k t = absurd (cc (h.1))
object_identity-object_value key size (some (c ∷ cs)) none h k t =
    rw (one_line_clean (some (c ∷ cs)) h) refl
object_identity-object_value key size none (some v) h k t =
    rw (k.1, one_line_clean (some v) k.0) refl
object_identity-object_value key size (some (c ∷ cs)) (some v) h k t =
    rw (one_line_clean (some (c ∷ cs)) h, k.1, one_line_clean (some v) k.0) refl

-- The generator reads of a message of the inventory the object that the inventory has stored: an
-- SQS record whose body is the JSON text of the notification of an object in the configured bucket
-- is decoded to that bucket, key, ETag and version. The key has only ASCII characters, and it is
-- the configured prefix with more after it. There is an ETag or a version; each one that is there
-- is not empty and has no line ends and no spaces at its ends, and the version is not the word null
-- in any case.
pub decode_sqs_s3_record-notification :
    (loads : Text → Option Value) (config : ReaderConfig) (sqs_record : Value) (body key : Text)
    (size : ℕ) (e v : Option Text)
    → get_key "eventSource" sqs_record ≡ str (codes "aws:sqs")
    → get_key "body" sqs_record ≡ str body
    → not_empty body ≡ true
    → loads body ≡ some (notification config.event_bucket key size e v)
    → is_ascii key ≡ true
    → starts_with config.event_prefix key ≡ true
    → text_eq key config.event_prefix ≡ false
    → IsCleanEtag e
    → IsCleanVersion v
    → has_identity e v ≡ true
    → decode_sqs_s3_record loads config sqs_record
      ≡ ok (record { bucket = config.event_bucket; key = key; etag = e; version_id = v })
unfolding decode_sqs_s3_record notification_of notification reference_of starts_with
decode_sqs_s3_record-notification loads config sqs_record body key size e v from_sqs has_body filled
      loaded ascii under other clean_e clean_v has =
    rw
      (
        from_sqs,
        has_body,
        filled,
        loaded,
        key_of-quote_plus key ascii,
        text_eq_refl config.event_bucket,
        under,
        other,
        object_identity-object_value key size e v clean_e clean_v has,
      )
      refl
