-- ===== src/Inventory/Outbox/Order/Checked.antt =====
-- The checks of a record give the hash of the body (handlers/outbox.py, `dispatch_record`).
use portscanner.Prelude.{
  ◌≡◌, refl, ap, if◌then◌else◌, ◌∙◌, Bool, true, false, ◌&&◌, Option, none, some,
}
use portscanner.Prelude.Text.{Text, text_eq}
use portscanner.Prelude.Text.Ascii.{is_sha256}
use portscanner.Prelude.Value.{Value, get_key, is_mapping}
use portscanner.Prelude.Result.{ok, guard, ◌>>=◌, ◌>>◌, >>=-eq-ok, guard-eq-ok, ok_inj}
use portscanner.Inventory.Outbox.{value_error, DeliveredEvent, Formats, DeliveryConfig}
use portscanner.Inventory.Outbox.Image.{
  Delivery, checked_record, checked_event, checked_identity, checked_new_image, is_account,
  is_region, same_flag, has_table, checked_image, checked_tracking,
}
use portscanner.Inventory.Outbox.Order.{Hashed}

module _ (formats : Formats) (config : DeliveryConfig) where
  checked_event-Hashed :
      (image : Value) (event_id account_id region : Text) (event : DeliveredEvent) {d : Delivery}
      → checked_event formats config image event_id account_id region event ≡ ok d
      → Hashed formats config d
  checked_event-Hashed image event_id account_id region event h =
      let p = guard-eq-ok (text_eq event.event_id event_id) value_error _ h in
      let q =
        guard-eq-ok (text_eq event.account_id account_id && text_eq event.region region) value_error
          _ p.1 in
      rw (← ok_inj q.1) refl

  checked_identity-Hashed :
      (image : Value) (event_id account_id region : Text) (raw : Option Text) {d : Delivery}
      → checked_identity formats config image event_id account_id region raw ≡ ok d
      → Hashed formats config d
  checked_identity-Hashed image event_id account_id region none h = absurd (cc)
  checked_identity-Hashed image event_id account_id region (some raw) h =
      let p =
        guard-eq-ok (is_sha256 event_id && is_account account_id && is_region region) value_error _
          h in
      let q = >>=-eq-ok (formats.parse_target_event raw) _ p.1 in
      checked_event-Hashed image event_id account_id region q.0 q.2

  checked_new_image-Hashed :
      (image : Value) {d : Delivery}
      → checked_new_image formats config image ≡ ok (some d)
      → Hashed formats config d
  unfolding checked_image
  checked_new_image-Hashed image {d} h = by_test _ h
    where
      by_test :
          (b : Bool)
          → (if b
              then checked_tracking formats config image
                >> (checked_image formats config image >>= λ x. ok (some x))
              else ok none)
            ≡ ok (some d)
          → Hashed formats config d
      by_test false k = absurd (cc (ok_inj k))
      by_test true k =
          let p = >>=-eq-ok (checked_tracking formats config image) _ k in
          let q = >>=-eq-ok (checked_image formats config image) _ p.2 in
          let e : q.0 ≡ d = cc (ok_inj q.2) in
          checked_identity-Hashed image _ _ _ _ (q.1 ∙ ap (λ x. ok x) e)

  pub checked_record-Hashed :
      (r : Value) {d : Delivery}
      → checked_record formats config r ≡ ok (some d)
      → Hashed formats config d
  unfolding checked_record
  checked_record-Hashed r {d} h = by_test _ h
    where
      by_test :
          (b : Bool)
          → (if b
              then guard
                  (same_flag formats config config.has_dynamodb
                    (has_table formats config config.table_name))
                  value_error
                >> (guard (is_mapping (get_key "dynamodb" r)) value_error
                    >> checked_new_image formats config (get_key "NewImage" (get_key "dynamodb" r)))
              else ok none)
            ≡ ok (some d)
          → Hashed formats config d
      by_test false k = absurd (cc (ok_inj k))
      by_test true k =
          let p = guard-eq-ok (same_flag formats config config.has_dynamodb _) value_error _ k in
          let q = guard-eq-ok (is_mapping (get_key "dynamodb" r)) value_error _ p.1 in
          checked_new_image-Hashed _ q.1
