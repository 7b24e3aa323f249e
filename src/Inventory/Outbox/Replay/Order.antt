-- ===== src/Inventory/Outbox/Replay/Order.antt =====
-- The handler of the outbox keeps the order of the effects (handlers/outbox.py).
use portscanner.Prelude.{Bool, List, [], ◌∷◌}
use portscanner.Prelude.Text.{Text}
use portscanner.Prelude.Value.{Value}
use portscanner.Prelude.Exec.{
  Exec, Preserves, preserves_rules, Preserves-bind, Preserves-pure, Preserves-lift,
}
use portscanner.Prelude.Exec.Steps.{Preserves-of_Ends}
use portscanner.Prelude.Calls.{Logged, silently-Ends}
use portscanner.Inventory.Outbox.{
  attribute_error, Formats, DeliveryConfig, DeliveryServices, Call, query,
}
use portscanner.Inventory.Outbox.Replay.{
  process_record, partial_batch, Replayed, replay_item, replay_items, replay, outbox_handler,
}
use portscanner.Inventory.Outbox.Delivery.{dispatch_record}
use portscanner.Inventory.Outbox.Order.{Ordered}
use portscanner.Inventory.Outbox.Order.Dispatch.{dispatch_record-Ordered}

module _ {S E : Type 0} {P : S → Type 0} where
  partial_batch-Preserves :
      (show : Value → Text) (no_attribute : E) (process : Value → Exec S E Bool)
      → ((r : Value) → Preserves P (process r))
      → (rs : List Value) → Preserves P (partial_batch show no_attribute process rs)
  unfolding partial_batch process_record
  partial_batch-Preserves show no_attribute process h [] = search (preserves_rules)
  partial_batch-Preserves show no_attribute process h (r ∷ rs) =
      Preserves-bind _ _ (search (preserves_rules)) (λ u.
        Preserves-bind _ _ (search (preserves_rules, h) depth 9) (λ failed.
          Preserves-bind _ _ (partial_batch-Preserves show no_attribute process h rs)
            (λ later. Preserves-pure _)))

  replay_items-Preserves :
      (dispatch : Value → Exec S E Bool)
      → ((r : Value) → Preserves P (dispatch r))
      → (items : List Value) (c : Replayed) → Preserves P (replay_items dispatch items c)
  unfolding replay_items replay_item
  replay_items-Preserves dispatch h [] c = search (preserves_rules)
  replay_items-Preserves dispatch h (item ∷ items) c =
      Preserves-bind _ _ (search (preserves_rules, h) depth 9)
        (λ counted. replay_items-Preserves dispatch h items counted)

module _ (formats : Formats) (config : DeliveryConfig) {W : Type 0}
    (services : DeliveryServices W) where
  abbrev InOrder : Logged W Call → Type 0
  InOrder s = Ordered formats config s.calls

  query-Preserves : Preserves InOrder (query services)
  unfolding query
  query-Preserves = Preserves-of_Ends InOrder (query services) (λ s h.
      silently-Ends (λ r calls. Ordered formats config calls)
        (λ e calls. Ordered formats config calls) services.query s (λ r. h) (λ e. h))

  replay-Preserves : Preserves InOrder (replay services formats config)
  unfolding replay
  replay-Preserves = Preserves-bind _ _ query-Preserves (λ response.
      Preserves-bind _ _ (Preserves-lift _) (λ items.
        Preserves-bind _ _
          (replay_items-Preserves _ (dispatch_record-Ordered formats config services) items _)
          (λ counts. search (preserves_rules))))

  -- The effects of the outbox are in order, whatever the handler is called with and however a delivery
  -- fails, also when the handler raises: every message that is sent names an object that was written
  -- before, or found and verified; it goes to the queue of target events first; and an item is marked
  -- as delivered only after a message was sent to that queue and to the priority or coverage queue.
  pub outbox_handler-Ordered :
      (event : Value)
      → Preserves
          (λ (s : Logged W Call). Ordered formats config s.calls)
          (outbox_handler services formats config event)
  unfolding outbox_handler
  outbox_handler-Ordered event =
      let dispatched = dispatch_record-Ordered formats config services in
      let batch = λ (rs : List Value).
        partial_batch-Preserves formats.show attribute_error
          (dispatch_record services formats config) dispatched rs in
      search (preserves_rules, replay-Preserves, batch) depth 9
