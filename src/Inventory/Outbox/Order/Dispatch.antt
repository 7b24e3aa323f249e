-- ===== src/Inventory/Outbox/Order/Dispatch.antt =====
-- The order of the effects of `dispatch_record` (handlers/outbox.py).
use mathlib.Core.List.{Mem, mem-cons_self, mem-cons_of_mem}
use portscanner.Prelude.{◌≡◌, refl, Bool, true, false, ◌⊎◌, inl, inr, Option, none, some, List, ◌∷◌}
use portscanner.Prelude.Text.{Text}
use portscanner.Prelude.Value.{Value}
use portscanner.Prelude.Exec.{Ends, Ends-bind, Ends-turn, Preserves}
use portscanner.Prelude.Exec.Steps.{Preserves-of_Ends, Ends-pure, Ends-lift_bind}
use portscanner.Prelude.Result.{ok}
use portscanner.Prelude.Calls.{Logged, entering-Ends}
use portscanner.Inventory.Event.{
  ScanReason, new_target, target_change, policy_change, coverage, manual,
}
use portscanner.Inventory.Outbox.{
  Formats, DeliveryConfig, DeliveryServices, Call, sending, sent, send_message,
}
use portscanner.Inventory.Outbox.Image.{Delivery, checked_record}
use portscanner.Inventory.Outbox.Delivery.{
  Identity, routed_queue_url, mark_if_tracked, announce, deliver, deliver_checked, dispatch_record,
}
use portscanner.Inventory.Outbox.Order.{
  Verified, NamesObject, Ordered, Marked, IsQueueOf, IsDelivered, Hashed, There, Fine,
  Verified-more,
}
use portscanner.Inventory.Outbox.Order.Checked.{checked_record-Hashed}
use portscanner.Inventory.Outbox.Order.Object.{store_object-Ends, identity_of-Ends, identified-Ends}
use portscanner.Inventory.Outbox.Order.Marking.{mark_if_tracked-Ends}

module _ (formats : Formats) (config : DeliveryConfig) {W : Type 0}
    (services : DeliveryServices W) where
  routed-either :
      (reason : Option ScanReason) (message : Value) (calls : List Call)
      → Mem (sent (routed_queue_url config reason) message) calls
      → Mem (sent config.priority_queue_url message) calls
        ⊎ Mem (sent config.coverage_queue_url message) calls
  routed-either (some coverage) message calls m = inr m
  routed-either (some new_target) message calls m = inl m
  routed-either (some target_change) message calls m = inl m
  routed-either (some policy_change) message calls m = inl m
  routed-either (some manual) message calls m = inl m
  routed-either none message calls m = inl m

  routed-IsQueueOf :
      (reason : Option ScanReason)
      → IsQueueOf formats config reason (routed_queue_url config reason)
  routed-IsQueueOf (some coverage) = inl (refl, refl)
  routed-IsQueueOf (some new_target) = inr (λ e. absurd (cc), refl)
  routed-IsQueueOf (some target_change) = inr (λ e. absurd (cc), refl)
  routed-IsQueueOf (some policy_change) = inr (λ e. absurd (cc), refl)
  routed-IsQueueOf (some manual) = inr (λ e. absurd (cc), refl)
  routed-IsQueueOf none = inr (λ e. absurd (cc), refl)

  -- The calls of a message that has returned.
  abbrev after_send : Text → Value → List Call → List Call
  after_send queue message calls = sent queue message ∷ sending queue message ∷ calls

  send_message-Ends :
      (queue : Text) (message : Value) (s : Logged W Call) (before : List Call)
      → s.calls ≡ before
      → Ordered formats config (sending queue message ∷ before)
      → Ends
          (λ u s'. s'.calls ≡ after_send queue message before)
          (Fine formats config)
          (send_message services queue message s)
  unfolding send_message
  send_message-Ends queue message s before h k =
      entering-Ends (λ u calls. calls ≡ after_send queue message before)
        (λ e calls. Ordered formats config calls) (sending queue message) (λ r. sent queue message)
        _ s (λ u. rw h refl) (λ e. rw h k)

  announce-Ends :
      (d : Delivery) (i : Identity) (s : Logged W Call)
      → There formats config d s
      → Ends
          (λ u s'. Ordered formats config s'.calls × IsDelivered formats config d s'.calls)
          (Fine formats config)
          (announce services formats config d i s)
  unfolding announce
  announce-Ends d (e, v) s (h, there) =
      Ends-lift_bind _ _ _ _ s (λ x. h)
        (λ message made.
          let first = config.target_event_queue_url in
          let second = routed_queue_url config d.event.reason in
          let names : NamesObject formats config message s.calls =
            (d.key, d.body, e, v, made, there) in
          let calls₁ = after_send first message s.calls in
          let there₁ : Verified formats config d.key d.body calls₁ =
            Verified-more formats config _ (Verified-more formats config _ there) in
          let names₁ : NamesObject formats config message calls₁ =
            (d.key, d.body, e, v, made, there₁) in
          let ordered₁ : Ordered formats config calls₁ = (h, names, inl refl) in
          let calls₂ = after_send second message calls₁ in
          let ordered₂ : Ordered formats config calls₂ = (ordered₁, names₁, inr mem-cons_self) in
          let names₂ : NamesObject formats config message calls₂ = (
            d.key,
            d.body,
            e,
            v,
            made,
            Verified-more formats config _ (Verified-more formats config _ there₁),
          ) in
          Ends-bind (λ u s'. s'.calls ≡ calls₁) _ (Fine formats config) _ _ s
            (send_message-Ends first message s s.calls refl (h, names, inl refl))
            (λ u s₁ at₁.
              Ends-bind (λ u s'. s'.calls ≡ calls₂) _ (Fine formats config) _ _ s₁
                (send_message-Ends second message s₁ calls₁ at₁
                  (ordered₁, names₁, inr mem-cons_self))
                (λ w s₂ at₂.
                  Ends-turn
                    (λ u s'.
                      Ordered formats config s'.calls
                      × Marked formats config d.image config.table_name calls₂ s'.calls)
                    (λ u s'.
                      Ordered formats config s'.calls × IsDelivered formats config d s'.calls)
                    (Fine formats config) (Fine formats config)
                    (mark_if_tracked services formats config d.image config.table_name s₂)
                    (λ x s' q. (
                      q.0,
                      (
                        message,
                        second,
                        s.calls,
                        e,
                        v,
                        made,
                        there,
                        routed-IsQueueOf d.event.reason,
                        q.1,
                      ),
                    ))
                    (λ x s' q. q)
                    (mark_if_tracked-Ends formats config services d.image calls₂ ordered₂
                      (λ update. (
                        ordered₂,
                        message,
                        names₂,
                        mem-cons_of_mem _ (mem-cons_of_mem _ mem-cons_self),
                        routed-either d.event.reason message calls₂ mem-cons_self,
                      ))
                      config.table_name s₂ at₂))))

  deliver-Ends :
      (d : Delivery) (s : Logged W Call)
      → Hashed formats config d
      → Ordered formats config s.calls
      → Ends
          (λ u s'. Ordered formats config s'.calls × IsDelivered formats config d s'.calls)
          (Fine formats config)
          (deliver services formats config d s)
  unfolding deliver
  deliver-Ends d s hashed h =
      Ends-bind (λ r s'. There formats config d s') _ (Fine formats config) _ _ s
        (store_object-Ends formats config services d s hashed h)
        (λ r s₁ h₁.
          Ends-bind (λ r s'. There formats config d s') _ (Fine formats config) _ _ s₁
            (identity_of-Ends formats config services d r s₁ h₁)
            (λ i s₂ h₂.
              Ends-bind (λ r s'. There formats config d s') _ (Fine formats config) _ _ s₂
                (identified-Ends formats config services d i s₂ hashed h₂)
                (λ j s₃ h₃.
                  Ends-bind
                    (λ r s'.
                      Ordered formats config s'.calls × IsDelivered formats config d s'.calls)
                    _ (Fine formats config) _ _ s₃ (announce-Ends d j s₃ h₃)
                    (λ u s₄ h₄. Ends-pure _ _ true s₄ h₄))))

  -- What `dispatch_record` has done when it returns.
  abbrev pub IsDispatched : Value → Bool → List Call → Type 0
  IsDispatched r delivered calls =
      Ordered formats config calls
      × ((delivered ≡ true)
          → (d : Delivery) × (checked_record formats config r ≡ ok (some d))
            × IsDelivered formats config d calls)

  dispatch_record-Ends :
      (r : Value) (s : Logged W Call)
      → Ordered formats config s.calls
      → Ends
          (λ b s'. IsDispatched r b s'.calls)
          (Fine formats config)
          (dispatch_record services formats config r s)
  unfolding dispatch_record
  dispatch_record-Ends r s h =
      Ends-lift_bind _ _ (checked_record formats config r) _ s (λ e. h)
        (λ o checked. by_delivery o checked)
    where
      by_delivery :
          (o : Option Delivery)
          → checked_record formats config r ≡ ok o
          → Ends
              (λ b s'. IsDispatched r b s'.calls)
              (Fine formats config)
              (deliver_checked services formats config o s)
      by_delivery none checked =
          Ends-pure (λ b s'. IsDispatched r b s'.calls) (Fine formats config) false s
            (h, λ e. absurd (cc))
      by_delivery (some d) checked =
          Ends-turn
            (λ b s'. Ordered formats config s'.calls × IsDelivered formats config d s'.calls)
            (λ b s'. IsDispatched r b s'.calls) (Fine formats config) (Fine formats config)
            (deliver services formats config d s) (λ b s' q. (q.0, λ e. (d, checked, q.1)))
            (λ e s' q. q) (deliver-Ends d s (checked_record-Hashed formats config r checked) h)

  -- Every state of the calls is in order after a record, delivered or not.
  pub dispatch_record-Ordered :
      (r : Value)
      → Preserves (λ s. Ordered formats config s.calls) (dispatch_record services formats config r)
  dispatch_record-Ordered r =
      Preserves-of_Ends (λ s. Ordered formats config s.calls)
        (dispatch_record services formats config r)
        (λ s h.
          Ends-turn (λ b s'. IsDispatched r b s'.calls) (λ b s'. Ordered formats config s'.calls)
            (Fine formats config) (Fine formats config)
            (dispatch_record services formats config r s) (λ b s' q. q.0) (λ e s' q. q)
            (dispatch_record-Ends r s h))
