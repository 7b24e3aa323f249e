-- ===== src/Inventory/Outbox/Order/Object.antt =====
-- The object of a delivery is there when it is named (handlers/outbox.py).
use mathlib.Core.List.{Mem, mem-cons_self}
use portscanner.Prelude.{inl, inr}
use portscanner.Prelude.Value.{Value}
use portscanner.Prelude.Exec.{Ends, Ends-bind, Ends-attempt, Ends-when}
use portscanner.Prelude.Exec.Steps.{Ends-pure, Ends-raise, Ends-lift_bind}
use portscanner.Prelude.Calls.{Logged, entering-Ends, returning-Ends}
use portscanner.Inventory.Outbox.{
  Formats, DeliveryConfig, DeliveryServices, Call, putting, stored, found, put_object, head_object,
}
use portscanner.Inventory.Outbox.Image.{Delivery}
use portscanner.Inventory.Outbox.Delivery.{
  Identity, verified_head, on_conflict, store_object, identity_of, identified,
}
use portscanner.Inventory.Outbox.Order.{Verified, Ordered, Hashed, There, Fine}

module _ (formats : Formats) (config : DeliveryConfig) {W : Type 0}
    (services : DeliveryServices W) where
  verified_head-Ends :
      (d : Delivery) (s : Logged W Call)
      → Hashed formats config d
      → Ordered formats config s.calls
      → Ends
          (λ r s'. There formats config d s')
          (Fine formats config)
          (verified_head services formats config d s)
  unfolding verified_head head_object
  verified_head-Ends d s hashed h =
      Ends-bind (λ r s'. Ordered formats config s'.calls × Mem (found d.key r) s'.calls)
        (λ r s'. There formats config d s') (Fine formats config) (head_object services d.key) _ s
        (returning-Ends (λ r calls. Ordered formats config calls × Mem (found d.key r) calls)
          (λ e calls. Ordered formats config calls) (found d.key) (services.head_object d.key) s
          (λ r. (h, mem-cons_self)) (λ e. h))
        (λ r s' p.
          Ends-lift_bind _ _ _ _ s' (λ e. p.0)
            (λ u is_mapping.
              Ends-lift_bind _ _ _ _ s' (λ e. p.0)
                (λ v verified. Ends-pure _ _ r s' (p.0, inr (r, p.1, rw hashed at verified)))))

  pub store_object-Ends :
      (d : Delivery) (s : Logged W Call)
      → Hashed formats config d
      → Ordered formats config s.calls
      → Ends
          (λ r s'. There formats config d s')
          (Fine formats config)
          (store_object services formats config d s)
  unfolding store_object on_conflict put_object
  store_object-Ends d s hashed h =
      Ends-attempt (λ r s'. There formats config d s') (Fine formats config) (Fine formats config) _
        (on_conflict services formats config d) s
        (Ends-bind (λ r s'. There formats config d s') (λ r s'. There formats config d s')
          (Fine formats config) (put_object services d.key d.body d.payload_sha256) _ s
          (entering-Ends
            (λ r calls. Ordered formats config calls × Verified formats config d.key d.body calls)
            (λ e calls. Ordered formats config calls) (putting d.key d.body)
            (λ r. stored d.key d.body) _ s (λ r. (h, inl mem-cons_self)) (λ e. h))
          (λ r s' p. Ends-pure _ _ _ s' p))
        (λ e s' p.
          Ends-when _ _ _ _ _ s' (λ t. verified_head-Ends d s' hashed p)
            (λ t. Ends-raise _ _ e s' p))

  pub identity_of-Ends :
      (d : Delivery) (r : Value) (s : Logged W Call)
      → There formats config d s
      → Ends
          (λ i s'. There formats config d s')
          (Fine formats config)
          (identity_of services formats config r s)
  unfolding identity_of
  identity_of-Ends d r s h =
      Ends-lift_bind _ _ _ _ s (λ e. h.0)
        (λ e t. Ends-lift_bind _ _ _ _ s (λ e. h.0) (λ v u. Ends-pure _ _ _ s h))

  pub identified-Ends :
      (d : Delivery) (i : Identity) (s : Logged W Call)
      → Hashed formats config d
      → There formats config d s
      → Ends
          (λ j s'. There formats config d s')
          (Fine formats config)
          (identified services formats config d i s)
  unfolding identified
  identified-Ends d i s hashed h =
      Ends-when _ _ _ _ _ s
        (λ t.
          Ends-bind (λ r s'. There formats config d s') _ (Fine formats config) _ _ s
            (verified_head-Ends d s hashed h.0) (λ r s' p. identity_of-Ends d r s' p))
        (λ t. Ends-pure _ _ i s h)
