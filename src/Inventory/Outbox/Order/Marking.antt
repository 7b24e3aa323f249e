-- ===== src/Inventory/Outbox/Order/Marking.antt =====
-- The marking of an item (handlers/outbox.py, `_mark_delivered`).
use portscanner.Prelude.{ℕ, ◌+◌, ◌/◌, ◌≡◌, refl, inl, inr, Option, none, some, List, [], ◌∷◌}
use portscanner.Prelude.Text.{Text}
use portscanner.Prelude.Value.{Value}
use portscanner.Prelude.Exec.{Ends, Ends-bind, Ends-attempt, Ends-when, Ends-turn}
use portscanner.Prelude.Exec.Steps.{Ends-pure, Ends-raise, Ends-lift_bind}
use portscanner.Prelude.Result.{ok}
use portscanner.Prelude.Calls.{Logged, silently-Ends, making-Ends}
use portscanner.Inventory.Outbox.{
  DeliveryError, Formats, DeliveryConfig, DeliveredUpdate, DeliveryServices, Call, marking,
  update_item, get_item, now,
}
use portscanner.Inventory.Outbox.Image.{attribute, filled}
use portscanner.Inventory.Outbox.Delivery.{
  on_marked, mark_delivered, mark_if_tracked, delivery_time,
}
use portscanner.Inventory.Outbox.Order.{Ordered, Marked, Fine}

module _ (formats : Formats) (config : DeliveryConfig) {W : Type 0}
    (services : DeliveryServices W) where
  module _ (image : Value) (before : List Call) (fine : Ordered formats config before)
      (may_mark : (update : DeliveredUpdate)
        → Ordered formats config (marking update ∷ before)) where
    abbrev Is : List Call → Type 0
    Is calls =
        Ordered formats config calls
        × (update : DeliveredUpdate) × (calls ≡ marking update ∷ before)
        × (attribute formats.show image "pk" ≡ some update.pk)
        × (attribute formats.show image "sk" ≡ some update.sk)
        × (attribute formats.show image "event_id" ≡ some update.event_id)

    filled-some : (o : Option Text) {t : Text} → filled o ≡ ok t → o ≡ some t
    filled-some none h = absurd (cc)
    filled-some (some []) h = absurd (cc)
    filled-some (some (c ∷ cs)) h = cc

    on_marked-Ends :
        (update : DeliveredUpdate) (e : DeliveryError) (s : Logged W Call)
        → Is s.calls
        → Ends
            (λ u s'. Is s'.calls)
            (Fine formats config)
            (on_marked services formats config update e s)
    unfolding on_marked get_item
    on_marked-Ends update e s h =
        Ends-when _ _ _ _ _ s
          (λ t.
            Ends-bind (λ r s'. Is s'.calls) _ (Fine formats config) _ _ s
              (silently-Ends (λ r calls. Is calls) (λ e calls. Ordered formats config calls) _ s
                (λ r. h) (λ e. h.0))
              (λ r s' p.
                Ends-when _ _ _ _ _ s' (λ d. Ends-pure _ _ tt s' p) (λ d. Ends-raise _ _ e s' p.0)))
          (λ t. Ends-raise _ _ e s h.0)

    mark_delivered-Ends :
        (at : ℕ) (s : Logged W Call)
        → s.calls ≡ before
        → Ends
            (λ u s'. Is s'.calls)
            (Fine formats config)
            (mark_delivered services formats config image at s)
    unfolding mark_delivered update_item
    mark_delivered-Ends at s h =
        let same : Ordered formats config s.calls = rw h fine in
        Ends-lift_bind _ _ _ _ s (λ e. same)
          (λ seconds hs.
            Ends-lift_bind _ _ _ _ s (λ e. same)
              (λ pk hp.
                Ends-lift_bind _ _ _ _ s (λ e. same)
                  (λ sk hk.
                    Ends-lift_bind _ _ _ _ s (λ e. same)
                      (λ event_id he.
                        let update : DeliveredUpdate = record {
                          pk = pk;
                          sk = sk;
                          event_id = event_id;
                          delivered_at = at;
                          expires_at = at / 1000000 + seconds;
                        } in
                        let made : Is (marking update ∷ s.calls) = (
                          rw h (may_mark update),
                          update,
                          rw h refl,
                          filled-some _ hp,
                          filled-some _ hk,
                          filled-some _ he,
                        ) in
                        Ends-attempt (λ u s'. Is s'.calls) (λ e s'. Is s'.calls)
                          (Fine formats config) _ _ s
                          (making-Ends (λ u calls. Is calls) (λ e calls. Is calls) (marking update)
                            _ s (λ u. made) (λ e. made))
                          (λ e s' p. on_marked-Ends update e s' p)))))

    delivery_time-Ends :
        (o : Option ℕ) (s : Logged W Call)
        → s.calls ≡ before
        → Ends
            (λ at s'. s'.calls ≡ before)
            (Fine formats config)
            (delivery_time services formats config o s)
    unfolding now
    delivery_time-Ends (some at) s h = Ends-pure _ _ at s h
    delivery_time-Ends none s h =
        silently-Ends (λ r calls. calls ≡ before) (λ e calls. Ordered formats config calls) _ s
          (λ r. h) (λ e. rw h fine)

    abbrev Tracked : Option Text → List Call → Type 0
    Tracked name calls =
        Ordered formats config calls × Marked formats config image name before calls

    pub mark_if_tracked-Ends :
        (name : Option Text) (s : Logged W Call)
        → s.calls ≡ before
        → Ends
            (λ u s'. Tracked name s'.calls)
            (Fine formats config)
            (mark_if_tracked services formats config image name s)
    unfolding mark_if_tracked
    mark_if_tracked-Ends none s h = Ends-pure _ _ tt s (rw h fine, h)
    mark_if_tracked-Ends (some name) s h =
        Ends-when _ _ _ _ _ s
          (λ t.
            Ends-bind (λ at s'. s'.calls ≡ before) _ (Fine formats config) _ _ s
              (delivery_time-Ends config.delivered_at s h)
              (λ at s' p.
                Ends-turn (λ u s''. Is s''.calls) (λ u s''. Tracked (some name) s''.calls)
                  (Fine formats config) (Fine formats config)
                  (mark_delivered services formats config image at s')
                  (λ u s'' q. (q.0, inr (q.1, q.2, q.3, q.4, q.5))) (λ e s'' q. q)
                  (mark_delivered-Ends at s' p)))
          (λ t. Ends-pure _ _ tt s (rw h fine, inl (t, h)))
