-- ===== src/Payments/Working.antt =====
-- The jobs that the webhook makes.
use spacerocks_coa.Base.{
  ℕ, ◌≡◌, refl, sym, ap, ◌∙◌, subst, String, Option, none, some, arith, ok, find, length, codes,
  ◌≤◌,
}
use spacerocks_coa.Db.{Db, Order, StripeEvent}
use spacerocks_coa.Jobs.Consistency.{IsConsistent}
use spacerocks_coa.Jobs.Frames.{SameJobs-IsConsistent}
use spacerocks_coa.Orders.{NewIds, has_order_id, find_order, find_event, save_event}
use spacerocks_coa.Orders.Rows.{
  DistinctOrders, find_order_for_event-row, record_stripe_event-Recorded,
}
use spacerocks_coa.Payments.Models.{ProviderEvent, CanonicalCheckout, Settings}
use spacerocks_coa.Payments.Binding.{apply_event}
use spacerocks_coa.Payments.Webhook.{WebhookResult, process_transaction, processed}
use spacerocks_coa.Payments.Applying.{HasJobKey, apply_bound-Applied}
use spacerocks_coa.Payments.Delivery.{
  Handled, process_transaction-Delivered, refusal, bound, repeated, recorded_first,
}
use spacerocks_coa.Payments.Guarantees.{apply_event-id}

-- every order has a key for its job that fits the column
abbrev pub HasJobKeys : Db → Type 0
HasJobKeys db = (i : ℕ) (order : Order) → find_order db i ≡ some order → HasJobKey order

save_event-IsConsistent :
    (e : StripeEvent) (db : Db) → IsConsistent db → IsConsistent (save_event e db)
unfolding save_event
save_event-IsConsistent e db k =
    SameJobs-IsConsistent db (save_event e db)
      (record { jobs = refl; attempts = refl; dispatches = refl }) k

module _ (settings : Settings) (uuid_of : String → Option ℕ) (event : ProviderEvent)
    (canonical : Option CanonicalCheckout) (fresh : NewIds) (now : ℕ) where
  Handled-IsConsistent :
      (recorded : StripeEvent) (start : Db) (r : WebhookResult × Db)
      → DistinctOrders start.orders
      → HasJobKeys start
      → IsConsistent start
      → Handled settings uuid_of event canonical fresh now recorded start r
      → IsConsistent r.1
  Handled-IsConsistent recorded start r d keys k (refusal code p) =
      subst (λ (t : WebhookResult × Db). IsConsistent t.1) (sym p)
        (save_event-IsConsistent (processed recorded (some code) now) start k)
  Handled-IsConsistent recorded start r d keys k
        (bound order session_id checkout applied found s h v done p) =
      let moved_order = (apply_event order event checkout).1 in
      let effect =
        apply_bound-Applied (apply_event order event checkout).0 order moved_order event checkout
          fresh now start applied done in
      let key =
        subst (λ t. (1 ≤ length (codes t)) × (length (codes t) ≤ 160))
          (sym (apply_event-id order event checkout).1)
          (keys order.id order (
            find_order_for_event-row uuid_of event.internal_order_id event.payment_intent_id start
              order d found)) in
      subst (λ (t : WebhookResult × Db). IsConsistent t.1) (sym p)
        (save_event-IsConsistent (processed recorded none now) applied (effect.consistent key k))

  -- An event that is delivered for the first time keeps the tables of jobs consistent, whether it is
  -- refused or makes a job: it never gives two jobs one id, and a job that it makes has its dispatch.
  -- Orders have distinct ids, and keys for their jobs of 1 to 160 characters.
  pub webhook-IsConsistent :
      (racing : Db → Db) (payload_hash : ℕ) (db : Db) (r : WebhookResult × Db)
      → DistinctOrders (racing db).orders
      → HasJobKeys (racing db)
      → find_event db event.event_id ≡ none
      → IsConsistent (racing db)
      → process_transaction settings uuid_of racing event canonical payload_hash fresh now db ≡ ok r
      → IsConsistent r.1
  webhook-IsConsistent racing payload_hash db r d keys new k run =
      elim (process_transaction-Delivered settings uuid_of event canonical fresh now racing
        payload_hash db r run) [
          | repeated recorded p q ↦ absurd (ground arith)
          | recorded_first recorded added p q h ↦
              let rec =
                record_stripe_event-Recorded event.event_id event.event_type payload_hash now
                  event.livemode recorded (racing db) added q in
              Handled-IsConsistent recorded added r (subst DistinctOrders (sym (rec.orders)) d)
                (unfold find_order in
                  (λ i order f. keys i order (ap (find (has_order_id i)) (sym (rec.orders)) ∙ f)))
                (SameJobs-IsConsistent (racing db) added (rec.same_jobs) k) h
        ]
