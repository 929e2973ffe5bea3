-- ===== src/Payments/Applying.antt =====
-- What `WebhookService` writes for an event whose binding is valid.
use spacerocks_coa.Base.{
  ℕ, ◌≤◌, ◌≡◌, refl, ◌∙◌, subst, Bool, true, ◌&&◌, some, arith, ok, ◌>>=◌, >>=-eq-ok, find, replace,
  Option-cases, Bool-cases, inl, inr, length, codes,
}
use spacerocks_coa.Db.{Db, Order}
use spacerocks_coa.Db.Access.{has_job_key}
use spacerocks_coa.Jobs.Frames.{SameJobs-IsConsistent}
use spacerocks_coa.Jobs.Consistency.{IsConsistent}
use spacerocks_coa.Jobs.Enqueueing.{enqueue-IsConsistent}
use spacerocks_coa.Orders.{
  NewIds, has_order_id, save_order, is_paid_before_work, enqueue_fulfillment_once,
  enqueue_outbox_once,
}
use spacerocks_coa.Orders.Effects.{
  SameOrders, SameOrders-trans, save_order-Saved, Noted, record_state_event-Noted,
  enqueue_outbox_once-same, enqueue_fulfillment_once-SameOrders, enqueue_fulfillment_once-enqueue,
  fulfillment_spec,
}
use spacerocks_coa.Orders.Keys.{joined}
use spacerocks_coa.Payments.Models.{ProviderEvent, CanonicalCheckout}
use spacerocks_coa.Payments.Webhook.{
  updated_order, enqueue_work, apply_bound, is_paid, work_if_paid, note_if_changed,
}

-- the key of the job of an order fits its column
abbrev pub HasJobKey : Order → Type 0
HasJobKey order =
    (1 ≤ length (codes order.fulfillment_key)) × (length (codes order.fulfillment_key) ≤ 160)

module _ (fresh : NewIds) (order : Order) (now : ℕ) (db db' : Db) where
  pub record Worked : Type 0 where
    pub same : SameOrders db db'
    pub consistent : HasJobKey order → IsConsistent db → IsConsistent db'

  pub enqueue_work-Worked : enqueue_work fresh order now db ≡ ok db' → Worked
  unfolding enqueue_work
  enqueue_work-Worked e =
      elim (Option-cases (find (has_job_key order.fulfillment_key) db.durable_jobs)) [
        | inr (job, p) ↦
            let same : db ≡ db' = ground arith in
            record {
              same =
                  subst (SameOrders db) same
                    (record { orders = refl; stripe_events = refl; state_events = refl });
              consistent = λ key k. subst IsConsistent same k;
            }
        | inl p ↦
            let (middle, enqueued, mailed) =
              >>=-eq-ok (enqueue_fulfillment_once fresh.job order now db)
                (enqueue_outbox_once fresh.message order "payment_confirmed" now) (ground arith) in
            let (same, same_jobs) =
              enqueue_outbox_once-same fresh.message order "payment_confirmed" now middle db'
                mailed in
            record {
              same =
                  SameOrders-trans db middle db'
                    (enqueue_fulfillment_once-SameOrders fresh.job order now db middle enqueued)
                    same;
              consistent = λ key k. SameJobs-IsConsistent middle db' same_jobs (
                  enqueue-IsConsistent fresh.job (fulfillment_spec order) now now db
                    (true, some (fresh.job, 1), middle)
                    (record { key_given = key.0; key_fits = key.1; attempts_allowed = omega arith })
                    k (enqueue_fulfillment_once-enqueue fresh.job order now db middle enqueued));
            }
      ]

module _ (changed : Bool) (order moved : Order) (event : ProviderEvent)
    (canonical : CanonicalCheckout) (fresh : NewIds) (now : ℕ) (db db' : Db) where
  abbrev written : Order
  written = updated_order changed moved canonical now

  pub record Applied : Type 0 where
    pub orders : db'.orders ≡ replace (has_order_id moved.id) written db.orders
    pub stripe_events : db'.stripe_events ≡ db.stripe_events
    pub paid_before_work :
        is_paid_before_work written.payment_state written.fulfillment_state ≡ true
    pub consistent : HasJobKey moved → IsConsistent db → IsConsistent db'

  -- the work, if there is any
  work_done :
      (saved worked : Db)
      → work_if_paid changed fresh written now saved ≡ ok worked
      → Worked fresh written now saved worked
  unfolding work_if_paid
  work_done saved worked e = elim (Bool-cases (changed && is_paid written)) [
    | inl p ↦ enqueue_work-Worked fresh written now saved worked (ground arith)
    | inr p ↦
        let same : saved ≡ worked = ground arith in
        record {
          same =
              subst (SameOrders saved) same
                (record { orders = refl; stripe_events = refl; state_events = refl });
          consistent = λ key k. subst IsConsistent same k;
        }
  ]

  note_done :
      (worked : Db)
      → note_if_changed changed order written event now worked ≡ ok db'
      → Noted worked db'
  unfolding note_if_changed
  note_done worked e = elim (Bool-cases changed) [
    | inl p ↦
        record_state_event-Noted written (joined "stripe:" event.event_id) "stripe_webhook"
          order.payment_state order.fulfillment_state now worked db' (ground arith)
    | inr p ↦
        let same : worked ≡ db' = ground arith in
        subst (Noted worked) same (record {
          orders = refl;
          stripe_events = refl;
          same_jobs = record { jobs = refl; attempts = refl; dispatches = refl };
        })
  ]

  pub apply_bound-Applied :
      apply_bound changed order moved event canonical fresh now db ≡ ok db' → Applied
  unfolding apply_bound
  apply_bound-Applied e =
      let (worked, done, noted) =
        >>=-eq-ok (save_order written db >>= work_if_paid changed fresh written now)
          (note_if_changed changed order written event now) e in
      let (saved, p, q) =
        >>=-eq-ok (save_order written db) (work_if_paid changed fresh written now) done in
      let s = save_order-Saved written db saved p in
      let w = work_done saved worked q in
      let n = note_done worked noted in
      record {
        orders = n.orders ∙ (w.same.orders ∙ s.orders);
        stripe_events = n.stripe_events ∙ (w.same.stripe_events ∙ s.stripe_events);
        paid_before_work = s.paid_before_work;
        consistent = λ key k.
            SameJobs-IsConsistent worked db' (n.same_jobs)
              (w.consistent key (SameJobs-IsConsistent db saved (s.same_jobs) k));
      }
