-- ===== src/Order/Paid.antt =====
-- What holds of an order over every sequence of transitions of app/domain/order.py: work starts
-- only on a paid order, stages are not skipped, and final states are kept.
use spacerocks_coa.Base.{◌≤◌, ◌≡◌, ◌≢◌, ◌⊎◌, inl, inr, arith, ok}
use spacerocks_coa.Order.{
  PaymentState, FulfillmentState, OrderState, paid, refunded, disputed, awaiting_payment,
  manual_review, fulfillment_index, transition_payment, transition_fulfillment,
}
use spacerocks_coa.Order.Progress.{payment_rank}

or_visited : {P : Type 0} {Q : Type 0} {R : Type 0} → Q ⊎ R → (R → P) → P ⊎ Q
or_visited (inl q) f = inr q
or_visited (inr r) f = inl (f r)

module _ {ℓ} {Snapshot : Type ℓ} where
  -- One accepted transition.
  pub data Step (s t : OrderState Snapshot) : Type ℓ where
    pay : (target : PaymentState) → transition_payment s target ≡ ok t → Step s t
    fulfil : (target : FulfillmentState) → transition_fulfillment s target ≡ ok t → Step s t

  pub data Reach (s : OrderState Snapshot) : OrderState Snapshot → Type ℓ where
    here : Reach s s
    next : {t u : OrderState Snapshot} → Reach s t → Step t u → Reach s u

  -- the constraint ck_orders_paid_before_work of app/db/models.py
  abbrev pub IsPaidBeforeWork : OrderState Snapshot → Type 0
  IsPaidBeforeWork s =
      (s.fulfillment ≡ awaiting_payment)
      ⊎ ((s.fulfillment ≡ manual_review)
          ⊎ ((s.payment ≡ paid) ⊎ ((s.payment ≡ refunded) ⊎ (s.payment ≡ disputed))))

  Step-IsPaidBeforeWork :
      {s t : OrderState Snapshot} → Step s t → IsPaidBeforeWork s → IsPaidBeforeWork t
  unfolding transition_payment transition_fulfillment
  Step-IsPaidBeforeWork (pay target e) h = ground arith
  Step-IsPaidBeforeWork (fulfil target e) h = ground arith

  -- If an order starts paid before work, it stays so whatever transitions are accepted: when it is
  -- past `awaiting_payment` and not in manual review, its payment is paid, refunded or disputed.
  pub Reach-IsPaidBeforeWork :
      {s t : OrderState Snapshot} → IsPaidBeforeWork s → Reach s t → IsPaidBeforeWork t
  Reach-IsPaidBeforeWork h here = h
  Reach-IsPaidBeforeWork h (next r st) = Step-IsPaidBeforeWork st (Reach-IsPaidBeforeWork h r)

  -- the fulfillment state `x` was passed on the way
  abbrev pub Visited : FulfillmentState → {s t : OrderState Snapshot} → Reach s t → Type 0
  Visited x {s} here = s.fulfillment ≡ x
  Visited x (next {t} {u} r st) = Visited x r ⊎ (u.fulfillment ≡ x)

  Step-stage :
      {s t : OrderState Snapshot}
      → Step s t
      → (x : FulfillmentState) → fulfillment_index x ≤ fulfillment_index t.fulfillment
      → t.fulfillment ≢ manual_review
      → (t.fulfillment ≡ x)
        ⊎ ((fulfillment_index x ≤ fulfillment_index s.fulfillment)
            × (s.fulfillment ≢ manual_review))
  unfolding transition_payment transition_fulfillment
  Step-stage (pay target e) x le ne = ground arith
  Step-stage (fulfil target e) x le ne = ground arith

  -- An order that began at `awaiting_payment` has passed every stage up to the one it is in,
  -- unless it is in manual review: a delivered order was queued, stamped, pending at the
  -- calendars and verified in Bitcoin before.
  pub stages_not_skipped :
      {s t : OrderState Snapshot}
      → s.fulfillment ≡ awaiting_payment
      → (r : Reach s t) (x : FulfillmentState)
      → fulfillment_index x ≤ fulfillment_index t.fulfillment
      → t.fulfillment ≢ manual_review
      → Visited x r
  stages_not_skipped {s} start here x le ne = ground arith
  stages_not_skipped start (next r st) x le ne =
      or_visited (Step-stage st x le ne) (λ h. stages_not_skipped start r x h.0 h.1)

  -- A payment that is refunded, failed or expired, and an order in manual review, stay so.
  pub record KeepsFinal (s t : OrderState Snapshot) : Type 0 where
    pub later : payment_rank s.payment ≤ payment_rank t.payment
    pub final : payment_rank s.payment ≡ 4 → t.payment ≡ s.payment
    pub reviewed : s.fulfillment ≡ manual_review → t.fulfillment ≡ manual_review

  Step-KeepsFinal : {s t : OrderState Snapshot} → Step s t → KeepsFinal s t
  unfolding transition_payment transition_fulfillment
  Step-KeepsFinal (pay target e) = ground arith
  Step-KeepsFinal (fulfil target e) = ground arith

  KeepsFinal-trans :
      {s t u : OrderState Snapshot} → KeepsFinal s t → KeepsFinal t u → KeepsFinal s u
  KeepsFinal-trans h k = ground arith

  -- Over any transitions the payment never returns to an earlier rank, a final payment state
  -- (refunded, failed, expired) is kept, and so is manual review.
  pub Reach-KeepsFinal : {s t : OrderState Snapshot} → Reach s t → KeepsFinal s t
  Reach-KeepsFinal here = ground arith
  Reach-KeepsFinal (next r st) = KeepsFinal-trans (Reach-KeepsFinal r) (Step-KeepsFinal st)
