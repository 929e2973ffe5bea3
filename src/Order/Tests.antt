-- ===== src/Order/Tests.antt =====
-- The transitions of an order at concrete states.
use spacerocks_coa.Base.{ℕ, ◌≡◌, ◌↔◌, ◌⊎◌, inl, refl, suc, ◌≢◌, ◌<◌, arith, ok, err, value_error}
use spacerocks_coa.Order.{
  OrderState, transition_payment, transition_fulfillment, checkout_open, paid, awaiting_payment,
  queued, stamping, manual_review, payment_allowed, fulfillment_allowed,
}
use spacerocks_coa.Order.Progress.{transition_fulfillment_iff, transition_payment_later}
use spacerocks_coa.Order.Paid.{
  Step, Reach, IsPaidBeforeWork, Reach-IsPaidBeforeWork, Visited, stages_not_skipped, KeepsFinal,
  Reach-KeepsFinal,
}

abbrev opened : OrderState ℕ
opened = record { snapshot = 3; payment = checkout_open; fulfillment = awaiting_payment }

abbrev bought : OrderState ℕ
bought = record opened { payment = paid }

abbrev in_queue : OrderState ℕ
in_queue = record bought { fulfillment = queued }

abbrev at_stamp : OrderState ℕ
at_stamp = record in_queue { fulfillment = stamping }

buy : transition_payment opened paid ≡ ok bought
unfolding transition_payment payment_allowed
buy = refl

enter : transition_fulfillment bought queued ≡ ok in_queue
unfolding transition_fulfillment fulfillment_allowed
enter = refl

start : transition_fulfillment in_queue stamping ≡ ok at_stamp
unfolding transition_fulfillment fulfillment_allowed
start = refl

unpaid :
    transition_fulfillment opened queued
    ≡ err (value_error "fulfillment cannot be queued before payment")
unfolding transition_fulfillment fulfillment_allowed
unpaid = refl

skipped :
    transition_fulfillment bought stamping ≡ err (value_error "illegal fulfillment transition")
unfolding transition_fulfillment fulfillment_allowed
skipped = refl

abbrev path : Reach opened at_stamp
path =
    Reach.next (Reach.next (Reach.next Reach.here (Step.pay paid buy)) (Step.fulfil queued enter))
      (Step.fulfil stamping start)

transition_fulfillment_iff_example : (transition_fulfillment bought queued ≡ ok in_queue) ↔ (
    (in_queue ≡ in_queue)
    × ((queued ≡ awaiting_payment)
        ⊎ ((queued ≡ manual_review)
            ⊎ ((1 ≡ suc 0) × (queued ≢ manual_review) × (queued ≡ queued → paid ≡ paid)))))
transition_fulfillment_iff_example = transition_fulfillment_iff bought in_queue queued

transition_payment_later_example :
    (paid ≡ paid) × (awaiting_payment ≡ awaiting_payment) × ((bought ≡ opened) ⊎ (0 < 2))
transition_payment_later_example = transition_payment_later opened bought paid buy

Reach-IsPaidBeforeWork_example : IsPaidBeforeWork at_stamp
Reach-IsPaidBeforeWork_example = Reach-IsPaidBeforeWork {s = opened} (inl refl) path

stages_not_skipped_example : Visited queued path
stages_not_skipped_example = stages_not_skipped refl path queued (omega arith) (ground arith)

Reach-KeepsFinal_example : KeepsFinal opened at_stamp
Reach-KeepsFinal_example = Reach-KeepsFinal path
