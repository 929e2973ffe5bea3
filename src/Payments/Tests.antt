-- ===== src/Payments/Tests.antt =====
-- The theorems of the webhook and of checkout at the samples.
use spacerocks_coa.Base.{
  ℕ, ◌≡◌, refl, subst, List, none, some, ok, err, true, find, arith, checkout_in_progress,
}
use spacerocks_coa.Order.{FulfillmentState}
use spacerocks_coa.Order.Paid.{Reach}
use spacerocks_coa.Db.{Order, PaymentMode}
use spacerocks_coa.Jobs.Consistency.{IsConsistent}
use spacerocks_coa.Jobs.Frames.{SameJobs-IsConsistent}
use spacerocks_coa.Jobs.Samples.{empty, empty-IsConsistent}
use spacerocks_coa.Orders.{find_order, find_event}
use spacerocks_coa.Payments.Models.{CanonicalCheckout, Provider}
use spacerocks_coa.Payments.Webhook.{Others, process_event}
use spacerocks_coa.Payments.Movement.{order_state}
use spacerocks_coa.Payments.Guarantees.{webhook-Reach}
use spacerocks_coa.Payments.Paying.{IsFullPayment, paid_in_full}
use spacerocks_coa.Payments.Redelivery.{redelivered}
use spacerocks_coa.Payments.Working.{HasJobKeys, webhook-IsConsistent}
use spacerocks_coa.Payments.Applying.{HasJobKey}
use spacerocks_coa.Payments.Checkout.{reserve}
use spacerocks_coa.Payments.Completing.{finalize}
use spacerocks_coa.Payments.Reserving.{one_holder}
use spacerocks_coa.Payments.Finalizing.{finalized_once}
use spacerocks_coa.Payments.Samples.{
  new_ids, request, reserve_end, reserve_run-ok, plan_from, test_settings, one_order, open_order,
  paid_order, paid_event, paid_checkout, five, unraced, paid_end, paid_run-ok, paid_found,
  reserved_checkout, plan_of, binding, hosted, drawn, hash_all, any_url, final_end, final_run-ok,
}

new_event : find_event one_order "evt_1" ≡ none
unfolding find_event find
new_event = refl

open_found : find_order one_order 5 ≡ some open_order
unfolding find_order find
open_found = refl

webhook-Reach_example :
    (after : Order) × (find_order paid_end.1 5 ≡ some after)
    × Reach (order_state open_order) (order_state after)
unfolding find
webhook-Reach_example =
    webhook-Reach test_settings five paid_event (some paid_checkout) new_ids 50 unraced 99 one_order
      paid_end (refl, tt) new_event paid_run-ok 5 open_order open_found (λ _. refl)

paid_in_full_example :
    (checkout : CanonicalCheckout) × (some paid_checkout ≡ some checkout)
    × IsFullPayment test_settings open_order checkout
    × (paid_order.fulfillment_state ≡ FulfillmentState.queued)
unfolding find
paid_in_full_example =
    paid_in_full test_settings five paid_event (some paid_checkout) new_ids 50 unraced 99 one_order
      paid_end (refl, tt) new_event paid_run-ok 5 open_order paid_order open_found paid_found
      (ground arith) refl

-- a provider that answers nothing
abbrev silent : Provider
silent = record {
  payment_mode = PaymentMode.stripe_test;
  retrieve_price = λ _. err (checkout_in_progress "x");
  create_checkout = λ _ _. err (checkout_in_progress "x");
  verify_event = λ _ _ _. ok paid_event;
  resolve_internal_order_id = λ _. err (checkout_in_progress "x");
  retrieve_checkout = λ _. err (checkout_in_progress "x");
}

abbrev alone : Others
alone = record { before_lookup = unraced; before_transaction = unraced; before_insert = unraced }

abbrev digest_99 : List ℕ → ℕ
digest_99 body = 99

redelivered_example :
    process_event test_settings five silent digest_99 alone new_ids 60 99 paid_event paid_end.1
    ≡ (ok (record { duplicate = true; accepted = paid_end.0.accepted }), paid_end.1)
redelivered_example =
    redelivered test_settings five paid_event (some paid_checkout) new_ids 50 unraced 99 one_order
      paid_end new_event paid_run-ok silent digest_99 alone 60

keys_fit : HasJobKeys one_order
unfolding find_order find
keys_fit i order e =
    subst HasJobKey {x = open_order} {y = order} (ground arith) (omega arith, omega arith)

jobs_fit : IsConsistent one_order
jobs_fit =
    SameJobs-IsConsistent empty one_order
      (record { jobs = refl; attempts = refl; dispatches = refl }) empty-IsConsistent

webhook-IsConsistent_example : IsConsistent paid_end.1
unfolding find
webhook-IsConsistent_example =
    webhook-IsConsistent test_settings five paid_event (some paid_checkout) new_ids 50 unraced 99
      one_order paid_end (refl, tt) keys_fit new_event jobs_fit paid_run-ok

finalized_once_example :
    finalize test_settings hash_all 9000 any_url (plan_of 4) binding hosted drawn 800 final_end.1
    ≡ err (checkout_in_progress "checkout credential is in its grace period")
finalized_once_example =
    finalized_once test_settings hash_all 9000 any_url (plan_of 3) binding hosted drawn 120
      reserved_checkout final_end final_run-ok (plan_of 4) refl hosted drawn 800

one_holder_example :
    reserve test_settings hash_all 9000 any_url unraced request binding drawn 300 reserve_end.1
    ≡ err (checkout_in_progress "checkout credential is in its grace period")
one_holder_example =
    one_holder test_settings hash_all 9000 any_url unraced request binding drawn 100 one_order
      (plan_from reserve_end.0) reserve_end.1 tt tt reserve_run-ok 300 (omega arith) unraced request
      drawn
