-- ===== src/Orders/Effects.antt =====
-- What the operations on orders and their events leave in each table.
use spacerocks_coa.Base.{ℕ, ◌≡◌, ◌∙◌, String, true, some, arith, ok, >>=-eq-ok, replace}
use spacerocks_coa.Order.{PaymentState, FulfillmentState}
use spacerocks_coa.Db.{Db, Order, DurableJob}
use spacerocks_coa.Db.Access.{insert_job, insert_dispatch}
use spacerocks_coa.Tasks.{add_task_dispatch}
use spacerocks_coa.Jobs.{enqueue_transaction, created_or_existing}
use spacerocks_coa.Jobs.Models.{JobSpec}
use spacerocks_coa.Jobs.Frames.{SameJobs}
use spacerocks_coa.Orders.{
  has_order_id, save_order, is_paid_before_work, insert_state_event, record_state_event,
  enqueue_fulfillment_once, fulfillment_job, enqueue_outbox_once,
}

-- the tables that the work of an order does not touch
pub record SameOrders (db db' : Db) : Type 0 where
  pub orders : db'.orders ≡ db.orders
  pub stripe_events : db'.stripe_events ≡ db.stripe_events
  pub state_events : db'.state_events ≡ db.state_events

pub SameOrders-trans : (a b c : Db) → SameOrders a b → SameOrders b c → SameOrders a c
SameOrders-trans a b c s t = record {
  orders = t.orders ∙ s.orders;
  stripe_events = t.stripe_events ∙ s.stripe_events;
  state_events = t.state_events ∙ s.state_events;
}

insert_job-SameOrders :
    (j : DurableJob) (db db' : Db) → insert_job j db ≡ ok db' → SameOrders db db'
unfolding insert_job
insert_job-SameOrders j db db' e = record {
  orders = ground arith;
  stripe_events = ground arith;
  state_events = ground arith;
}

add_task_dispatch-SameOrders :
    (j : DurableJob) (at now : ℕ) (db db' : Db)
    → add_task_dispatch j at now db ≡ ok db'
    → SameOrders db db'
unfolding add_task_dispatch insert_dispatch
add_task_dispatch-SameOrders j at now db db' e = record {
  orders = ground arith;
  stripe_events = ground arith;
  state_events = ground arith;
}

abbrev pub fulfillment_spec : Order → JobSpec
fulfillment_spec order = record {
  job_key = order.fulfillment_key;
  kind = "stamp_manifest_digest";
  order_id = order.id;
  max_attempts = 10;
}

-- the job of an order is what `enqueue_once` makes of its specification
pub enqueue_fulfillment_once-enqueue :
    (fresh : ℕ) (order : Order) (now : ℕ) (db db' : Db)
    → enqueue_fulfillment_once fresh order now db ≡ ok db'
    → enqueue_transaction fresh (fulfillment_spec order) now now db
      ≡ ok (true, some (fresh, 1), db')
unfolding enqueue_fulfillment_once enqueue_transaction created_or_existing
enqueue_fulfillment_once-enqueue fresh order now db db' e = rw e

pub enqueue_fulfillment_once-SameOrders :
    (fresh : ℕ) (order : Order) (now : ℕ) (db db' : Db)
    → enqueue_fulfillment_once fresh order now db ≡ ok db'
    → SameOrders db db'
unfolding enqueue_fulfillment_once
enqueue_fulfillment_once-SameOrders fresh order now db db' e =
    let job = fulfillment_job fresh order now in
    let (middle, inserted, added) =
      >>=-eq-ok (insert_job job db) (add_task_dispatch job now now) e in
    SameOrders-trans db middle db' (insert_job-SameOrders job db middle inserted)
      (add_task_dispatch-SameOrders job now now middle db' added)

pub enqueue_outbox_once-same :
    (id : ℕ) (order : Order) (kind : String) (now : ℕ) (db db' : Db)
    → enqueue_outbox_once id order kind now db ≡ ok db'
    → SameOrders db db' × SameJobs db db'
unfolding enqueue_outbox_once
enqueue_outbox_once-same id order kind now db db' e = (
  record { orders = ground arith; stripe_events = ground arith; state_events = ground arith },
  record { jobs = ground arith; attempts = ground arith; dispatches = ground arith },
)

pub record Saved (order : Order) (db db' : Db) : Type 0 where
  pub orders : db'.orders ≡ replace (has_order_id order.id) order db.orders
  pub stripe_events : db'.stripe_events ≡ db.stripe_events
  pub same_jobs : SameJobs db db'
  pub paid_before_work : is_paid_before_work order.payment_state order.fulfillment_state ≡ true

pub save_order-Saved :
    (order : Order) (db db' : Db) → save_order order db ≡ ok db' → Saved order db db'
unfolding save_order
save_order-Saved order db db' e = record {
  orders = ground arith;
  stripe_events = ground arith;
  same_jobs = record { jobs = ground arith; attempts = ground arith; dispatches = ground arith };
  paid_before_work = ground arith;
}

pub record Noted (db db' : Db) : Type 0 where
  pub orders : db'.orders ≡ db.orders
  pub stripe_events : db'.stripe_events ≡ db.stripe_events
  pub same_jobs : SameJobs db db'

pub record_state_event-Noted :
    (order : Order) (key source : String) (p : PaymentState) (f : FulfillmentState) (now : ℕ)
    (db db' : Db)
    → record_state_event order key source p f now db ≡ ok db'
    → Noted db db'
unfolding record_state_event insert_state_event
record_state_event-Noted order key source p f now db db' e = record {
  orders = ground arith;
  stripe_events = ground arith;
  same_jobs = record { jobs = ground arith; attempts = ground arith; dispatches = ground arith };
}
