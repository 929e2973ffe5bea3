-- ===== src/Fulfillment/JobHandlers.antt =====
-- The job handlers of app/worker/composition.py: a handler, and the job that it leaves for later.
-- `run` is the handler of app/fulfillment/handlers.py; a text of an order's identifier is that of
-- its UUID. Steps of the job handler are numbered from 10.
use spacerocks_coa.Base.{
  ℕ, ◌+◌, ◌/◌, String, Option, none, some, if◌then◌else◌, Result, ok, err, confirmation_pending,
}
use spacerocks_coa.Order.{bitcoin_verified, fulfillment_eq}
use spacerocks_coa.Db.{Db}
use spacerocks_coa.Jobs.{Dispatcher, enqueue_once}
use spacerocks_coa.Jobs.Models.{job_spec}
use spacerocks_coa.Orders.Keys.{joined, uuid_string, decimal_string}
use spacerocks_coa.Fulfillment.Repository.{get_for_fulfillment}
use spacerocks_coa.Fulfillment.Steps.{Surroundings, given, after}

-- 6 hours
abbrev pub pending_poll_interval : ℕ
pending_poll_interval = 21600000000

-- 15 minutes
abbrev pub confirmation_poll_interval : ℕ
confirmation_poll_interval = 900000000

-- `int(time.timestamp())`
abbrev pub seconds : ℕ → ℕ
seconds time = time / 1000000

-- f"{prefix}:{order_id}"
abbrev pub order_key : String → ℕ → String
order_key prefix order_id = joined prefix (joined ":" (uuid_string order_id))

-- f"{prefix}:{order_id}:{int(time.timestamp())}"
abbrev pub poll_key : String → ℕ → ℕ → String
poll_key prefix order_id time =
    joined (order_key prefix order_id) (joined ":" (decimal_string (seconds time)))

module _ (around : Surroundings) (task_dispatch : Option Dispatcher) where
  -- `jobs.enqueue_once(JobSpec(...), available_at)`
  unfoldable pub leave_job : ℕ → String → String → ℕ → ℕ → ℕ → Db → Result (Unit {0}) × Db
  leave_job step job_key kind order_id available_at now =
      given (job_spec job_key kind order_id 10) (λ spec db.
        after
          (enqueue_once task_dispatch (around.new_id step) spec available_at now
            (around.others step db))
          (λ _ end. (ok tt, end)))

  module _ (run : ℕ → Db → Result (Unit {0}) × Db) where
    -- `StampJobHandler.__call__`
    unfoldable pub stamp_job : ℕ → Db → Result (Unit {0}) × Db
    stamp_job order_id db = after (run order_id db) (λ _.
        leave_job 10 (order_key "upgrade" order_id) "upgrade_timestamp" order_id (around.clock 10)
          (around.clock 11))

    -- what `UpgradeJobHandler` does after its handler has returned
    unfoldable pub leave_delivery : ℕ → Db → Result (Unit {0}) × Db
    leave_delivery order_id db =
        let seen = around.others 10 db in
        elim (get_for_fulfillment order_id seen) [
          | none ↦ (ok tt, seen)
          | some order ↦
              if fulfillment_eq order.state.fulfillment bitcoin_verified
              then leave_job 11 (order_key "delivery" order_id) "deliver_timestamp" order_id
                  (around.clock 11) (around.clock 12) seen
              else (ok tt, seen)
        ]

    -- the next poll of an upgrade
    unfoldable pub leave_upgrade_poll : ℕ → Db → Result (Unit {0}) × Db
    leave_upgrade_poll order_id =
        let next_poll = around.clock 10 + pending_poll_interval in
        leave_job 11 (poll_key "upgrade-poll" order_id next_poll) "upgrade_timestamp" order_id
          next_poll (around.clock 12)

    -- the next poll of the confirmations
    unfoldable pub leave_confirmation_poll : ℕ → Db → Result (Unit {0}) × Db
    leave_confirmation_poll order_id =
        let next_poll = around.clock 10 + confirmation_poll_interval in
        leave_job 11 (poll_key "confirmation-poll" order_id next_poll)
          "monitor_bitcoin_confirmations" order_id next_poll (around.clock 12)

    -- `except ConfirmationPending`
    unfoldable pub unless_pending :
        Result (Unit {0}) × Db
        → (Db → Result (Unit {0}) × Db)
        → (Db → Result (Unit {0}) × Db)
        → Result (Unit {0}) × Db
    unless_pending (ok _, db) done pending = done db
    unless_pending (err (confirmation_pending _), db) done pending = pending db
    unless_pending (err e, db) done pending = (err e, db)

    -- `UpgradeJobHandler.__call__`
    unfoldable pub upgrade_job : ℕ → Db → Result (Unit {0}) × Db
    upgrade_job order_id db =
        unless_pending (run order_id db) (leave_delivery order_id) (leave_upgrade_poll order_id)

    -- `DeliveryJobHandler.__call__`
    unfoldable pub delivery_job : ℕ → Db → Result (Unit {0}) × Db
    delivery_job order_id db = after (run order_id db) (λ _. leave_confirmation_poll order_id)

    -- `ConfirmationJobHandler.__call__`
    unfoldable pub confirmation_job : ℕ → Db → Result (Unit {0}) × Db
    confirmation_job order_id db =
        unless_pending (run order_id db) (λ end. (ok tt, end)) (leave_confirmation_poll order_id)
