-- ===== src/Lib.antt =====
-- The timestamp service of spacerocks-coa (timestamp-service/app): a customer pays for a timestamp
-- of the digest of a manifest, and a queue of durable jobs stamps the digest, waits until Bitcoin
-- confirms it, and delivers the proof.
--
-- The parts and how they interact. An order has a payment state and a fulfillment state, which
-- move by the tables of app/domain/order.py (Order). The state of the service is its database
-- (Db): the rows of app/db/models.py as records and a table as the list of its rows, with the
-- unique constraints, and the foreign key of a job, in the functions that insert (Db.Access). The job store (Jobs,
-- `SqlJobClaimStore` of app/db/repositories.py) enqueues jobs, leases them to workers and ends
-- them; each generation of a job has one dispatch, which the coordinator of app/tasks/dispatch.py
-- (Tasks) sends to Cloud Tasks and sweeps. A worker (Worker, app/worker/runner.py) claims a job,
-- runs its handler beside a heartbeat and ends the job by how the handler ended.
--
-- Payment comes before work. Checkout (Payments.Checkout and Payments.Completing,
-- `CheckoutService` of app/payments/service.py, on the rows of Payments.Reservations) reserves an
-- order under an idempotency key, calls the provider while it holds a lease on the reservation,
-- and writes the session and a token for the customer. The webhook (Payments.Webhook,
-- `WebhookService`) records each event of the provider once, tests that it is bound to an order
-- (Payments.Binding), moves the payment of the order, and when it becomes paid queues the order
-- with the first job and a mail. Both use the rows of orders, events and tokens (Orders,
-- `OrderStore`).
--
-- The work on a paid order. The handlers of app/fulfillment/handlers.py are programs whose steps are
-- transactions (Fulfillment.Steps): `StampHandler` (Fulfillment.Stamping) sends the digest to the
-- calendars, `UpgradeHandler` (Fulfillment.Upgrading) asks them for a proof in Bitcoin and records
-- what its verifier says, `DeliveryHandler` and `ConfirmationHandler` (Fulfillment.Delivering) put
-- the mails into the outbox. They move the order through `SqlFulfillmentRepository`
-- (Fulfillment.Repository), each move once for its key. The job handlers of
-- app/worker/composition.py (Fulfillment.JobHandlers) run them and enqueue the job that follows, and
-- app/fulfillment/terminal.py (Fulfillment.Terminal) sends an order whose job failed to review.
-- Proofs is app/ports/proof.py with the stores of app/db/fulfillment_adapters.py: the versions of a
-- proof (Proofs.Store), their verifications and bundles (Proofs.Evidence), and the confirmations
-- that were seen (Proofs.Observations, of app/db/notification_adapters.py). Timestamping.Detached is
-- app/timestamping/detached.py, the tests of a proof before anything rests on it.
--
-- Mail comes last. Notifications is `SqlNotificationOutbox` and `SqlResendWebhookStore` of
-- app/db/notification_adapters.py: a mail that confirms a proof is enqueued (Notifications.Outbox),
-- leased to a sender (Notifications.Leases) and ended by the holder of the lease
-- (Notifications.Ending); an event of the provider says whether it arrived (Notifications.Resend),
-- and a delivered mail moves its order to `delivered` (Notifications.Delivery). One turn of a sender
-- (Notifications.Sending) is `dispatch_once` of app/notifications/dispatch.py. Operator is
-- app/worker/operator.py: a job that waits is sent again, and a proof gets another run.
--
-- How code becomes a definition. A method that opens one transaction is a function from the
-- database to a `Result`, whose error carries no database because the transaction is rolled back;
-- a method that commits and then goes on returns a result and the database beside it. A function
-- has the name of the method it models. An exception is a value of `Exn` by its class, with its
-- message or code. The clock, new UUIDs and random numbers, the rows that other transactions lock
-- (`SKIP LOCKED`), and what others commit while the code waits for the network are arguments; in a
-- handler they are functions of the number of the step (`Surroundings`). What is not under the
-- repository (the client of Cloud Tasks, the payment provider, the keyed hash of a token, SHA-256,
-- `isoformat`, the calendars, and of the library opentimestamps the reading of a file and the effect
-- of an operation) is a parameter of the definitions that use it.
--
-- Numbers. A time is the number of microseconds since the epoch and a span a number of
-- microseconds. A UUID is its 128-bit number. Python's integers are unbounded and so is ℕ; every
-- subtraction in the code is on values where it does not go below zero, or is written out. The loops
-- of the code run over lists of rows, but for two: the walk over a timestamp has 257 turns, one more
-- than the nodes that it may count, and the text of a number has one turn for each unit of it.
-- The jitter of a delay, a float in the code, is a number of millionths, and a delay is rounded down
-- to a microsecond. An email, a template and a payload are texts of ASCII characters.
--
-- Some functions of the repository are arguments too: `_validate_checkout_url`, the hash of a token,
-- the clients behind the calendars and behind the verifier of Bitcoin, and what builds a receipt and
-- a bundle. `uuid.UUID`, which reads an identifier, is the argument `uuid_of`.
--
-- Not modelled: HTTP, the settings, the clients of Bitcoin nodes, calendars and mail, the texts of
-- mails and receipts, the purge of test orders, and logs. Two transactions interleave at their
-- boundaries only, which is what the row locks of the code give for the rows that they lock.
pub mod Base
pub mod Db
pub mod Fulfillment
pub mod Jobs
pub mod Notifications
pub mod Operator
pub mod Order
pub mod Orders
pub mod Payments
pub mod Proofs
pub mod Tasks
pub mod Timestamping
pub mod Worker
