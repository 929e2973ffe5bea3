-- ===== src/Fulfillment/Observing.antt =====
-- What the steps of the monitor record, and what holds after a program from its parts.
use spacerocks_coa.Base.{
  ℕ, ◌≤◌, ◌≡◌, ◌⊎◌, refl, subst, String, Option, none, some, List, [], ◌∷◌, ◌++◌, arith, Result, ok,
  err, Result-cases, Option-cases, inl, inr, find,
}
use spacerocks_coa.Db.{Db, Order}
use spacerocks_coa.Db.Evidence.{BitcoinConfirmationObservation}
use spacerocks_coa.Orders.{find_order, has_message_key}
use spacerocks_coa.Proofs.Models.{BitcoinVerification, StoredProof, Verified}
use spacerocks_coa.Proofs.Rows.{latest_observation, find_order_by_reference}
use spacerocks_coa.Proofs.Observations.{
  new_observation, ConfirmationObservation, record_once, record_observation,
  validate_observation_input, find_observation,
}
use spacerocks_coa.Fulfillment.Repository.{FulfillmentOrder}
use spacerocks_coa.Fulfillment.Steps.{Surroundings, Tools, Program, verify_bitcoin, given, after}
use spacerocks_coa.Fulfillment.Delivering.{confirmed_again}
use spacerocks_coa.Notifications.Messages.{NotificationKind, Message}
use spacerocks_coa.Notifications.Outbox.{
  OutboxSettings, enqueue, put_message, insert_message, validate_message, authoritative_observation,
}

validated_count :
    (version : ℕ) (key : String) (v : BitcoinVerification) (n : ℕ) (given : Verified)
    → v.confirmations ≡ some n
    → validate_observation_input version key v ≡ ok given
    → given.confirmations ≡ n
unfolding validate_observation_input
validated_count version key v n given count e = ground arith

-- the table of observations has grown by at most one row, for this order and version, with this count
abbrev pub AddsOne : ℕ → ℕ → ℕ → Db → Db → Type 0
AddsOne order_id version n db db' =
    (db'.confirmation_observations ≡ db.confirmation_observations)
    ⊎ ((row : BitcoinConfirmationObservation) × (db'.confirmation_observations
          ≡ db.confirmation_observations ++ row ∷ [])
        × (row.order_id ≡ order_id)
        × (row.proof_version ≡ version)
        × (row.observed_confirmations ≡ n))

record_observation-AddsOne :
    (order_id version : ℕ) (key : String) (given : Verified) (id now : ℕ) (db : Db)
    (r : ConfirmationObservation × Db)
    → record_observation order_id version key given id now db ≡ ok r
    → AddsOne order_id version given.confirmations db r.1
unfolding record_observation
record_observation-AddsOne order_id version key given id now db r e =
    elim (Option-cases (find_observation db order_id key)) [
      | inl p ↦
          inr (new_observation id order_id version key given now, ground arith, refl, refl, refl)
      | inr (existing, p) ↦ inl (ground arith)
    ]

pub record_once-AddsOne :
    (order_id version : ℕ) (key : String) (v : BitcoinVerification) (id now : ℕ) (db : Db) (n : ℕ)
    (r : ConfirmationObservation × Db)
    → v.confirmations ≡ some n
    → record_once order_id version key v id now db ≡ ok r
    → AddsOne order_id version n db r.1
unfolding record_once
record_once-AddsOne order_id version key v id now db n r count e =
    elim (Result-cases (validate_observation_input version key v)) [
      | inr (x, p) ↦ absurd (ground arith)
      | inl (given, p) ↦ elim (Option-cases (find_order db order_id)) [
        | inl q ↦ absurd (ground arith)
        | inr (order, q) ↦
            subst (λ m. AddsOne order_id version m db r.1)
              (validated_count version key v n given count p)
              (record_observation-AddsOne order_id version key given id now db r (ground arith))
      ]
    ]

put_message-observations :
    (mails : OutboxSettings) (id : ℕ) (order : Order) (message : Message) (kind : NotificationKind)
    (version count : ℕ) (o : BitcoinConfirmationObservation) (now : ℕ) (db db' : Db)
    → put_message mails id order message kind version count o now db ≡ ok db'
    → db'.confirmation_observations ≡ db.confirmation_observations
unfolding put_message insert_message
put_message-observations mails id order message kind version count o now db db' e =
    elim (Option-cases (find (has_message_key message.message_key) db.outbox)) [
      | inl p ↦ ground arith
      | inr (existing, p) ↦ ground arith
    ]

pub enqueue-observations :
    (mails : OutboxSettings) (message : Message) (id now : ℕ) (db db' : Db)
    → enqueue mails message id now db ≡ ok db'
    → db'.confirmation_observations ≡ db.confirmation_observations
unfolding enqueue
enqueue-observations mails message id now db db' e =
    elim (Result-cases (validate_message message)) [
      | inr (x, p) ↦ absurd (ground arith)
      | inl ((kind, version, count), p) ↦
          elim (Option-cases (find_order_by_reference db message.order_reference)) [
            | inl q ↦ absurd (ground arith)
            | inr (order, q) ↦
                elim (Result-cases (authoritative_observation order version count db)) [
                  | inr (x, r) ↦ absurd (ground arith)
                  | inl (o, r) ↦
                      put_message-observations mails id order message kind version count o now db
                        db' (ground arith)
                ]
          ]
    ]

-- What holds of the database after a program, from what holds after its parts.
pub after_holds :
    {A B : Type 0} (P : Db → Type 0) (p : Result A × Db) (next : A → Program B)
    → P p.1
    → ((a : A) → p.0 ≡ ok a → P (next a p.1).1)
    → P (after p next).1
after_holds P (ok a, db) next here there = there a refl
after_holds P (err e, db) next here there = here

pub given_holds :
    {A B : Type 0} (P : Db → Type 0) (r : Result A) (next : A → Program B) (db : Db)
    → P db
    → ((a : A) → r ≡ ok a → P (next a db).1)
    → P (given r next db).1
given_holds P (ok a) next db here there = there a refl
given_holds P (err e) next db here there = here

-- other processes record no observation
abbrev pub KeepsObservations : Surroundings → Type 0
KeepsObservations around =
    (step : ℕ) (db : Db)
    → (around.others step db).confirmation_observations ≡ db.confirmation_observations

pub latest-same :
    (order_id version : ℕ) (db db' : Db)
    → db'.confirmation_observations ≡ db.confirmation_observations
    → latest_observation order_id version db' ≡ latest_observation order_id version db
unfolding latest_observation
latest-same order_id version db db' same = rw same refl

module _ (tools : Tools) (around : Surroundings) (mails : OutboxSettings)
    (verify_exact_digest : ℕ → List ℕ → Result BitcoinVerification) (order : FulfillmentOrder)
    (proof : StoredProof) where
  -- a verification that the monitor accepts counts its confirmations, no fewer than before
  pub confirmed_again-count :
      (stored : Option BitcoinVerification) (previous : ConfirmationObservation)
      (current : BitcoinVerification)
      → confirmed_again tools around mails verify_exact_digest order proof stored (some previous)
        ≡ ok current
      → (n : ℕ) × (current.confirmations ≡ some n) × (previous.confirmations ≤ n)
  unfolding confirmed_again
  confirmed_again-count none previous current e = absurd (ground arith)
  confirmed_again-count (some stored) previous current e =
      elim (Result-cases (
        verify_bitcoin
          (verify_exact_digest order.state.snapshot.manifest_digest proof.proof_bytes))) [
            | inr (x, p) ↦ absurd (ground arith)
            | inl (v, p) ↦ elim (Option-cases v.confirmations) [
              | inl q ↦ absurd (ground arith)
              | inr (n, q) ↦ (n, ground arith, ground arith)
            ]
          ]
