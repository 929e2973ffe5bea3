-- ===== src/Fulfillment/Stamping.antt =====
-- `StampHandler` of app/fulfillment/handlers.py, and `make_stored_proof` of app/proofs/store.py. The
-- calendars are the argument `stamp`.
use spacerocks_coa.Base.{
  ℕ, String, Bool, false, not, ◌==◌, ltb, Option, none, some, List, if◌then◌else◌, Result, ok, err,
  value_error, manual_review_error, ◌>>=◌, raise_if,
}
use spacerocks_coa.Order.{
  FulfillmentState, paid, queued, stamping, calendar_pending, payment_eq, fulfillment_eq,
}
use spacerocks_coa.Db.{Db}
use spacerocks_coa.Db.Evidence.{ProofState}
use spacerocks_coa.Orders.Keys.{joined, decimal_string}
use spacerocks_coa.Proofs.Models.{BitcoinVerification, StoredProof, stored_proof}
use spacerocks_coa.Proofs.Equality.{option_eq, proof_eq}
use spacerocks_coa.Proofs.Store.{append}
use spacerocks_coa.Fulfillment.Repository.{FulfillmentOrder}
use spacerocks_coa.Fulfillment.Steps.{
  Surroundings, Tools, given, after, refuse_proof, refuse_or_retry, is_value_error, validate, load,
  read_latest, move,
}

-- app/ports/timestamping.py
pub record PendingProof : Type 0 where
  pub proof_bytes : List ℕ
  pub calendar_submitted_at : ℕ

-- `a is not None and a != time`
abbrev pub conflicts : Option ℕ → ℕ → Bool
conflicts none time = false
conflicts (some known) time = not (known == time)

module _ (tools : Tools) (around : Surroundings) where
  -- `make_stored_proof`
  unfoldable pub make_stored_proof :
      String → ℕ → ℕ → List ℕ → ProofState → ℕ → Option BitcoinVerification → Result StoredProof
  make_stored_proof reference version target_digest proof_bytes proof_state time verification = do
    _ ← raise_if (ltb version 1) (value_error "proof_version_must_be_positive")
    _ ← validate tools around target_digest proof_bytes none
    stored_proof tools.sha256 (record {
      order_reference = reference;
      version = version;
      target_digest = target_digest;
      proof_bytes = proof_bytes;
      proof_sha256 = tools.sha256 proof_bytes;
      proof_state = proof_state;
      calendar_submitted_at = time;
      verification = verification;
    })

  -- the `append` of a handler, which takes a conflict with the same proof for success
  unfoldable pub append_or_known : ℕ → ℕ → StoredProof → Db → Result (Unit {0}) × Db
  append_or_known step again stored db =
      let seen = around.others step db in
      elim (append tools.sha256 stored (around.new_id step) (around.clock step) seen) [
        | ok db' ↦ (ok tt, db')
        | err e ↦
            if not (is_value_error e)
            then (err e, seen)
            else after (read_latest tools around again stored.order_reference seen) (λ replay db'.
              if option_eq proof_eq replay (some stored)
              then (ok tt, db')
              else (err (manual_review_error "proof_append_conflict"), db'))
      ]

  -- the transitions of a stored proof that an order has not caught up with
  unfoldable pub catch_up : ℕ → FulfillmentState → StoredProof → Db → Result (Unit {0}) × Db
  catch_up order_id state latest db =
      if fulfillment_eq state queued
      then after
          (move tools around 2 order_id stamping
            (joined "stamp-replay-start-v" (decimal_string latest.version))
            (some latest.calendar_submitted_at) db)
          (λ order db'.
            after
              (move tools around 3 order_id calendar_pending
                (joined "stamp-replay-v" (decimal_string latest.version))
                (some latest.calendar_submitted_at) db')
              (λ _ end. (ok tt, end)))
      else if fulfillment_eq state stamping
      then after
          (move tools around 3 order_id calendar_pending
            (joined "stamp-replay-v" (decimal_string latest.version))
            (some latest.calendar_submitted_at) db)
          (λ _ end. (ok tt, end))
      else (ok tt, db)

  -- the tests of a proof that is stored already
  unfoldable pub check_stored : FulfillmentOrder → StoredProof → Result (Unit {0})
  check_stored order latest = do
    _ ← refuse_proof "stored_proof_invalid" (
        validate tools around order.state.snapshot.manifest_digest latest.proof_bytes
          (some latest.proof_sha256))
    _ ←
        raise_if (not (latest.target_digest == order.state.snapshot.manifest_digest))
          (manual_review_error "stored_proof_target_mismatch")
    raise_if (conflicts order.calendar_submitted_at latest.calendar_submitted_at)
        (manual_review_error "proof_submission_time_conflict")

  unfoldable pub replay_stamp : ℕ → FulfillmentOrder → StoredProof → Db → Result (Unit {0}) × Db
  replay_stamp order_id order latest =
      given (check_stored order latest) (λ _. catch_up order_id order.state.fulfillment latest)

  -- the first transition, where the order is still queued
  unfoldable pub start_stamp : ℕ → FulfillmentOrder → Db → Result FulfillmentOrder × Db
  start_stamp order_id order db =
      if fulfillment_eq order.state.fulfillment queued
      then move tools around 2 order_id stamping "stamp-start-v1" none db
      else (ok order, db)

  -- what follows the answer of the calendars
  unfoldable pub keep_stamp : ℕ → FulfillmentOrder → PendingProof → Db → Result (Unit {0}) × Db
  keep_stamp order_id order pending db =
      given
        (make_stored_proof order.state.snapshot.order_reference 1
          order.state.snapshot.manifest_digest pending.proof_bytes ProofState.calendar_pending
          pending.calendar_submitted_at none)
        (λ stored db₀. after (append_or_known 3 4 stored db₀) (λ _ db₁.
          after
            (move tools around 5 order_id stamping "stamp-response-v1"
              (some pending.calendar_submitted_at) db₁)
            (λ _ db₂.
              after
                (move tools around 6 order_id calendar_pending "stamp-persisted-v1"
                  (some pending.calendar_submitted_at) db₂)
                (λ _ end. (ok tt, end)))))
        db

  module _ (stamp : ℕ → Result PendingProof) where
    -- the `try` around the calendars
    unfoldable pub submit : ℕ → Result PendingProof
    submit digest = refuse_or_retry "calendar_proof_invalid" "calendar_submit_unavailable" (do
      pending ← stamp digest
      _ ← validate tools around digest pending.proof_bytes none
      ok pending)

    unfoldable pub first_stamp : ℕ → FulfillmentOrder → Db → Result (Unit {0}) × Db
    first_stamp order_id order db =
        if not (payment_eq order.state.payment paid)
        then (err (manual_review_error "initial_stamp_not_paid"), db)
        else after (start_stamp order_id order db) (λ started db'.
          if not (fulfillment_eq started.state.fulfillment stamping)
          then (err (manual_review_error "stamp_state_invalid"), db')
          else given (submit order.state.snapshot.manifest_digest) (keep_stamp order_id order) db')

    -- `StampHandler.__call__`
    unfoldable pub stamp_handler : ℕ → Db → Result (Unit {0}) × Db
    stamp_handler order_id db = after (load tools around order_id db) (λ order db₁.
        after (read_latest tools around 1 order.state.snapshot.order_reference db₁) (λ latest db₂.
          elim latest [
            | some stored ↦ replay_stamp order_id order stored db₂
            | none ↦ first_stamp order_id order db₂
          ]))
