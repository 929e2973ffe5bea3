-- ===== src/Fulfillment/Delivering.antt =====
-- `DeliveryHandler` and `ConfirmationHandler` of app/fulfillment/handlers.py. The receipt and the
-- bundle of a proof are the argument `build`.
use spacerocks_coa.Base.{
  ℕ, not, ◌||◌, ◌==◌, ltb, Option, none, some, List, is_some, Result, ok, err, assertion_error,
  manual_review_error, confirmation_pending, ◌>>=◌, ◌>>◌, raise_if, or_raise,
}
use spacerocks_coa.Db.{Db}
use spacerocks_coa.Db.Evidence.{ProofState}
use spacerocks_coa.Proofs.Models.{BitcoinVerification, StoredProof}
use spacerocks_coa.Proofs.Equality.{option_eq, proof_state_eq, verification_eq}
use spacerocks_coa.Proofs.Evidence.{get_verified, put_once}
use spacerocks_coa.Proofs.Observations.{ConfirmationObservation, latest_confirmation}
use spacerocks_coa.Notifications.Messages.{
  NotificationKind, initial_confirmation, final_confirmation, notification_message,
}
use spacerocks_coa.Notifications.Outbox.{OutboxSettings, enqueue}
use spacerocks_coa.Fulfillment.Repository.{FulfillmentOrder}
use spacerocks_coa.Fulfillment.Steps.{
  Surroundings, Tools, commit_write, given, after, refuse_proof, verify_bitcoin, validate, load,
  read_latest,
}
use spacerocks_coa.Fulfillment.Upgrading.{is_verified, same_reverification_evidence, observe}

module _ (tools : Tools) (around : Surroundings) (mails : OutboxSettings) where
  -- `verifications.get_verified`
  unfoldable pub read_verified : ℕ → ℕ → ℕ → Db → Result (Option BitcoinVerification) × Db
  read_verified step order_id version db =
      let seen = around.others step db in (get_verified order_id version seen, seen)

  -- `observations.latest`
  unfoldable pub read_confirmation : ℕ → ℕ → ℕ → Db → Result (Option ConfirmationObservation) × Db
  read_confirmation step order_id version db =
      let seen = around.others step db in (ok (latest_confirmation order_id version seen), seen)

  -- `outbox.enqueue(notification_message(...))`
  unfoldable pub notify :
      ℕ → NotificationKind → FulfillmentOrder → StoredProof → ℕ → Db → Result (Unit {0}) × Db
  notify step kind order proof confirmations =
      given
        (notification_message kind order.state.snapshot.order_reference order.state.snapshot.email
          proof.version confirmations)
        (λ message db.
          let seen = around.others step db in
          commit_write (enqueue mails message (around.new_id step) (around.clock step) seen) seen)

  -- the tests before a proof is delivered
  unfoldable pub check_proof : FulfillmentOrder → Option StoredProof → Result StoredProof
  check_proof order none = err (manual_review_error "proof_missing")
  check_proof order (some proof) =
      raise_if
        (not (
          option_eq (λ x y. x == y) order.calendar_submitted_at (some proof.calendar_submitted_at)))
        (manual_review_error "proof_submission_time_conflict")
      >> ok proof

  unfoldable pub check_verification : StoredProof → Option BitcoinVerification → Result (Unit {0})
  check_verification proof none = err (manual_review_error "delivery_verification_metadata_missing")
  check_verification proof (some verification) =
      raise_if (not verification.verified)
        (manual_review_error "delivery_verification_metadata_missing")
      >> raise_if
          (not (proof_state_eq proof.proof_state ProofState.bitcoin_verified)
            || not (option_eq verification_eq proof.verification (some verification)))
          (manual_review_error "delivery_proof_metadata_mismatch")

  unfoldable pub check_observation : Option ConfirmationObservation → Result ConfirmationObservation
  check_observation none = err (manual_review_error "delivery_confirmation_observation_missing")
  check_observation (some observation) =
      raise_if (ltb observation.confirmations 1)
        (manual_review_error "delivery_confirmation_observation_missing")
      >> ok observation

  module _ (build : FulfillmentOrder → StoredProof → Result (List ℕ)) where
    -- the bundle and the mail
    unfoldable pub deliver :
        ℕ → FulfillmentOrder → StoredProof → ConfirmationObservation → Db → Result (Unit {0}) × Db
    deliver order_id order proof observation = given (build order proof) (λ bundle db.
        let seen = around.others 4 db in
        after
          (commit_write (put_once tools.sha256 order_id proof.version bundle (around.clock 4) seen)
            seen)
          (λ _. notify 5 initial_confirmation order proof observation.confirmations))

    -- `DeliveryHandler.__call__`
    unfoldable pub delivery_handler : ℕ → Db → Result (Unit {0}) × Db
    delivery_handler order_id db = after (load tools around order_id db) (λ order.
        given
          (raise_if (not (is_verified order.state.fulfillment))
              (manual_review_error "delivery_state_invalid")
            >> raise_if (not (is_some order.calendar_submitted_at))
                (manual_review_error "proof_submission_time_missing"))
          (λ _ db₁.
            after (read_latest tools around 1 order.state.snapshot.order_reference db₁) (λ latest.
              given (check_proof order latest) (λ proof db₂.
                after (read_verified 2 order_id proof.version db₂) (λ verification.
                  given (check_verification proof verification) (λ _ db₃.
                    after (read_confirmation 3 order_id proof.version db₃) (λ observation.
                      given (check_observation observation) (deliver order_id order proof))))))))

  module _ (verify_exact_digest : ℕ → List ℕ → Result BitcoinVerification) where
    -- the tests before a new observation
    unfoldable pub confirmed_again :
        FulfillmentOrder
        → StoredProof
        → Option BitcoinVerification
        → Option ConfirmationObservation
        → Result BitcoinVerification
    confirmed_again order proof none previous =
        err (manual_review_error "confirmation_monitor_evidence_missing")
    confirmed_again order proof (some stored) none =
        err (manual_review_error "confirmation_monitor_evidence_missing")
    confirmed_again order proof (some stored) (some previous) = do
      current ←
          verify_bitcoin
            (verify_exact_digest order.state.snapshot.manifest_digest proof.proof_bytes)
      _ ← raise_if (not current.verified) (manual_review_error "bitcoin_confirmation_lost")
      _ ←
          raise_if (not (same_reverification_evidence (some stored) current))
            (manual_review_error "bitcoin_reverification_metadata_conflict")
      confirmations ← or_raise current.confirmations assertion_error
      _ ←
          raise_if (ltb confirmations previous.confirmations)
            (manual_review_error "bitcoin_confirmation_count_decreased")
      ok current

    -- a new observation, and the last mail when it has six confirmations
    unfoldable pub confirm :
        ℕ → FulfillmentOrder → StoredProof → BitcoinVerification → Db → Result (Unit {0}) × Db
    confirm order_id order proof current db =
        after (observe tools around 4 order_id proof.version current db) (λ observation.
          given
            (raise_if (ltb observation.confirmations 6)
              (confirmation_pending "bitcoin_final_confirmation_pending"))
            (λ _. notify 5 final_confirmation order proof observation.confirmations))

    unfoldable pub check_monitored : FulfillmentOrder → Option StoredProof → Result StoredProof
    check_monitored order none = err (manual_review_error "proof_missing")
    check_monitored order (some proof) =
        refuse_proof "stored_proof_invalid" (
          validate tools around order.state.snapshot.manifest_digest proof.proof_bytes
            (some proof.proof_sha256))
        >> ok proof

    -- `ConfirmationHandler.__call__`
    unfoldable pub confirmation_handler : ℕ → Db → Result (Unit {0}) × Db
    confirmation_handler order_id db = after (load tools around order_id db) (λ order.
        given
          (raise_if (not (is_verified order.state.fulfillment))
            (manual_review_error "confirmation_monitor_state_invalid"))
          (λ _ db₁.
            after (read_latest tools around 1 order.state.snapshot.order_reference db₁) (λ latest.
              given (check_monitored order latest) (λ proof db₂.
                after (read_verified 2 order_id proof.version db₂) (λ stored db₃.
                  after (read_confirmation 3 order_id proof.version db₃) (λ previous.
                    given (confirmed_again order proof stored previous)
                      (confirm order_id order proof)))))))
