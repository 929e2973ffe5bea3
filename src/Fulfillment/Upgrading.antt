-- ===== src/Fulfillment/Upgrading.antt =====
-- `UpgradeHandler` of app/fulfillment/handlers.py. The calendars are the argument `upgrade`, and the
-- verifier of Bitcoin is the argument `verify_exact_digest`.
use spacerocks_coa.Base.{
  ℕ, ◌+◌, String, Bool, false, not, ◌&&◌, ◌||◌, ◌==◌, leb, Option, none, some, List, if◌then◌else◌,
  is_some, Result, ok, err, value_error, assertion_error, manual_review_error, confirmation_pending,
  ◌>>=◌, raise_if, or_raise, str_eq,
}
use spacerocks_coa.Order.{
  FulfillmentState, calendar_pending, bitcoin_verified, delivered, fulfillment_eq,
}
use spacerocks_coa.Db.{Db}
use spacerocks_coa.Db.Evidence.{ProofState}
use spacerocks_coa.Orders.Keys.{joined, decimal_string}
use spacerocks_coa.Proofs.Models.{BitcoinVerification, StoredProof}
use spacerocks_coa.Proofs.Equality.{option_eq, bytes_eq}
use spacerocks_coa.Proofs.Evidence.{put_verified_once}
use spacerocks_coa.Proofs.Observations.{ConfirmationObservation, record_once}
use spacerocks_coa.Fulfillment.Repository.{FulfillmentOrder}
use spacerocks_coa.Fulfillment.Steps.{
  Surroundings, Tools, commit, commit_write, given, after, refuse_proof, refuse_or_retry,
  verify_bitcoin, validate, load, read_latest, move,
}
use spacerocks_coa.Fulfillment.Stamping.{make_stored_proof, append_or_known}

-- the states of an order whose proof is verified
abbrev pub is_verified : FulfillmentState → Bool
is_verified s = fulfillment_eq s bitcoin_verified || fulfillment_eq s delivered

-- `immutable_current == immutable_existing`
abbrev pub same_evidence : BitcoinVerification → BitcoinVerification → Bool
same_evidence a b =
    str_eq a.method b.method
    && (option_eq (λ x y. x == y) a.block_height b.block_height
        && (option_eq str_eq a.block_hash b.block_hash
            && (option_eq (λ x y. x == y) a.block_time b.block_time
                && option_eq str_eq a.confirmation_policy b.confirmation_policy)))

-- both times are given, and the second is not before the first
abbrev pub not_before : Option ℕ → Option ℕ → Bool
not_before (some existing) (some current) = leb existing current
not_before _ _ = false

-- `_same_reverification_evidence`
unfoldable pub same_reverification_evidence :
    Option BitcoinVerification → BitcoinVerification → Bool
same_reverification_evidence none current = false
same_reverification_evidence (some existing) current =
    existing.verified
    && (current.verified
        && (not_before existing.verified_at current.verified_at && same_evidence current existing))

-- `_observation_event_key`, where a time is its number of microseconds
unfoldable pub observation_event_key : ℕ → BitcoinVerification → Result String
observation_event_key version v = do
  observed ←
      or_raise v.verified_at
        (value_error "verified Bitcoin observation requires time and confirmations")
  confirmations ←
      or_raise v.confirmations
        (value_error "verified Bitcoin observation requires time and confirmations")
  ok (
      joined "bitcoin-observed-v" (
        joined (decimal_string version) (
          joined "-"
            (joined (decimal_string confirmations) (joined "-" (decimal_string observed))))))

module _ (tools : Tools) (around : Surroundings) where
  -- `observations.record_once`, with the key of the observation
  unfoldable pub observe :
      ℕ → ℕ → ℕ → BitcoinVerification → Db → Result ConfirmationObservation × Db
  observe step order_id version v = given (observation_event_key version v) (λ key db.
      let seen = around.others step db in
      commit (record_once order_id version key v (around.new_id step) (around.clock step) seen)
        seen)

  -- the tests of an order and its proof
  unfoldable pub check_upgrade : FulfillmentOrder → StoredProof → Result (Unit {0})
  check_upgrade order latest = do
    _ ← refuse_proof "stored_proof_invalid" (
        validate tools around order.state.snapshot.manifest_digest latest.proof_bytes
          (some latest.proof_sha256))
    raise_if
        (not (
          option_eq (λ x y. x == y) order.calendar_submitted_at
            (some latest.calendar_submitted_at)))
        (manual_review_error "proof_submission_time_conflict")

  module _ (verify_exact_digest : ℕ → List ℕ → Result BitcoinVerification)
      (upgrade : ℕ → List ℕ → Result (List ℕ)) where
    -- a new verification of a proof that was verified
    unfoldable pub reverified : FulfillmentOrder → StoredProof → Result BitcoinVerification
    reverified order latest = do
      verification ←
          verify_bitcoin
            (verify_exact_digest order.state.snapshot.manifest_digest latest.proof_bytes)
      _ ← raise_if (not verification.verified) (manual_review_error "bitcoin_reverification_failed")
      _ ←
          raise_if (not (same_reverification_evidence latest.verification verification))
            (manual_review_error "bitcoin_reverification_metadata_conflict")
      _ ← raise_if (not (is_some verification.verified_at)) assertion_error
      ok verification

    unfoldable pub reverify : ℕ → FulfillmentOrder → StoredProof → Db → Result (Unit {0}) × Db
    reverify order_id order latest = given (reverified order latest) (λ verification db.
        after (observe 2 order_id latest.version verification db) (λ _ db₁.
          given (or_raise verification.verified_at assertion_error)
            (λ at db₂.
              after
                (move tools around 3 order_id order.state.fulfillment
                  (joined "bitcoin-reverified-v"
                    (joined (decimal_string latest.version) (joined "-" (decimal_string at))))
                  none db₂)
                (λ _ end. (ok tt, end)))
            db₁))

    -- the `try` around the calendars
    unfoldable pub upgraded_bytes : FulfillmentOrder → StoredProof → Result (List ℕ)
    upgraded_bytes order latest =
        refuse_or_retry "upgraded_proof_invalid" "calendar_upgrade_unavailable" (do
          bytes ← upgrade order.state.snapshot.manifest_digest latest.proof_bytes
          _ ← validate tools around order.state.snapshot.manifest_digest bytes none
          ok bytes)

    -- the next version, if the calendars changed the proof
    unfoldable pub keep_upgrade :
        FulfillmentOrder → StoredProof → List ℕ → Db → Result StoredProof × Db
    keep_upgrade order latest bytes db =
        if bytes_eq bytes latest.proof_bytes
        then (ok latest, db)
        else given
            (make_stored_proof tools around order.state.snapshot.order_reference
              (latest.version + 1) order.state.snapshot.manifest_digest bytes
              ProofState.calendar_pending latest.calendar_submitted_at none)
            (λ upgraded db₁.
              after (append_or_known tools around 2 3 upgraded db₁) (λ _ db₂. (ok upgraded, db₂)))
            db

    unfoldable pub verify_latest : FulfillmentOrder → StoredProof → Result BitcoinVerification
    verify_latest order latest = do
      verification ←
          verify_bitcoin
            (verify_exact_digest order.state.snapshot.manifest_digest latest.proof_bytes)
      _ ← raise_if (not verification.verified) (confirmation_pending "bitcoin_confirmation_pending")
      ok verification

    -- what follows a verification: it is stored, observed, and the order moves
    unfoldable pub keep_verification :
        ℕ → StoredProof → BitcoinVerification → Db → Result (Unit {0}) × Db
    keep_verification order_id latest verification db =
        let seen = around.others 4 db in
        after
          (commit_write
            (put_verified_once order_id latest.version verification (around.clock 4) seen) seen)
          (λ _ db₁. after (observe 5 order_id latest.version verification db₁) (λ _ db₂.
            after
              (move tools around 6 order_id bitcoin_verified
                (joined "bitcoin-verified-v" (decimal_string latest.version)) none db₂)
              (λ _ end. (ok tt, end))))

    unfoldable pub upgrade_pending :
        ℕ → FulfillmentOrder → StoredProof → Db → Result (Unit {0}) × Db
    upgrade_pending order_id order latest = given (upgraded_bytes order latest) (λ bytes db.
        after (keep_upgrade order latest bytes db) (λ current db₁.
          given (verify_latest order current) (keep_verification order_id current) db₁))

    -- `UpgradeHandler.__call__`
    unfoldable pub upgrade_handler : ℕ → Db → Result (Unit {0}) × Db
    upgrade_handler order_id db = after (load tools around order_id db) (λ order db₁.
        after (read_latest tools around 1 order.state.snapshot.order_reference db₁) (λ latest db₂.
          elim latest [
            | none ↦ (err (manual_review_error "proof_missing"), db₂)
            | some stored ↦
                given (check_upgrade order stored)
                  (λ _.
                    if is_verified order.state.fulfillment
                    then reverify order_id order stored
                    else if not (fulfillment_eq order.state.fulfillment calendar_pending)
                    then (λ db₃. (err (manual_review_error "upgrade_state_invalid"), db₃))
                    else upgrade_pending order_id order stored)
                  db₂
          ]))
