-- ===== src/Fulfillment/Steps.antt =====
-- The handlers of app/fulfillment/handlers.py as programs: a step of a handler is one transaction,
-- whose commit stays when a later step raises. What other processes commit before a step, the
-- reading of the clock in it and the identifier that it draws are given for each step by its number.
use spacerocks_coa.Base.{
  ℕ, String, Bool, true, false, Option, none, some, List, Result, ok, err, Exn, value_error,
  manual_review_error, retryable_fulfillment_error, proof_validation_error, cancelled_error,
  bitcoin_verifier_unavailable, bitcoin_evidence_invalid,
}
use spacerocks_coa.Order.{FulfillmentState}
use spacerocks_coa.Db.{Db}
use spacerocks_coa.Proofs.Models.{BitcoinVerification, StoredProof}
use spacerocks_coa.Proofs.Store.{latest}
use spacerocks_coa.Timestamping.Detached.{Operation, Detached, validate_exact_proof}
use spacerocks_coa.Fulfillment.Repository.{
  FulfillmentOrder, get_for_fulfillment, transition_fulfillment_once,
}

-- what the world around one run of a handler does
pub record Surroundings : Type 0 where
  pub others : ℕ → Db → Db
  pub clock : ℕ → ℕ
  pub new_id : ℕ → ℕ

-- the libraries that the handlers call
pub record Tools : Type 0 where
  pub sha256 : List ℕ → ℕ
  pub isoformat : ℕ → String
  pub apply : Operation → List ℕ → List ℕ
  pub deserialize : List ℕ → Option Detached

abbrev pub Program : Type 0 → Type 0
Program A = Db → Result A × Db

-- the end of a transaction: a failed one leaves the database as it was
abbrev pub commit : {A : Type 0} → Result (A × Db) → Db → Result A × Db
commit (ok (a, db')) db = (ok a, db')
commit (err e) db = (err e, db)

abbrev pub commit_write : Result Db → Db → Result (Unit {0}) × Db
commit_write (ok db') db = (ok tt, db')
commit_write (err e) db = (err e, db)

-- a program that goes on with a value that has been computed, or raises
abbrev pub given : {A B : Type 0} → Result A → (A → Program B) → Program B
given (ok a) next db = next a db
given (err e) next db = (err e, db)

-- one program after another
abbrev pub after : {A B : Type 0} → Result A × Db → (A → Program B) → Result B × Db
after (ok a, db) next = next a db
after (err e, db) next = (err e, db)

-- `except ProofValidationError as exc: raise ManualReviewError(code)`
abbrev pub refuse_proof : {A : Type 0} → String → Result A → Result A
refuse_proof code (err (proof_validation_error _)) = err (manual_review_error code)
refuse_proof code r = r

-- `except ProofValidationError`, then `except Exception as exc: raise RetryableFulfillmentError`
abbrev pub refuse_or_retry : {A : Type 0} → String → String → Result A → Result A
refuse_or_retry refused unavailable (ok a) = ok a
refuse_or_retry refused unavailable (err (proof_validation_error _)) =
    err (manual_review_error refused)
refuse_or_retry refused unavailable (err cancelled_error) = err cancelled_error
refuse_or_retry refused unavailable (err _) = err (retryable_fulfillment_error unavailable)

-- `except ValueError`: the class and the classes below it
abbrev pub is_value_error : Exn → Bool
is_value_error (value_error _) = true
is_value_error (proof_validation_error _) = true
is_value_error (bitcoin_evidence_invalid _) = true
is_value_error _ = false

-- `_verify_bitcoin`, on the answer of the verifier
abbrev pub verify_bitcoin : Result BitcoinVerification → Result BitcoinVerification
verify_bitcoin (err (bitcoin_verifier_unavailable _)) =
    err (retryable_fulfillment_error "bitcoin_verifier_unavailable")
verify_bitcoin (err (bitcoin_evidence_invalid _)) =
    err (manual_review_error "bitcoin_evidence_invalid")
verify_bitcoin (err (proof_validation_error _)) =
    err (manual_review_error "bitcoin_evidence_invalid")
verify_bitcoin r = r

module _ (tools : Tools) (around : Surroundings) where
  -- `validate_exact_proof`
  abbrev pub validate : ℕ → List ℕ → Option ℕ → Result (Unit {0})
  validate digest proof_bytes expected =
      validate_exact_proof tools.apply tools.deserialize tools.sha256 digest proof_bytes expected

  -- `_load`, in step 0
  unfoldable pub load : ℕ → Db → Result FulfillmentOrder × Db
  load order_id db =
      let seen = around.others 0 db in
      elim (get_for_fulfillment order_id seen) [
        | none ↦ (err (manual_review_error "order_not_found"), seen)
        | some order ↦ (ok order, seen)
      ]

  -- `proofs.latest`
  unfoldable pub read_latest : ℕ → String → Db → Result (Option StoredProof) × Db
  read_latest step reference db =
      let seen = around.others step db in (latest tools.sha256 reference seen, seen)

  -- `orders.transition_fulfillment_once`
  unfoldable pub move :
      ℕ → ℕ → FulfillmentState → String → Option ℕ → Db → Result FulfillmentOrder × Db
  move step order_id target event_key time db =
      let seen = around.others step db in
      commit
        (transition_fulfillment_once tools.isoformat order_id target event_key time
          (around.clock step) seen)
        seen
