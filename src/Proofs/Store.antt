-- ===== src/Proofs/Store.antt =====
-- `SqlProofStore` of app/db/fulfillment_adapters.py: the versions of the proof of an order. Each
-- method is one transaction; the identifier of a new row and the clock are arguments.
use spacerocks_coa.Base.{
  ℕ, ◌+◌, String, Bool, true, not, ◌&&◌, ◌||◌, ◌==◌, leb, Option, none, some, List, if◌then◌else◌,
  is_some, length, Result, ok, err, value_error, ◌>>=◌, raise_if, or_raise,
}
use spacerocks_coa.Order.{FulfillmentState, bitcoin_verified, delivered, fulfillment_eq}
use spacerocks_coa.Db.{Db, Order}
use spacerocks_coa.Db.Evidence.{ProofState, ProofVersion, ProofVerification, VerificationPayload}
use spacerocks_coa.Proofs.Models.{
  BitcoinVerification, StoredProof, Verified, bitcoin_verification, stored_proof, validate_verified,
  max_proof_bytes,
}
use spacerocks_coa.Proofs.Equality.{proof_eq, proof_state_eq}
use spacerocks_coa.Proofs.Rows.{
  find_order_by_reference, save_calendar_time, merge_calendar_time, latest_version, get_version,
  insert_version, find_verification, insert_verification_row, latest_observation,
}

-- `_verification`
unfoldable pub verification_of : ProofVerification → ℕ → Result BitcoinVerification
verification_of value confirmations = bitcoin_verification (record {
  verified = true;
  method = value.method;
  verified_at = some value.verified_at;
  block_height = some value.block_height;
  block_hash = some value.block_hash;
  block_time = some value.block_time;
  confirmation_policy = some value.confirmation_policy;
  confirmations = some confirmations;
})

-- `_verification_payload`, of a verification that `_validate_verified` accepts
unfoldable pub verification_payload : BitcoinVerification → Result VerificationPayload
verification_payload value = do
  v ← validate_verified value
  ok (record {
    block_height = v.block_height;
    block_hash = v.block_hash;
    block_time = v.block_time;
    confirmation_policy = v.confirmation_policy;
    confirmations = v.confirmations;
    verification_method = v.method;
    verified_at = v.verified_at;
  })

-- `_verification_from_payload`: the `ValueError` of the test of a verification gets another code
unfoldable pub verification_from_payload : VerificationPayload → Result BitcoinVerification
verification_from_payload value =
    elim (bitcoin_verification (record {
      verified = true;
      method = value.verification_method;
      verified_at = some value.verified_at;
      block_height = some value.block_height;
      block_hash = some value.block_hash;
      block_time = some value.block_time;
      confirmation_policy = some value.confirmation_policy;
      confirmations = some value.confirmations;
    })) [ ok v ↦ ok v | err e ↦ err (value_error "stored_verification_metadata_invalid") ]

-- the verification of the row beside, if it has an observation and may be shown
unfoldable pub separate_verification :
    Option ProofVerification → Option ℕ → Bool → Result (Option BitcoinVerification)
separate_verification (some value) (some confirmations) true = do
  v ← verification_of value confirmations
  ok (some v)
separate_verification _ _ _ = ok none

-- the verification in the metadata of the row, where there is no other
unfoldable pub shown_verification :
    Option BitcoinVerification
    → Option VerificationPayload
    → Bool
    → Result (Option BitcoinVerification)
shown_verification (some v) metadata project = ok (some v)
shown_verification none (some payload) true = do v ← verification_from_payload payload; ok (some v)
shown_verification none _ _ = ok none

abbrev pub new_version : ℕ → ℕ → StoredProof → Option VerificationPayload → ℕ → ProofVersion
new_version id order_id proof metadata now = record {
  id = id;
  order_id = order_id;
  version = proof.version;
  target_digest = proof.target_digest;
  proof_bytes = proof.proof_bytes;
  proof_sha256 = proof.proof_sha256;
  proof_byte_length = length proof.proof_bytes;
  proof_state = proof.proof_state;
  calendar_submitted_at = proof.calendar_submitted_at;
  verification_metadata = metadata;
  created_at = now;
}

abbrev pub new_verification : ℕ → ℕ → Verified → ℕ → ProofVerification
new_verification order_id version v now = record {
  order_id = order_id;
  proof_version = version;
  method = v.method;
  verified_at = v.verified_at;
  block_height = v.block_height;
  block_hash = v.block_hash;
  block_time = v.block_time;
  confirmation_policy = v.confirmation_policy;
  created_at = now;
}

-- `_insert_verification`
unfoldable pub insert_verification : ℕ → ℕ → BitcoinVerification → ℕ → Db → Result Db
insert_verification order_id version result now db = do
  v ← validate_verified result
  insert_verification_row (new_verification order_id version v now) db

-- the two writes of `append`
unfoldable pub add_version : StoredProof → ℕ → Order → ℕ → Db → Result Db
add_version proof id order now db = elim proof.verification [
  | none ↦ insert_version (new_version id order.id proof none now) db
  | some v ↦ do
    payload ← verification_payload v
    inserted ← insert_version (new_version id order.id proof (some payload) now) db
    insert_verification order.id proof.version v now inserted
]

-- `matches_metadata`
unfoldable pub matches_metadata : ProofVersion → ProofVersion → Bool
matches_metadata proof metadata =
    proof.id == metadata.id
    && (proof.version == metadata.version
        && (proof.target_digest == metadata.target_digest
            && (proof.proof_sha256 == metadata.proof_sha256
                && (proof.proof_byte_length == metadata.proof_byte_length
                    && (length proof.proof_bytes == length metadata.proof_bytes
                        && (proof_state_eq proof.proof_state metadata.proof_state
                            && proof.calendar_submitted_at == metadata.calendar_submitted_at))))))

-- the tests of `_validate_metadata`, where a digest has 32 bytes
unfoldable pub valid_metadata : ProofVersion → Bool
valid_metadata m =
    leb 1 m.proof_byte_length
    && (leb m.proof_byte_length max_proof_bytes && length m.proof_bytes == m.proof_byte_length)

-- the confirmations of the last observation, where there is a verification
unfoldable pub shown_confirmations : Option ProofVerification → ℕ → ℕ → Db → Option ℕ
shown_confirmations none order_id version db = none
shown_confirmations (some _) order_id version db = elim (latest_observation order_id version db) [
  | none ↦ none
  | some o ↦ some o.observed_confirmations
]

-- the orders that show a verification
abbrev pub is_verified : FulfillmentState → Bool
is_verified s = fulfillment_eq s bitcoin_verified || fulfillment_eq s delivered

module _ (sha256 : List ℕ → ℕ) where
  -- `_stored_proof`
  unfoldable pub stored_proof_of :
      ProofVersion → String → Option ProofVerification → Option ℕ → Bool → Result StoredProof
  stored_proof_of value reference separate confirmation_count project = do
    beside ← separate_verification separate confirmation_count project
    verification ← shown_verification beside value.verification_metadata project
    _ ←
        raise_if (not (value.proof_byte_length == length value.proof_bytes))
          (value_error "stored_proof_length_invalid")
    stored_proof sha256 (record {
      order_reference = reference;
      version = value.version;
      target_digest = value.target_digest;
      proof_bytes = value.proof_bytes;
      proof_sha256 = value.proof_sha256;
      proof_state =
          if is_some verification then ProofState.bitcoin_verified else ProofState.calendar_pending;
      calendar_submitted_at = value.calendar_submitted_at;
      verification = verification;
    })

  -- the tests of `append` against the last version, and the writes
  unfoldable pub append_after : StoredProof → ℕ → Order → Option ProofVersion → ℕ → Db → Result Db
  append_after proof id order none now db =
      if not (proof.version == 1)
      then err (value_error "first_proof_version_must_be_one")
      else add_version proof id order now db
  append_after proof id order (some last) now db =
      if proof.version == last.version
      then (do
        known ← stored_proof_of last order.order_reference none none true
        if proof_eq known proof then ok db else err (value_error "proof_version_conflict"))
      else if not (proof.version == last.version + 1)
      then err (value_error "proof_version_must_append")
      else if not (last.target_digest == proof.target_digest)
      then err (value_error "proof_target_is_immutable")
      else add_version proof id order now db

  unfoldable pub append : StoredProof → ℕ → ℕ → Db → Result Db
  append proof id now db = do
    _ ←
        raise_if
          (not (leb 1 (length proof.proof_bytes) && leb (length proof.proof_bytes) max_proof_bytes))
          (value_error "proof_size_invalid")
    order ←
        or_raise (find_order_by_reference db proof.order_reference)
          (value_error "proof_order_not_found")
    _ ←
        raise_if (not (order.manifest_digest == proof.target_digest))
          (value_error "proof_target_does_not_match_order")
    merged ← merge_calendar_time order (some proof.calendar_submitted_at)
    append_after proof id merged (latest_version order.id db) now (save_calendar_time merged db)

  -- `latest_for_order`; the metadata are columns of the row that is selected first
  unfoldable pub latest_for_order : Order → Db → Result (Option StoredProof)
  latest_for_order order db = elim (latest_version order.id db) [
    | none ↦ ok none
    | some selected ↦ do
      _ ← raise_if (not (valid_metadata selected)) (value_error "stored_proof_metadata_invalid")
      proof ← or_raise (get_version db selected.id) (value_error "stored_proof_disappeared")
      _ ← raise_if (not (matches_metadata proof selected)) (value_error "stored_proof_changed")
      stored ←
          stored_proof_of proof order.order_reference (find_verification db order.id proof.version)
            (shown_confirmations (find_verification db order.id proof.version) order.id
              proof.version db)
            (is_verified order.fulfillment_state)
      ok (some stored)
  ]

  unfoldable pub latest : String → Db → Result (Option StoredProof)
  latest reference db = elim (find_order_by_reference db reference) [
    | none ↦ ok none
    | some order ↦ latest_for_order order db
  ]
