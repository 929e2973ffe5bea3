-- ===== src/Timestamping/Detached.antt =====
-- app/timestamping/detached.py: the tests that a detached proof passes before anything rests on it.
-- The library opentimestamps is not under the repository: `deserialize` reads a file, and `apply`
-- computes the message that an operation makes of another. Its timestamps are trees, with the
-- operations of a node and what they lead to in their order.
use spacerocks_coa.Base.{
  ℕ, zero, suc, ◌+◌, Bool, false, not, ◌&&◌, ◌||◌, ◌==◌, ltb, leb, Option, none, some, List, [],
  ◌∷◌, if◌then◌else◌, length, Result, ok, err, proof_validation_error, runtime_error, ◌>>=◌, ◌>>◌,
  raise_if,
}
use spacerocks_coa.Proofs.Models.{max_proof_bytes}
use spacerocks_coa.Proofs.Equality.{bytes_eq}

abbrev pub max_timestamp_nodes : ℕ
max_timestamp_nodes = 256

abbrev pub max_operations : ℕ
max_operations = 255

abbrev pub max_attestations : ℕ
max_attestations = 256

abbrev pub max_pending_attestations : ℕ
max_pending_attestations = 16

abbrev pub max_operation_argument_bytes : ℕ
max_operation_argument_bytes = 64

-- the type of an attestation
pub data Attestation : Type 0 where
  pending_attestation bitcoin_block_header other_attestation : Attestation

-- the type of an operation, with its argument
pub data Operation : Type 0 where
  op_append op_prepend : List ℕ → Operation
  op_sha256 : Operation
  other_operation : ℕ → Operation

mutual
  pub data Timestamp : Type 0 where
    timestamp : List ℕ → List Attestation → Operations → Timestamp

  -- `timestamp.ops.items()`
  pub data Operations : Type 0 where
    no_more : Operations
    leads_to : Operation → Timestamp → Operations → Operations

abbrev pub message : Timestamp → List ℕ
message (timestamp msg attestations ops) = msg

pub record Counts : Type 0 where
  pub nodes : ℕ
  pub operations : ℕ
  pub attestations : ℕ
  pub pending : ℕ

-- the first loop of a node
unfoldable pub count_attestations : List Attestation → Counts → Result Counts
count_attestations [] c = ok c
count_attestations (pending_attestation ∷ rest) c =
    let later =
      count_attestations rest
        (record c { attestations = c.attestations + 1; pending = c.pending + 1 }) in
    if ltb max_attestations (c.attestations + 1)
    then err (proof_validation_error "proof_attestation_limit_exceeded")
    else if ltb max_pending_attestations (c.pending + 1)
    then err (proof_validation_error "proof_pending_attestation_limit_exceeded")
    else later
count_attestations (bitcoin_block_header ∷ rest) c =
    let later = count_attestations rest (record c { attestations = c.attestations + 1 }) in
    if ltb max_attestations (c.attestations + 1)
    then err (proof_validation_error "proof_attestation_limit_exceeded")
    else later
count_attestations (other_attestation ∷ rest) c =
    if ltb max_attestations (c.attestations + 1)
    then err (proof_validation_error "proof_attestation_limit_exceeded")
    else err (proof_validation_error "proof_attestation_type_unsupported")

abbrev pub fits_argument : List ℕ → Bool
fits_argument argument =
    leb 1 (length argument) && leb (length argument) max_operation_argument_bytes

-- the tests of an operation on its type and its argument
abbrev pub check_operation : Operation → Result (Unit {0})
check_operation (op_append argument) =
    raise_if (not (fits_argument argument))
      (proof_validation_error "proof_operation_argument_invalid")
check_operation (op_prepend argument) =
    raise_if (not (fits_argument argument))
      (proof_validation_error "proof_operation_argument_invalid")
check_operation op_sha256 = ok tt
check_operation (other_operation tag) = err (proof_validation_error "proof_operation_unsupported")

-- a file that was read
pub record Detached : Type 0 where
  pub hash_is_sha256 : Bool
  pub file_digest : ℕ
  pub tree : Timestamp

module _ (apply : Operation → List ℕ → List ℕ) where
  -- the second loop of a node, which puts the children on the stack
  unfoldable pub push_children :
      List ℕ → Operations → Counts → List Timestamp → Result (Counts × List Timestamp)
  push_children msg no_more c pending = ok (c, pending)
  push_children msg (leads_to op child rest) c pending =
      let later =
        push_children msg rest (record c { operations = c.operations + 1 }) (child ∷ pending) in
      if ltb max_operations (c.operations + 1)
      then err (proof_validation_error "proof_operation_limit_exceeded")
      else (check_operation op
          >> (raise_if (not (bytes_eq (message child) (apply op msg)))
                (proof_validation_error "proof_operation_result_mismatch")
              >> later))

  -- one turn of `while pending`
  unfoldable pub visit : Timestamp → Counts → List Timestamp → Result (Counts × List Timestamp)
  unfolding count_attestations push_children
  visit (timestamp msg attestations ops) c pending =
      if ltb max_timestamp_nodes (c.nodes + 1)
      then err (proof_validation_error "proof_node_limit_exceeded")
      else count_attestations attestations (record c { nodes = c.nodes + 1 })
        >>= (λ counted. push_children msg ops counted pending)

  -- `while pending`, for at most `turns` turns
  unfoldable pub visit_all : ℕ → List Timestamp → Counts → Result Counts
  visit_all turns [] c = ok c
  visit_all zero (t ∷ pending) c = err (runtime_error "out of turns")
  visit_all (suc turns) (t ∷ pending) c = visit t c pending >>= (λ r. visit_all turns r.1 r.0)

  unfoldable pub validate_timestamp_tree : Timestamp → Result Counts
  unfolding visit_all
  validate_timestamp_tree root =
      visit_all (max_timestamp_nodes + 1) (root ∷ [])
        (record { nodes = 0; operations = 0; attestations = 0; pending = 0 })

  module _ (deserialize : List ℕ → Option Detached) (sha256 : List ℕ → ℕ) where
    abbrev pub checksum_differs : Option ℕ → List ℕ → Bool
    checksum_differs none proof_bytes = false
    checksum_differs (some expected) proof_bytes = not (sha256 proof_bytes == expected)

    -- the tests on the file that was read
    unfoldable pub check_detached : ℕ → Option Detached → Result Counts
    check_detached digest none = err (proof_validation_error "proof_deserialization_failed")
    check_detached digest (some detached) =
        raise_if (not detached.hash_is_sha256)
          (proof_validation_error "proof_hash_operation_mismatch")
        >> (raise_if (not (detached.file_digest == digest))
              (proof_validation_error "proof_target_mismatch")
            >> validate_timestamp_tree detached.tree)

    unfoldable pub deserialize_exact_proof : ℕ → List ℕ → Option ℕ → Result Counts
    unfolding check_detached
    deserialize_exact_proof digest proof_bytes expected_sha256 =
        raise_if (ltb (length proof_bytes) 1 || ltb max_proof_bytes (length proof_bytes))
          (proof_validation_error "proof_size_invalid")
        >> (raise_if (checksum_differs expected_sha256 proof_bytes)
              (proof_validation_error "proof_checksum_mismatch")
            >> check_detached digest (deserialize proof_bytes))

    unfoldable pub validate_exact_proof : ℕ → List ℕ → Option ℕ → Result (Unit {0})
    unfolding deserialize_exact_proof
    validate_exact_proof digest proof_bytes expected_sha256 =
        deserialize_exact_proof digest proof_bytes expected_sha256 >> ok tt
