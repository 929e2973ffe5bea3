-- ===== src/Timestamping/Counting.antt =====
-- What there is to count in the tree of a timestamp, and what its attestations and operations are
-- refused for.
use spacerocks_coa.Base.{
  ℕ, ◌+◌, ◌≤◌, ◌≡◌, sym, ap, subst, String, List, [], ◌∷◌, arith, length, ltb, ok, err, Exn,
  proof_validation_error, Bool-cases, All, inl, inr,
}
use spacerocks_coa.Timestamping.Detached.{
  Attestation, pending_attestation, bitcoin_block_header, other_attestation, Operation, op_append,
  op_prepend, op_sha256, other_operation, Timestamp, timestamp, Operations, no_more, leads_to,
  Counts, count_attestations, check_operation, max_attestations, max_pending_attestations,
}

-- how many attestations of a list wait for a calendar
unfoldable pub pending_in : List Attestation → ℕ
pending_in [] = 0
pending_in (pending_attestation ∷ rest) = 1 + pending_in rest
pending_in (bitcoin_block_header ∷ rest) = pending_in rest
pending_in (other_attestation ∷ rest) = pending_in rest

-- the numbers of nodes, of attestations, and of pending attestations of a tree
unfoldable mutual
  pub tree_nodes : Timestamp → ℕ
  tree_nodes (timestamp msg attestations ops) = 1 + child_nodes ops

  pub child_nodes : Operations → ℕ
  child_nodes no_more = 0
  child_nodes (leads_to op child rest) = tree_nodes child + child_nodes rest

unfoldable mutual
  pub tree_attestations : Timestamp → ℕ
  tree_attestations (timestamp msg attestations ops) = length attestations + child_attestations ops

  pub child_attestations : Operations → ℕ
  child_attestations no_more = 0
  child_attestations (leads_to op child rest) = tree_attestations child + child_attestations rest

unfoldable mutual
  pub tree_pending : Timestamp → ℕ
  tree_pending (timestamp msg attestations ops) = pending_in attestations + child_pending ops

  pub child_pending : Operations → ℕ
  child_pending no_more = 0
  child_pending (leads_to op child rest) = tree_pending child + child_pending rest

-- a measure of the trees on the stack
unfoldable pub total : (Timestamp → ℕ) → List Timestamp → ℕ
total measure [] = 0
total measure (t ∷ ts) = measure t + total measure ts

-- an attestation of a kind that the service knows
abbrev pub IsKnown : Attestation → Type 0
IsKnown pending_attestation = Unit
IsKnown bitcoin_block_header = Unit
IsKnown other_attestation = ⊥

-- the counts are within the limits of the module
pub record IsWithin (c : Counts) : Type 0 where
  pub nodes : c.nodes ≤ 256
  pub operations : c.operations ≤ 255
  pub attestations : c.attestations ≤ 256
  pub pending : c.pending ≤ 16

pub count_attestations-Within :
    (attestations : List Attestation) (c c' : Counts)
    → count_attestations attestations c ≡ ok c'
    → (IsWithin c → IsWithin c')
      × (c'.nodes ≡ c.nodes)
      × (c'.operations ≡ c.operations)
      × (c'.attestations ≡ c.attestations + length attestations)
      × (c'.pending ≡ c.pending + pending_in attestations)
      × All IsKnown attestations
unfolding count_attestations pending_in
count_attestations-Within [] c c' e =
    let same : c ≡ c' = ground arith in
    (
      subst IsWithin same,
      ap (λ (x : Counts). x.nodes) (sym same),
      ap (λ (x : Counts). x.operations) (sym same),
      ground arith,
      ground arith,
      tt,
    )
count_attestations-Within (pending_attestation ∷ rest) c c' e =
    let (within, n, o, a, p, k) =
      count_attestations-Within rest
        (record c { attestations = c.attestations + 1; pending = c.pending + 1 }) c'
        (ground arith) in
    (
      λ w. within (record {
        nodes = w.nodes;
        operations = w.operations;
        attestations = ground arith;
        pending = ground arith;
      }),
      n,
      o,
      ground (arith, a),
      ground (arith, p),
      (tt, k),
    )
count_attestations-Within (bitcoin_block_header ∷ rest) c c' e =
    let (within, n, o, a, p, k) =
      count_attestations-Within rest (record c { attestations = c.attestations + 1 }) c'
        (ground arith) in
    (
      λ w. within (record {
        nodes = w.nodes;
        operations = w.operations;
        attestations = ground arith;
        pending = w.pending;
      }),
      n,
      o,
      ground (arith, a),
      ground (arith, p),
      (tt, k),
    )
count_attestations-Within (other_attestation ∷ rest) c c' e = absurd (ground arith)

-- an exception is a refusal of the proof
abbrev pub IsRefusal : Exn → Type 0
IsRefusal x = (code : String) × (x ≡ proof_validation_error code)

pub count_attestations-IsRefusal :
    (attestations : List Attestation) (c : Counts) (x : Exn)
    → count_attestations attestations c ≡ err x
    → IsRefusal x
unfolding count_attestations
count_attestations-IsRefusal [] c x e = absurd (cc)
count_attestations-IsRefusal (pending_attestation ∷ rest) c x e =
    elim (Bool-cases (ltb max_attestations (c.attestations + 1))) [
      | inl p ↦ ("proof_attestation_limit_exceeded", ground arith)
      | inr p ↦ elim (Bool-cases (ltb max_pending_attestations (c.pending + 1))) [
        | inl q ↦ ("proof_pending_attestation_limit_exceeded", ground arith)
        | inr q ↦
            count_attestations-IsRefusal rest
              (record c { attestations = c.attestations + 1; pending = c.pending + 1 }) x
              (ground arith)
      ]
    ]
count_attestations-IsRefusal (bitcoin_block_header ∷ rest) c x e =
    elim (Bool-cases (ltb max_attestations (c.attestations + 1))) [
      | inl p ↦ ("proof_attestation_limit_exceeded", ground arith)
      | inr p ↦
          count_attestations-IsRefusal rest (record c { attestations = c.attestations + 1 }) x
            (ground arith)
    ]
count_attestations-IsRefusal (other_attestation ∷ rest) c x e =
    elim (Bool-cases (ltb max_attestations (c.attestations + 1))) [
      | inl p ↦ ("proof_attestation_limit_exceeded", ground arith)
      | inr p ↦ ("proof_attestation_type_unsupported", ground arith)
    ]

pub check_operation-IsRefusal :
    (op : Operation) (x : Exn) → check_operation op ≡ err x → IsRefusal x
check_operation-IsRefusal (op_append a) x e = ("proof_operation_argument_invalid", ground arith)
check_operation-IsRefusal (op_prepend a) x e = ("proof_operation_argument_invalid", ground arith)
check_operation-IsRefusal op_sha256 x e = absurd (cc)
check_operation-IsRefusal (other_operation tag) x e = ("proof_operation_unsupported", ground arith)
