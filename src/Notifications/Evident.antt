-- ===== src/Notifications/Evident.antt =====
-- About the rows that prove what a mail says.
use spacerocks_coa.Base.{
  ℕ, ◌≤◌, ◌≡◌, ◌⊎◌, true, ◌||◌, some, List, arith, length, Option-cases, inl, inr, eq_iff,
}
use spacerocks_coa.Order.{bitcoin_verified, delivered, fulfillment_eq}
use spacerocks_coa.Db.{Db, Order}
use spacerocks_coa.Db.Evidence.{
  OutboxMessage, OutboxState, ProofVersion, ProofVerification, ProofBundle,
  BitcoinConfirmationObservation,
}
use spacerocks_coa.Orders.{find_order}
use spacerocks_coa.Proofs.Rows.{latest_version, find_verification, find_bundle, latest_observation}
use spacerocks_coa.Notifications.Messages.{
  NotificationKind, notification_kind, minimum_confirmations, message_key_of,
}
use spacerocks_coa.Notifications.Outbox.{same_payload, get_observation}
use spacerocks_coa.Notifications.Delivery.{
  delivery_evidence_matches, rows_match, no_metadata_or_matches, enough_confirmations,
}

-- an observation of a version that was verified, with enough confirmations
pub record IsObserved (o : BitcoinConfirmationObservation) (v : ProofVerification) (least : ℕ)
    : Type 0 where
  pub count : least ≤ o.observed_confirmations
  pub height : o.block_height ≡ v.block_height
  pub block : o.block_hash ≡ v.block_hash
  pub method : o.method ≡ v.method
  pub policy : o.confirmation_policy ≡ v.confirmation_policy

-- the rows that prove a version of an order: its last proof, for its digest, whose bytes and whose
-- bundle have the length and the hash that were recorded, its verification, and the observation of a
-- count together with the current one
pub record HasRows (sha256 : List ℕ → ℕ) (m : OutboxMessage) (order : Order)
    (kind : NotificationKind) (version count : ℕ) (db : Db) : Type 0 where
  pub proof : ProofVersion
  pub is_last : latest_version order.id db ≡ some proof
  pub current_version : proof.version ≡ version
  pub on_target : proof.target_digest ≡ order.manifest_digest
  pub proof_length : proof.proof_byte_length ≡ length proof.proof_bytes
  pub proof_hash : sha256 proof.proof_bytes ≡ proof.proof_sha256
  pub verification : ProofVerification
  pub is_verified : find_verification db order.id version ≡ some verification
  pub same_metadata : no_metadata_or_matches proof.verification_metadata verification ≡ true
  pub bundle : ProofBundle
  pub is_bundled : find_bundle db order.id version ≡ some bundle
  pub bundle_length : bundle.bundle_byte_length ≡ length bundle.bundle_bytes
  pub bundle_hash : sha256 bundle.bundle_bytes ≡ bundle.bundle_sha256
  pub bound : BitcoinConfirmationObservation
  pub is_bound : get_observation db m.confirmation_observation_id ≡ some bound
  pub bound_order : bound.order_id ≡ order.id
  pub bound_version : bound.proof_version ≡ version
  pub bound_count : bound.observed_confirmations ≡ count
  pub bound_enough : IsObserved bound verification (minimum_confirmations kind)
  pub current : BitcoinConfirmationObservation
  pub is_current : latest_observation order.id version db ≡ some current
  pub current_enough : IsObserved current verification (minimum_confirmations kind)

-- what a delivery has found: an order whose proof is verified, a mail that says so to its customer,
-- and the rows that prove it
pub record IsProven (sha256 : List ℕ → ℕ) (m : OutboxMessage) (db : Db) (order : Order)
    : Type 0 where
  pub row : find_order db m.order_id ≡ some order
  pub verified :
      (order.fulfillment_state ≡ bitcoin_verified) ⊎ (order.fulfillment_state ≡ delivered)
  pub kind : NotificationKind
  pub has_kind : notification_kind m.kind ≡ some kind
  pub version : ℕ
  pub has_version : m.proof_version ≡ some version
  pub count : ℕ
  pub has_count : m.confirmation_count ≡ some count
  pub enough : minimum_confirmations kind ≤ count
  pub key : m.message_key ≡ message_key_of kind version order.order_reference
  pub to_customer : m.recipient ≡ order.email
  pub text : same_payload m.payload kind order.order_reference ≡ true
  pub sent : (m.state ≡ OutboxState.accepted) ⊎ (m.state ≡ OutboxState.failed)
  pub rows : HasRows sha256 m order kind version count db

enough_IsObserved :
    (o : BitcoinConfirmationObservation) (v : ProofVerification) (least : ℕ)
    → enough_confirmations o v least ≡ true
    → IsObserved o v least
enough_IsObserved o v least e = record {
  count = ground arith;
  height = ground arith;
  block = (eq_iff o.block_hash v.block_hash).0 (ground arith);
  method = (eq_iff o.method v.method).0 (ground arith);
  policy = (eq_iff o.confirmation_policy v.confirmation_policy).0 (ground arith);
}

rows_match-HasRows :
    (sha256 : List ℕ → ℕ) (m : OutboxMessage) (order : Order) (kind : NotificationKind)
    (version count : ℕ) (db : Db)
    → rows_match sha256 order m kind version count db ≡ true
    → HasRows sha256 m order kind version count db
unfolding rows_match
rows_match-HasRows sha256 m order kind version count db e =
    elim (Option-cases (latest_version order.id db)) [
      | inl p ↦ absurd (ground arith)
      | inr (proof, p) ↦ elim (Option-cases (find_verification db order.id version)) [
        | inl q ↦ absurd (ground arith)
        | inr (v, q) ↦ elim (Option-cases (find_bundle db order.id version)) [
          | inl r ↦ absurd (ground arith)
          | inr (bundle, r) ↦
              elim (Option-cases (get_observation db m.confirmation_observation_id)) [
                | inl s ↦ absurd (ground arith)
                | inr (bound, s) ↦ elim (Option-cases (latest_observation order.id version db)) [
                  | inl t ↦ absurd (ground arith)
                  | inr (current, t) ↦ record {
                    proof = proof;
                    is_last = p;
                    current_version = ground arith;
                    on_target = ground arith;
                    proof_length = ground arith;
                    proof_hash = ground arith;
                    verification = v;
                    is_verified = q;
                    same_metadata = ground arith;
                    bundle = bundle;
                    is_bundled = r;
                    bundle_length = ground arith;
                    bundle_hash = ground arith;
                    bound = bound;
                    is_bound = s;
                    bound_order = ground arith;
                    bound_version = ground arith;
                    bound_count = ground arith;
                    bound_enough =
                        enough_IsObserved bound v (minimum_confirmations kind) (ground arith);
                    current = current;
                    is_current = t;
                    current_enough =
                        enough_IsObserved current v (minimum_confirmations kind) (ground arith);
                  }
                ]
              ]
        ]
      ]
    ]

pub evidence-IsProven :
    (sha256 : List ℕ → ℕ) (m : OutboxMessage) (db : Db) (order : Order)
    → find_order db m.order_id ≡ some order
    → (fulfillment_eq order.fulfillment_state bitcoin_verified
        || fulfillment_eq order.fulfillment_state delivered)
      ≡ true
    → delivery_evidence_matches sha256 order m db ≡ true
    → IsProven sha256 m db order
unfolding delivery_evidence_matches
evidence-IsProven sha256 m db order row state e = elim (Option-cases m.proof_version) [
  | inl p ↦ absurd (ground arith)
  | inr (version, p) ↦ elim (Option-cases m.confirmation_count) [
    | inl q ↦ absurd (ground arith)
    | inr (count, q) ↦ elim (Option-cases (notification_kind m.kind)) [
      | inl r ↦ absurd (ground arith)
      | inr (kind, r) ↦ record {
        row = row;
        verified = ground arith;
        kind = kind;
        has_kind = r;
        version = version;
        has_version = p;
        count = count;
        has_count = q;
        enough = ground arith;
        key =
            (eq_iff m.message_key (message_key_of kind version order.order_reference)).0
              (ground arith);
        to_customer = (eq_iff m.recipient order.email).0 (ground arith);
        text = ground arith;
        sent = ground arith;
        rows = rows_match-HasRows sha256 m order kind version count db (ground arith);
      }
    ]
  ]
]
