-- ===== src/Proofs/Evidence.antt =====
-- `SqlVerificationRepository` and `SqlBundleRepository` of app/db/fulfillment_adapters.py: the
-- verification and the bundle of a version of a proof, once for each. An email is a text of ASCII
-- characters.
use spacerocks_coa.Base.{
  ℕ, Bool, not, ◌&&◌, ◌||◌, ◌==◌, leb, Option, none, some, List, if◌then◌else◌, map, length, codes,
  contains_text, lower_ascii, str_eq, Result, ok, err, value_error, ◌>>=◌, raise_if, or_raise,
}
use spacerocks_coa.Db.{Db, Order}
use spacerocks_coa.Db.Evidence.{ProofVerification, ProofBundle, BitcoinConfirmationObservation}
use spacerocks_coa.Orders.{find_order}
use spacerocks_coa.Proofs.Models.{BitcoinVerification, Verified, validate_verified}
use spacerocks_coa.Proofs.Equality.{bytes_eq}
use spacerocks_coa.Proofs.Rows.{
  find_version, find_verification, latest_observation, find_bundle, insert_bundle,
}
use spacerocks_coa.Proofs.Store.{insert_verification, verification_of}

-- `_stored_verification_matches`, and `_verification_matches_result`
abbrev pub stored_verification_matches : ProofVerification → Verified → Bool
stored_verification_matches stored result =
    str_eq stored.method result.method
    && (stored.block_height == result.block_height
        && (str_eq stored.block_hash result.block_hash
            && (stored.block_time == result.block_time
                && str_eq stored.confirmation_policy result.confirmation_policy)))

unfoldable pub put_verified_once : ℕ → ℕ → BitcoinVerification → ℕ → Db → Result Db
put_verified_once order_id version result now db = do
  given ← validate_verified result
  order ← or_raise (find_order db order_id) (value_error "verification_order_not_found")
  proof ← or_raise (find_version db order_id version) (value_error "verification_proof_not_found")
  _ ←
      raise_if (not (proof.target_digest == order.manifest_digest))
        (value_error "verification_proof_target_conflict")
  elim (find_verification db order_id version) [
    | none ↦ insert_verification order_id version result now db
    | some existing ↦
        if stored_verification_matches existing given
        then ok db
        else err (value_error "verification_conflict")
  ]

-- `_observation_matches_verification`
abbrev pub observation_matches_verification :
    BitcoinConfirmationObservation → ProofVerification → Bool
observation_matches_verification o v =
    o.block_height == v.block_height
    && (str_eq o.block_hash v.block_hash
        && (str_eq o.method v.method && str_eq o.confirmation_policy v.confirmation_policy))

unfoldable pub get_verified : ℕ → ℕ → Db → Result (Option BitcoinVerification)
get_verified order_id version db = elim (find_verification db order_id version) [
  | none ↦ ok none
  | some value ↦ do
    observation ←
        or_raise (latest_observation order_id version db)
          (value_error "verification_confirmation_observation_missing")
    _ ←
        raise_if (not (observation_matches_verification observation value))
          (value_error "verification_confirmation_observation_mismatch")
    v ← verification_of value observation.observed_confirmations
    ok (some v)
]

-- 12 * 1024 * 1024
abbrev pub max_bundle_bytes : ℕ
max_bundle_bytes = 12582912

abbrev pub is_sensitive : Order → List ℕ → Bool
is_sensitive order bundle =
    let lowered = map lower_ascii bundle in
    contains_text (map lower_ascii (codes order.email)) lowered
    || (contains_text (codes "status_token") lowered
        || contains_text (codes "authorization: bearer") lowered)

module _ (sha256 : List ℕ → ℕ) where
  abbrev pub new_bundle : ℕ → ℕ → List ℕ → ℕ → ProofBundle
  new_bundle order_id version bundle now = record {
    order_id = order_id;
    proof_version = version;
    bundle_bytes = bundle;
    bundle_sha256 = sha256 bundle;
    bundle_byte_length = length bundle;
    created_at = now;
  }

  abbrev pub same_bundle : ProofBundle → List ℕ → Bool
  same_bundle existing bundle =
      existing.bundle_byte_length == length bundle
      && (existing.bundle_sha256 == sha256 bundle && bytes_eq existing.bundle_bytes bundle)

  -- `SqlBundleRepository.put_once`
  unfoldable pub put_once : ℕ → ℕ → List ℕ → ℕ → Db → Result Db
  put_once order_id version bundle now db = do
    _ ←
        raise_if (not (leb 1 (length bundle) && leb (length bundle) max_bundle_bytes))
          (value_error "bundle_size_invalid")
    order ← or_raise (find_order db order_id) (value_error "bundle_order_not_found")
    _ ← raise_if (is_sensitive order bundle) (value_error "bundle_contains_sensitive_data")
    proof ← or_raise (find_version db order_id version) (value_error "bundle_proof_not_found")
    _ ←
        raise_if (not (proof.target_digest == order.manifest_digest))
          (value_error "bundle_proof_target_conflict")
    elim (find_bundle db order_id version) [
      | none ↦ insert_bundle (new_bundle order_id version bundle now) db
      | some existing ↦
          if same_bundle existing bundle then ok db else err (value_error "bundle_conflict")
    ]

  -- `SqlBundleRepository.get`
  unfoldable pub get_bundle : ℕ → ℕ → Db → Result (Option (List ℕ))
  get_bundle order_id version db = elim (find_bundle db order_id version) [
    | none ↦ ok none
    | some b ↦
        if not (b.bundle_byte_length == length b.bundle_bytes)
          || not (sha256 b.bundle_bytes == b.bundle_sha256)
        then err (value_error "stored_bundle_invalid")
        else ok (some b.bundle_bytes)
  ]
