-- ===== src/Proofs/Observations.antt =====
-- `SqlBitcoinConfirmationObservations` of app/db/notification_adapters.py: how many confirmations a
-- verified version of a proof has been seen with.
use spacerocks_coa.Base.{
  ℕ, String, Bool, true, false, not, ◌&&◌, ◌||◌, ◌==◌, ltb, leb, Option, none, some, List, [], ◌∷◌,
  ◌++◌, if◌then◌else◌, find, length, codes, str_eq, Result, ok, err, value_error, ◌>>=◌, raise_if,
  or_raise,
}
use spacerocks_coa.Db.{Db, Order}
use spacerocks_coa.Db.Evidence.{ProofVersion, ProofVerification, BitcoinConfirmationObservation}
use spacerocks_coa.Orders.{find_order}
use spacerocks_coa.Proofs.Models.{BitcoinVerification, Verified}
use spacerocks_coa.Proofs.Rows.{find_verification, latest_version, latest_observation}
use spacerocks_coa.Proofs.Evidence.{stored_verification_matches}

-- app/ports/notifications.py
pub record ConfirmationObservation : Type 0 where
  pub id : ℕ
  pub order_id : ℕ
  pub proof_version : ℕ
  pub confirmations : ℕ
  pub block_height : ℕ
  pub block_hash : String
  pub method : String
  pub confirmation_policy : String
  pub observed_at : ℕ
  pub event_key : String

-- `_project_observation`
abbrev pub project_observation : BitcoinConfirmationObservation → ConfirmationObservation
project_observation value = record {
  id = value.id;
  order_id = value.order_id;
  proof_version = value.proof_version;
  confirmations = value.observed_confirmations;
  block_height = value.block_height;
  block_hash = value.block_hash;
  method = value.method;
  confirmation_policy = value.confirmation_policy;
  observed_at = value.observed_at;
  event_key = value.event_key;
}

-- a character of `_SAFE_EVENT_KEY`
abbrev is_key_char : ℕ → Bool
is_key_char c =
    leb 65 c && leb c 90
    || (leb 97 c && leb c 122 || (leb 48 c && leb c 58 || (c == 95 || c == 45)))

unfoldable pub all_key_chars : List ℕ → Bool
all_key_chars [] = true
all_key_chars (c ∷ rest) = is_key_char c && all_key_chars rest

abbrev pub is_safe_event_key : String → Bool
is_safe_event_key key =
    leb 1 (length (codes key)) && (leb (length (codes key)) 160 && all_key_chars (codes key))

-- `_validate_observation_input`, with the values that the code reads after it
unfoldable pub validate_observation_input : ℕ → String → BitcoinVerification → Result Verified
validate_observation_input version event_key v = do
  _ ←
      raise_if (ltb version 1 || not (is_safe_event_key event_key))
        (value_error "confirmation_observation_identity_invalid")
  _ ← raise_if (not v.verified) (value_error "confirmation_observation_verification_invalid")
  confirmations ←
      or_raise v.confirmations (value_error "confirmation_observation_verification_invalid")
  _ ← raise_if (ltb confirmations 1) (value_error "confirmation_observation_verification_invalid")
  verified_at ← or_raise v.verified_at (value_error "confirmation_observation_verification_invalid")
  height ← or_raise v.block_height (value_error "confirmation_observation_verification_invalid")
  hash ← or_raise v.block_hash (value_error "confirmation_observation_verification_invalid")
  block_time ← or_raise v.block_time (value_error "confirmation_observation_verification_invalid")
  policy ←
      or_raise v.confirmation_policy (value_error "confirmation_observation_verification_invalid")
  ok (record {
    method = v.method;
    verified_at = verified_at;
    block_height = height;
    block_hash = hash;
    block_time = block_time;
    confirmation_policy = policy;
    confirmations = confirmations;
  })

-- `_observation_matches_result`
abbrev pub observation_matches_result : BitcoinConfirmationObservation → ℕ → Verified → Bool
observation_matches_result o version result =
    o.proof_version == version
    && (o.observed_confirmations == result.confirmations
        && (o.block_height == result.block_height
            && (str_eq o.block_hash result.block_hash
                && (str_eq o.method result.method
                    && (str_eq o.confirmation_policy result.confirmation_policy
                        && o.observed_at == result.verified_at)))))

abbrev pub has_observation_key : ℕ → String → BitcoinConfirmationObservation → Bool
has_observation_key order_id key o = o.order_id == order_id && str_eq o.event_key key

unfoldable pub find_observation : Db → ℕ → String → Option BitcoinConfirmationObservation
find_observation db order_id key =
    find (has_observation_key order_id key) db.confirmation_observations

abbrev pub new_observation : ℕ → ℕ → ℕ → String → Verified → ℕ → BitcoinConfirmationObservation
new_observation id order_id version event_key v now = record {
  id = id;
  order_id = order_id;
  proof_version = version;
  observed_confirmations = v.confirmations;
  block_height = v.block_height;
  block_hash = v.block_hash;
  method = v.method;
  confirmation_policy = v.confirmation_policy;
  observed_at = v.verified_at;
  event_key = event_key;
  created_at = now;
}

-- the rest of `record_once`, where the proof and the verification are current
unfoldable pub record_observation :
    ℕ → ℕ → String → Verified → ℕ → ℕ → Db → Result (ConfirmationObservation × Db)
record_observation order_id version event_key given id now db =
    elim (find_observation db order_id event_key) [
      | some existing ↦
          if observation_matches_result existing version given
          then ok (project_observation existing, db)
          else err (value_error "confirmation_observation_event_conflict")
      | none ↦
          let row = new_observation id order_id version event_key given now in
          ok (
            project_observation row,
            record db { confirmation_observations = db.confirmation_observations ++ row ∷ [] },
          )
    ]

-- the last version is the one that is observed, for the digest of the order
abbrev pub is_current : Option ProofVersion → ℕ → Order → Bool
is_current none version order = false
is_current (some proof) version order =
    proof.version == version && proof.target_digest == order.manifest_digest

abbrev pub is_verified_as : Option ProofVerification → Verified → Bool
is_verified_as none given = false
is_verified_as (some stored) given = stored_verification_matches stored given

unfoldable pub record_once :
    ℕ → ℕ → String → BitcoinVerification → ℕ → ℕ → Db → Result (ConfirmationObservation × Db)
record_once order_id version event_key verification id now db = do
  given ← validate_observation_input version event_key verification
  order ← or_raise (find_order db order_id) (value_error "confirmation_observation_order_not_found")
  _ ←
      raise_if (not (is_current (latest_version order_id db) version order))
        (value_error "confirmation_observation_proof_not_current")
  _ ←
      raise_if (not (is_verified_as (find_verification db order_id version) given))
        (value_error "confirmation_observation_verification_mismatch")
  record_observation order_id version event_key given id now db

-- `SqlBitcoinConfirmationObservations.latest`
unfoldable pub latest_confirmation : ℕ → ℕ → Db → Option ConfirmationObservation
latest_confirmation order_id version db = elim (latest_observation order_id version db) [
  | none ↦ none
  | some o ↦ some (project_observation o)
]
