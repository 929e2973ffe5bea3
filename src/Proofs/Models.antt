-- ===== src/Proofs/Models.antt =====
-- app/ports/bitcoin.py and app/ports/proof.py: the result of a verification and a stored proof, with
-- the tests of their `__post_init__`, and the tests of db/fulfillment_adapters.py on a verification
-- before it is written. Every time is aware of its zone, and a digest has 32 bytes.
use spacerocks_coa.Base.{
  ℕ, String, Bool, true, false, not, ◌&&◌, ◌||◌, ◌==◌, ltb, leb, Option, none, some, List, [], ◌∷◌,
  if◌then◌else◌, is_some, length, codes, Result, ok, err, value_error, ◌>>=◌, ◌>>◌, raise_if,
  or_raise,
}
use spacerocks_coa.Db.Evidence.{ProofState, calendar_pending, bitcoin_verified}

abbrev pub max_proof_bytes : ℕ
max_proof_bytes = 262144

pub record BitcoinVerification : Type 0 where
  pub verified : Bool
  pub method : String
  pub verified_at : Option ℕ
  pub block_height : Option ℕ
  pub block_hash : Option String
  pub block_time : Option ℕ
  pub confirmation_policy : Option String
  pub confirmations : Option ℕ

-- `n is None or n < 1`
abbrev pub less_than_one : Option ℕ → Bool
less_than_one none = true
less_than_one (some n) = ltb n 1

-- whether every value of `metadata` is given, and whether one is
abbrev pub complete_metadata : BitcoinVerification → Bool
complete_metadata v =
    is_some v.verified_at
    && (is_some v.block_height
        && (is_some v.block_hash && (is_some v.block_time && is_some v.confirmation_policy)))

abbrev pub some_metadata : BitcoinVerification → Bool
some_metadata v =
    is_some v.verified_at
    || (is_some v.block_height
        || (is_some v.block_hash || (is_some v.block_time || is_some v.confirmation_policy)))

-- `BitcoinVerification(...)`. A natural number is no Boolean and not below zero.
unfoldable pub bitcoin_verification : BitcoinVerification → Result BitcoinVerification
bitcoin_verification v =
    raise_if (v.verified && not (complete_metadata v))
      (value_error "verified Bitcoin result requires complete metadata")
    >> (raise_if (not v.verified && some_metadata v)
          (value_error "unverified Bitcoin result cannot carry confirmation metadata")
        >> (raise_if (v.verified && less_than_one v.confirmations)
              (value_error "verified Bitcoin result requires at least one confirmation")
            >> ok v))

pub record StoredProof : Type 0 where
  pub order_reference : String
  pub version : ℕ
  pub target_digest : ℕ
  pub proof_bytes : List ℕ
  pub proof_sha256 : ℕ
  pub proof_state : ProofState
  pub calendar_submitted_at : ℕ
  pub verification : Option BitcoinVerification

-- the characters that `bytes.fromhex` skips
abbrev is_space : ℕ → Bool
is_space c = c == 32 || (leb 9 c && leb c 13)

abbrev is_hex : ℕ → Bool
is_hex c = leb 48 c && leb c 57 || (leb 97 c && leb c 102 || (leb 65 c && leb c 70))

-- `bytes.fromhex(s)` does not raise
unfoldable pub reads_as_hex : List ℕ → Bool
reads_as_hex [] = true
reads_as_hex (c ∷ []) = is_space c
reads_as_hex (c ∷ d ∷ rest) = elim (is_space c) [
  | true ↦ reads_as_hex (d ∷ rest)
  | false ↦ is_hex c && (is_hex d && reads_as_hex rest)
]

-- `s.lower() == s`, for a text that `bytes.fromhex` reads
unfoldable pub has_no_capital : List ℕ → Bool
has_no_capital [] = true
has_no_capital (c ∷ rest) = not (leb 65 c && leb c 90) && has_no_capital rest

unfoldable pub is_block_hash : String → Bool
unfolding reads_as_hex has_no_capital
is_block_hash s =
    let text = codes s in length text == 64 && (has_no_capital text && reads_as_hex text)

-- `block_hash` is given and is one
abbrev pub has_block_hash : Option String → Bool
has_block_hash none = false
has_block_hash (some s) = is_block_hash s

-- `1 <= len(s) <= 128`
abbrev pub fits_128 : String → Bool
fits_128 s = leb 1 (length (codes s)) && leb (length (codes s)) 128

abbrev pub has_policy : Option String → Bool
has_policy none = false
has_policy (some s) = fits_128 s

-- `_validate_verification` of app/ports/proof.py
unfoldable pub validate_verification : BitcoinVerification → Result (Unit {0})
validate_verification v =
    raise_if (not (is_some v.verified_at && is_some v.block_time))
      (value_error "verification_timestamps_must_be_timezone_aware")
    >> (raise_if (not (is_some v.block_height)) (value_error "verification_block_height_invalid")
        >> (raise_if (not (has_block_hash v.block_hash))
              (value_error "verification_block_hash_invalid")
            >> raise_if (not (fits_128 v.method && has_policy v.confirmation_policy))
                (value_error "verification_method_or_policy_invalid")))

-- the branches of `StoredProof.__post_init__` on the state
unfoldable pub check_state : ProofState → Option BitcoinVerification → Result (Unit {0})
unfolding validate_verification
check_state calendar_pending none = ok tt
check_state calendar_pending (some v) = err (value_error "pending_proof_cannot_carry_verification")
check_state bitcoin_verified none =
    err (value_error "verified_proof_requires_complete_verification")
check_state bitcoin_verified (some v) =
    if v.verified
    then validate_verification v
    else err (value_error "verified_proof_requires_complete_verification")

-- `StoredProof(...)`, where `sha256` is the digest of hashlib
unfoldable pub stored_proof : (List ℕ → ℕ) → StoredProof → Result StoredProof
stored_proof sha256 p =
    raise_if (ltb p.version 1) (value_error "proof_version_must_be_positive")
    >> (raise_if (not (leb 1 (length p.proof_bytes) && leb (length p.proof_bytes) max_proof_bytes))
          (value_error "proof_size_invalid")
        >> (raise_if (not (sha256 p.proof_bytes == p.proof_sha256))
              (value_error "proof_checksum_mismatch")
            >> (check_state p.proof_state p.verification >> ok p)))

-- what `_validate_verified` leaves of a verification: each value is given
pub record Verified : Type 0 where
  pub method : String
  pub verified_at : ℕ
  pub block_height : ℕ
  pub block_hash : String
  pub block_time : ℕ
  pub confirmation_policy : String
  pub confirmations : ℕ

-- `_validate_verified`, with the values that the code reads after it
unfoldable pub validate_verified : BitcoinVerification → Result Verified
validate_verified v = do
  _ ← raise_if (not v.verified) (value_error "verification_result_must_be_verified")
  verified_at ← or_raise v.verified_at (value_error "verification_metadata_incomplete")
  block_time ← or_raise v.block_time (value_error "verification_metadata_incomplete")
  block_height ← or_raise v.block_height (value_error "verification_height_invalid")
  block_hash ← or_raise v.block_hash (value_error "verification_block_hash_invalid")
  _ ← raise_if (not (is_block_hash block_hash)) (value_error "verification_block_hash_invalid")
  _ ← raise_if (not (fits_128 v.method)) (value_error "verification_method_or_policy_invalid")
  policy ← or_raise v.confirmation_policy (value_error "verification_method_or_policy_invalid")
  _ ← raise_if (not (fits_128 policy)) (value_error "verification_method_or_policy_invalid")
  confirmations ← or_raise v.confirmations (value_error "verification_confirmation_count_invalid")
  _ ← raise_if (ltb confirmations 1) (value_error "verification_confirmation_count_invalid")
  ok (record {
    method = v.method;
    verified_at = verified_at;
    block_height = block_height;
    block_hash = block_hash;
    block_time = block_time;
    confirmation_policy = policy;
    confirmations = confirmations;
  })
