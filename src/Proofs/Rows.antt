-- ===== src/Proofs/Rows.antt =====
-- The rows of proofs and of their evidence: the queries of app/db/fulfillment_adapters.py and of
-- app/db/notification_adapters.py, with the constraints of app/db/models.py in what inserts. The
-- check constraints on lengths and on the text of a hash are tests that the code makes before.
use spacerocks_coa.Base.{
  ℕ, String, Bool, not, ◌&&◌, ◌||◌, ◌==◌, ltb, Option, none, some, [], ◌∷◌, ◌++◌, if◌then◌else◌,
  is_some, find, replace, select, order_by, first, str_eq, Result, ok, err, value_error,
  integrity_error,
}
use spacerocks_coa.Db.{Db, Order}
use spacerocks_coa.Db.Evidence.{
  ProofState, calendar_pending, bitcoin_verified, ProofVersion, ProofVerification, ProofBundle,
  BitcoinConfirmationObservation, VerificationPayload,
}
use spacerocks_coa.Orders.{has_order_id}

abbrev pub has_reference : String → Order → Bool
has_reference reference o = str_eq o.order_reference reference

-- `select(Order).where(Order.order_reference == reference)`
unfoldable pub find_order_by_reference : Db → String → Option Order
find_order_by_reference db reference = find (has_reference reference) db.orders

-- writes the calendar time of an order that was read: no constraint is on it
unfoldable pub save_calendar_time : Order → Db → Db
save_calendar_time o db = record db { orders = replace (has_order_id o.id) o db.orders }

-- `_merge_calendar_time`
unfoldable pub merge_calendar_time : Order → Option ℕ → Result Order
merge_calendar_time order none = ok order
merge_calendar_time order (some supplied) = elim order.calendar_submitted_at [
  | none ↦ ok (record order { calendar_submitted_at = some supplied })
  | some known ↦
      if known == supplied then ok order else err (value_error "calendar_submission_time_conflict")
]

abbrev pub of_order : ℕ → ProofVersion → Bool
of_order order_id p = p.order_id == order_id

abbrev pub is_version : ℕ → ℕ → ProofVersion → Bool
is_version order_id version p = p.order_id == order_id && p.version == version

-- `order_by(ProofVersion.version.desc())`
unfoldable pub later_version : ProofVersion → ProofVersion → Bool
later_version a b = ltb b.version a.version

-- `latest_query`
unfoldable pub latest_version : ℕ → Db → Option ProofVersion
unfolding later_version
latest_version order_id db =
    first (order_by later_version (select (of_order order_id) db.proof_versions))

unfoldable pub find_version : Db → ℕ → ℕ → Option ProofVersion
find_version db order_id version = find (is_version order_id version) db.proof_versions

-- `session.get(ProofVersion, id)`
unfoldable pub get_version : Db → ℕ → Option ProofVersion
get_version db id = find (λ p. p.id == id) db.proof_versions

-- ck_proof_state_metadata
abbrev pub state_has_metadata : ProofState → Option VerificationPayload → Bool
state_has_metadata calendar_pending m = not (is_some m)
state_has_metadata bitcoin_verified m = is_some m

-- primary key, uq_proof_order_version and the check constraints
unfoldable pub insert_version : ProofVersion → Db → Result Db
insert_version p db =
    if is_some (get_version db p.id)
      || (is_some (find_version db p.order_id p.version)
          || not (ltb 0 p.version && state_has_metadata p.proof_state p.verification_metadata))
    then err integrity_error
    else ok (record db { proof_versions = db.proof_versions ++ p ∷ [] })

abbrev pub verifies : ℕ → ℕ → ProofVerification → Bool
verifies order_id version v = v.order_id == order_id && v.proof_version == version

unfoldable pub find_verification : Db → ℕ → ℕ → Option ProofVerification
find_verification db order_id version = find (verifies order_id version) db.proof_verifications

-- uq_proof_verification_order_version and fk_proof_verification_proof_version
unfoldable pub insert_verification_row : ProofVerification → Db → Result Db
insert_verification_row v db =
    if is_some (find_verification db v.order_id v.proof_version)
      || not (is_some (find_version db v.order_id v.proof_version))
    then err integrity_error
    else ok (record db { proof_verifications = db.proof_verifications ++ v ∷ [] })

abbrev pub observes : ℕ → ℕ → BitcoinConfirmationObservation → Bool
observes order_id version o = o.order_id == order_id && o.proof_version == version

-- `order_by(observed_at.desc(), created_at.desc(), id.desc())`
unfoldable pub later_observation :
    BitcoinConfirmationObservation → BitcoinConfirmationObservation → Bool
later_observation a b =
    ltb b.observed_at a.observed_at
    || (a.observed_at == b.observed_at
        && (ltb b.created_at a.created_at || (a.created_at == b.created_at && ltb b.id a.id)))

-- `_latest_observation_query`
unfoldable pub latest_observation : ℕ → ℕ → Db → Option BitcoinConfirmationObservation
unfolding later_observation
latest_observation order_id version db =
    first
      (order_by later_observation (select (observes order_id version) db.confirmation_observations))

abbrev pub bundles : ℕ → ℕ → ProofBundle → Bool
bundles order_id version b = b.order_id == order_id && b.proof_version == version

unfoldable pub find_bundle : Db → ℕ → ℕ → Option ProofBundle
find_bundle db order_id version = find (bundles order_id version) db.proof_bundles

-- uq_proof_bundle_order_version and fk_proof_bundle_proof_version
unfoldable pub insert_bundle : ProofBundle → Db → Result Db
insert_bundle b db =
    if is_some (find_bundle db b.order_id b.proof_version)
      || not (is_some (find_version db b.order_id b.proof_version))
    then err integrity_error
    else ok (record db { proof_bundles = db.proof_bundles ++ b ∷ [] })
