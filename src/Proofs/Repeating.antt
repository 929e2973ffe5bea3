-- ===== src/Proofs/Repeating.antt =====
-- An `append` that is repeated, as after a crash between its commit and what follows, and the proof
-- that is read after it.
use spacerocks_coa.Base.{
  ℕ, ◌+◌, ◌≡◌, refl, sym, ap, ◌∙◌, subst, Bool, true, ◌&&◌, leb, Option, none, some, List, [], ◌∷◌,
  ◌++◌, arith, length, find, replace, replace-found, order_by, ok, inl, inr, eq_iff, ==_refl,
  find-test, first,
}
use spacerocks_coa.Base.Ordering.{first-order_by-last}
use spacerocks_coa.Db.{Db, Order}
use spacerocks_coa.Db.Evidence.{ProofVersion, VerificationPayload}
use spacerocks_coa.Orders.{has_order_id, find_order}
use spacerocks_coa.Orders.Rows.{DistinctOrders, find-replace_found}
use spacerocks_coa.Proofs.Models.{StoredProof, max_proof_bytes, stored_proof, check_state}
use spacerocks_coa.Proofs.Equality.{proof_eq_refl}
use spacerocks_coa.Proofs.Rows.{
  find_order_by_reference, has_reference, save_calendar_time, latest_version, later_version,
}
use spacerocks_coa.Proofs.Store.{
  add_version, append, append_after, stored_proof_of, separate_verification, shown_verification,
}
use spacerocks_coa.Proofs.Chain.{
  Contiguous-bound, versions, later_version_asym, later_version_chain,
}
use spacerocks_coa.Proofs.Appending.{
  Added, insert_version-Added, written_version, append-Appended, append_after-outcome,
  merge_calendar_time-keeps, merge_calendar_time-given, merge_calendar_time-known,
}
use spacerocks_coa.Proofs.Immutable.{
  IsChain, save_calendar_time-IsChain, found_row, saved_versions, next_version, versions-Added,
}

-- The last version of the proof of an order is this proof.
pub record IsLast (sha256 : List ℕ → ℕ) (proof : StoredProof) (db : Db) : Type 0 where
  pub order : Order
  pub found : find_order_by_reference db proof.order_reference ≡ some order
  pub by_id : find_order db order.id ≡ some order
  pub on_target : order.manifest_digest ≡ proof.target_digest
  pub submitted : order.calendar_submitted_at ≡ some proof.calendar_submitted_at
  pub row : ProofVersion
  pub is_last : latest_version order.id db ≡ some row
  pub same_version : row.version ≡ proof.version
  pub known : stored_proof_of sha256 row order.order_reference none none true ≡ ok proof

-- the size that `append` admits
abbrev pub fits : StoredProof → Bool
fits proof = leb 1 (length proof.proof_bytes) && leb (length proof.proof_bytes) max_proof_bytes

module _ (sha256 : List ℕ → ℕ) (proof : StoredProof) where
  save_known :
      (order : Order) (db : Db)
      → find_order db order.id ≡ some order
      → save_calendar_time order db ≡ db
  unfolding find_order save_calendar_time
  save_known order db e = ground (arith, replace-found (has_order_id order.id) db.orders order e)

  pub append-IsLast :
      (db : Db) (id now : ℕ)
      → fits proof ≡ true
      → IsLast sha256 proof db
      → append sha256 proof id now db ≡ ok db
  unfolding append append_after
  append-IsLast db id now size l = ground (
    arith,
    l.found,
    l.on_target,
    l.is_last,
    l.same_version,
    l.known,
    merge_calendar_time-known l.order proof.calendar_submitted_at l.submitted,
    save_known l.order db l.by_id,
    proof_eq_refl proof,
  )

  -- a proof that was read from its row has the size that `append` admits
  pub append-fits :
      (db db' : Db) (id now : ℕ) → append sha256 proof id now db ≡ ok db' → fits proof ≡ true
  unfolding append
  append-fits db db' id now e = ground arith

  -- the row of a pending proof reads as the proof
  pub written_version-known :
      (id now : ℕ) (order : Order) (metadata : Option VerificationPayload) (count : Option ℕ)
      → proof.verification ≡ none
      → metadata ≡ none
      → order.order_reference ≡ proof.order_reference
      → stored_proof sha256 proof ≡ ok proof
      → stored_proof_of sha256
          (written_version proof id order metadata now)
          order.order_reference
          none
          count
          true
        ≡ ok proof
  unfolding stored_proof_of separate_verification shown_verification stored_proof check_state
  written_version-known id now order metadata count pending no_metadata same valid = ground arith

  pending_version :
      (id now : ℕ) (order : Order) (db db' : Db)
      → proof.verification ≡ none
      → add_version proof id order now db ≡ ok db'
      → Added (written_version proof id order none now) db db'
  unfolding add_version
  pending_version id now order db db' pending e =
      insert_version-Added (written_version proof id order none now) db db'
        (ground (arith, pending))

  module _ (db db' : Db) (order merged : Order) (time : Option ℕ)
      (kept : merged ≡ record order { calendar_submitted_at = time })
      (distinct : DistinctOrders db.orders)
      (found : find_order_by_reference db proof.order_reference ≡ some order)
      (orders : db'.orders ≡ replace (has_order_id merged.id) merged db.orders) where
    saved_reference : find_order_by_reference db' proof.order_reference ≡ some merged
    unfolding find_order_by_reference
    saved_reference = rw orders (
        find-replace_found (has_reference proof.order_reference) db.orders order merged distinct
          found (ground (arith, kept))
          (ground
            (arith, kept, find-test (has_reference proof.order_reference) db.orders order found)))

    saved_row : find_order db' merged.id ≡ some merged
    unfolding find_order
    saved_row =
        let same_id : merged.id ≡ order.id = ground (arith, kept) in
        rw orders (
          find-replace_found (has_order_id merged.id) db.orders order merged distinct
            (subst (λ i. find (has_order_id i) db.orders ≡ some order) (sym same_id)
              (found_row db proof.order_reference order distinct found))
            same_id (==_refl merged.id))

  saved_orders :
      (order : Order) (db : Db)
      → (save_calendar_time order db).orders ≡ replace (has_order_id order.id) order db.orders
  unfolding save_calendar_time
  saved_orders order db = refl

  latest-Added :
      (row : ProofVersion) (db db' : Db)
      → IsChain db
      → Added row db db'
      → row.version ≡ length (versions row.order_id db) + 1
      → latest_version row.order_id db' ≡ some row
  unfolding latest_version later_version
  latest-Added row db db' c a next =
      let all = versions row.order_id db in
      let grown : versions row.order_id db' ≡ all ++ row ∷ [] =
        ground (arith, versions-Added row db db' row.order_id a, ==_refl row.order_id) in
      subst (λ rows. first (order_by later_version rows) ≡ some row) (sym grown)
        (first-order_by-last later_version later_version_asym later_version_chain all row
          (λ x h. ground (arith, Contiguous-bound 0 all x (c.contiguous row.order_id) h)))

  saved_latest :
      (order : Order) (db : Db) (i : ℕ)
      → latest_version i (save_calendar_time order db) ≡ latest_version i db
  unfolding latest_version save_calendar_time
  saved_latest order db i = refl

  found_reference :
      (db : Db) (order : Order)
      → find_order_by_reference db proof.order_reference ≡ some order
      → order.order_reference ≡ proof.order_reference
  unfolding find_order_by_reference
  found_reference db order e =
      (eq_iff order.order_reference proof.order_reference).0
        (find-test (has_reference proof.order_reference) db.orders order e)

  -- After an `append` of a pending proof that succeeds, the proof is the last version of its order.
  pub append-ends :
      (db db' : Db) (id now : ℕ)
      → DistinctOrders db.orders
      → IsChain db
      → proof.verification ≡ none
      → stored_proof sha256 proof ≡ ok proof
      → append sha256 proof id now db ≡ ok db'
      → IsLast sha256 proof db'
  append-ends db db' id now distinct c pending valid e =
      let a = append-Appended sha256 proof id now db db' e in
      let (time, kept) =
        merge_calendar_time-keeps a.order (some proof.calendar_submitted_at) a.merged a.merge in
      let row = found_row db proof.order_reference a.order distinct a.found in
      let same_id : a.merged.id ≡ a.order.id = ground (arith, kept) in
      let saved = save_calendar_time a.merged db in
      let chain = save_calendar_time-IsChain a.order a.merged time db kept row c in
      let target : a.merged.manifest_digest ≡ proof.target_digest =
        ground (arith, kept, a.on_target) in
      let submitted =
        merge_calendar_time-given a.order proof.calendar_submitted_at a.merged a.merge in
      elim (append_after-outcome sha256 proof id now saved db' a.merged
        (latest_version a.order.id db) a.written) [
          | inl r ↦
              let orders : db'.orders ≡ replace (has_order_id a.merged.id) a.merged db.orders =
                subst (λ d. d.orders ≡ replace (has_order_id a.merged.id) a.merged db.orders)
                  r.unchanged (saved_orders a.merged db) in
              record {
                order = a.merged;
                found = saved_reference db db' a.order a.merged time kept distinct a.found orders;
                by_id = saved_row db db' a.order a.merged time kept distinct a.found orders;
                on_target = target;
                submitted = submitted;
                row = r.row;
                is_last =
                    subst (λ d. latest_version a.merged.id d ≡ some r.row) r.unchanged
                      (subst (λ i. latest_version i saved ≡ some r.row) (sym same_id)
                        (saved_latest a.merged db a.order.id ∙ r.is_last));
                same_version = r.same_version;
                known = r.known;
              }
          | inr (added, next) ↦
              let one_more = pending_version id now a.merged saved db' pending added in
              let orders : db'.orders ≡ replace (has_order_id a.merged.id) a.merged db.orders =
                one_more.orders ∙ saved_orders a.merged db in
              record {
                order = a.merged;
                found = saved_reference db db' a.order a.merged time kept distinct a.found orders;
                by_id = saved_row db db' a.order a.merged time kept distinct a.found orders;
                on_target = target;
                submitted = submitted;
                row = written_version proof id a.merged none now;
                is_last =
                    latest-Added (written_version proof id a.merged none now) saved db' chain
                      one_more
                      (subst (λ i. proof.version ≡ length (versions i saved) + 1) (sym same_id)
                        (ground (
                          arith,
                          saved_versions a.merged db a.order.id,
                          next_version a.order.id db proof.version c next,
                        )));
                same_version = refl;
                known =
                    written_version-known id now a.merged none none pending refl
                      (ap (λ (o : Order). o.order_reference) kept
                        ∙ found_reference db a.order a.found)
                      valid;
              }
        ]

  -- An `append` of a pending proof that is repeated, whatever the clock shows and whatever identifier
  -- is drawn, succeeds and changes nothing, if the proof passed the tests of `StoredProof`, no two
  -- orders have one id and the versions of every order were 1, 2, … before the first `append`.
  pub append_again :
      (db db' : Db) (id id' now now' : ℕ)
      → DistinctOrders db.orders
      → IsChain db
      → proof.verification ≡ none
      → stored_proof sha256 proof ≡ ok proof
      → append sha256 proof id now db ≡ ok db'
      → append sha256 proof id' now' db' ≡ ok db'
  append_again db db' id id' now now' distinct c pending valid e =
      append-IsLast db' id' now' (append-fits db db' id now e)
        (append-ends db db' id now distinct c pending valid e)
