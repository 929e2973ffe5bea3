-- ===== src/Proofs/Immutable.antt =====
-- About `append` and the versions of every order.
use spacerocks_coa.Base.{
  ℕ, ◌+◌, ◌≡◌, refl, sym, subst, String, ◌==◌, Option, none, some, List, [], ◌∷◌, ◌++◌, append-nil,
  arith, length, select, select-append, ok, All, All-append, Option-cases, Bool-cases, inl, inr,
  if◌then◌else◌,
}
use spacerocks_coa.Db.{Db, Order}
use spacerocks_coa.Db.Evidence.{ProofVersion}
use spacerocks_coa.Orders.{find_order}
use spacerocks_coa.Orders.Rows.{DistinctOrders, find_order-replace, found_by_id}
use spacerocks_coa.Proofs.Models.{StoredProof}
use spacerocks_coa.Proofs.Rows.{
  find_order_by_reference, has_reference, save_calendar_time, of_order, latest_version,
}
use spacerocks_coa.Proofs.Store.{append}
use spacerocks_coa.Proofs.Chain.{
  Contiguous, Contiguous-snoc, versions, latest_version-some, latest_version-none,
}
use spacerocks_coa.Proofs.Appending.{
  Added, written_version, add_version-Added, append-Appended, append_after-outcome,
  merge_calendar_time-keeps,
}

-- The versions of an order are 1, 2, … in the order of their insertion, and every one of them is a
-- proof of the digest of the order.
pub record IsChain (db : Db) : Type 0 where
  pub contiguous : (order_id : ℕ) → Contiguous 0 (versions order_id db)
  pub on_target :
      (order_id : ℕ) (o : Order)
      → find_order db order_id ≡ some o
      → All (λ (p : ProofVersion). p.target_digest ≡ o.manifest_digest) (versions order_id db)

-- the versions of an order after one is added
pub versions-Added :
    (row : ProofVersion) (db db' : Db) (i : ℕ)
    → Added row db db'
    → versions i db' ≡ (if row.order_id == i then versions i db ++ row ∷ [] else versions i db)
unfolding select
versions-Added row db db' i a = ground (
  arith,
  a.versions,
  select-append (of_order i) db.proof_versions (row ∷ []),
  append-nil (versions i db),
)

module _ (order merged : Order) (time : Option ℕ) (db : Db)
    (same : merged ≡ record order { calendar_submitted_at = time })
    (row : find_order db order.id ≡ some order) where
  -- the calendar time leaves the digests of orders
  pub saved_digest :
      (i : ℕ) (o : Order)
      → find_order (save_calendar_time merged db) i ≡ some o
      → (before : Order) × (find_order db i ≡ some before)
        × (o.manifest_digest ≡ before.manifest_digest)
  unfolding find_order save_calendar_time
  saved_digest i o e = elim (Option-cases (find_order db i)) [
    | inl p ↦ absurd (ground (arith, find_order-replace merged i db.orders))
    | inr (before, p) ↦ (before, p, ground (arith, find_order-replace merged i db.orders))
  ]

  pub save_calendar_time-IsChain : IsChain db → IsChain (save_calendar_time merged db)
  unfolding save_calendar_time
  save_calendar_time-IsChain c = record {
    contiguous = c.contiguous;
    on_target = λ i o e.
        let (before, p, d) = saved_digest i o e in
        subst (λ digest. All (λ (v : ProofVersion). v.target_digest ≡ digest) (versions i db))
          (sym d) (c.on_target i before p);
  }

pub saved_versions :
    (o : Order) (db : Db) (i : ℕ) → versions i (save_calendar_time o db) ≡ versions i db
unfolding save_calendar_time
saved_versions o db i = refl

-- one more version, the next one, for the digest of its order
add_version-IsChain :
    (row : ProofVersion) (db db' : Db)
    → Added row db db'
    → row.version ≡ length (versions row.order_id db) + 1
    → ((o : Order) → find_order db row.order_id ≡ some o → row.target_digest ≡ o.manifest_digest)
    → IsChain db
    → IsChain db'
unfolding find_order
add_version-IsChain row db db' a next target c = record {
  contiguous = λ i. elim (Bool-cases (row.order_id == i)) [
    | inr p ↦
        subst (Contiguous 0) (sym (ground (arith, versions-Added row db db' i a))) (c.contiguous i)
    | inl p ↦
        let same : row.order_id ≡ i = ground arith in
        let next_at = subst (λ k. row.version ≡ length (versions k db) + 1) same next in
        subst (Contiguous 0) {x = versions i db ++ row ∷ []}
          (ground (arith, versions-Added row db db' i a))
          (Contiguous-snoc 0 (versions i db) row (c.contiguous i) (omega (arith, next_at)))
  ];
  on_target = λ i o e.
      let before : find_order db i ≡ some o = ground (arith, a.orders) in
      elim (Bool-cases (row.order_id == i)) [
        | inr p ↦
            subst (All (λ (v : ProofVersion). v.target_digest ≡ o.manifest_digest))
              {x = versions i db} (ground (arith, versions-Added row db db' i a))
              (c.on_target i o before)
        | inl p ↦
            let same : row.order_id ≡ i = ground arith in
            subst (All (λ (v : ProofVersion). v.target_digest ≡ o.manifest_digest))
              {x = versions i db ++ row ∷ []} (ground (arith, versions-Added row db db' i a))
              (All-append (λ (v : ProofVersion). v.target_digest ≡ o.manifest_digest)
                (versions i db) (row ∷ []) (c.on_target i o before)
                (target o (subst (λ k. find_order db k ≡ some o) (sym same) before), tt))
      ];
}

pub found_row :
    (db : Db) (reference : String) (order : Order)
    → DistinctOrders db.orders
    → find_order_by_reference db reference ≡ some order
    → find_order db order.id ≡ some order
unfolding find_order_by_reference find_order
found_row db reference order d e = found_by_id (has_reference reference) db.orders order d e

pub next_version :
    (order_id : ℕ) (db : Db) (version : ℕ)
    → IsChain db
    → version ≡ elim (latest_version order_id db) [ none ↦ 1 | some p ↦ p.version + 1 ]
    → version ≡ length (versions order_id db) + 1
next_version order_id db version c e = elim (Option-cases (latest_version order_id db)) [
  | inl p ↦ ground (arith, latest_version-none order_id db (c.contiguous order_id) p)
  | inr (l, p) ↦ ground (arith, latest_version-some order_id db (c.contiguous order_id) l p)
]

-- An `append` that succeeds keeps the versions of every order 1, 2, … without a gap, and every
-- version a proof of the digest of its order, if no two orders have one id.
pub append-IsChain :
    (sha256 : List ℕ → ℕ) (proof : StoredProof) (id now : ℕ) (db db' : Db)
    → DistinctOrders db.orders
    → IsChain db
    → append sha256 proof id now db ≡ ok db'
    → IsChain db'
append-IsChain sha256 proof id now db db' distinct c e =
    let a = append-Appended sha256 proof id now db db' e in
    let (time, kept) =
      merge_calendar_time-keeps a.order (some proof.calendar_submitted_at) a.merged a.merge in
    let row : find_order db a.order.id ≡ some a.order =
      found_row db (proof.order_reference) a.order distinct a.found in
    let same_id : a.merged.id ≡ a.order.id = ground (arith, kept) in
    let saved = save_calendar_time a.merged db in
    let chain = save_calendar_time-IsChain a.order a.merged time db kept row c in
    elim (append_after-outcome sha256 proof id now saved db' a.merged (latest_version a.order.id db)
      a.written) [
        | inl same ↦ subst IsChain same.unchanged chain
        | inr (added, next) ↦
            let (metadata, one_more) = add_version-Added proof id a.merged now saved db' added in
            add_version-IsChain (written_version proof id a.merged metadata now) saved db' one_more
              (subst (λ i. proof.version ≡ length (versions i saved) + 1) (sym same_id)
                (ground (
                  arith,
                  saved_versions a.merged db a.order.id,
                  next_version a.order.id db proof.version c next,
                )))
              (λ o p.
                let (before, q, d) =
                  saved_digest a.order a.merged time db kept row a.merged.id o p in
                ground (arith, kept, row, a.on_target))
              chain
      ]
