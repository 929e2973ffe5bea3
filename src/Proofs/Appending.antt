-- ===== src/Proofs/Appending.antt =====
-- The branches of `append`: what it repeats, and what it adds.
use spacerocks_coa.Base.{
  ℕ, ◌+◌, ◌≡◌, refl, ap, ◌∙◌, true, ◌==◌, Option, none, some, List, [], ◌∷◌, ◌++◌, arith, ok, ◌>>=◌,
  >>=-eq-ok, Result-cases, Option-cases, Bool-cases, inl, inr, ◌⊎◌,
}
use spacerocks_coa.Db.{Db, Order}
use spacerocks_coa.Db.Evidence.{ProofVersion, VerificationPayload}
use spacerocks_coa.Jobs.Frames.{SameJobs}
use spacerocks_coa.Proofs.Models.{StoredProof, BitcoinVerification, validate_verified}
use spacerocks_coa.Proofs.Equality.{proof_eq, proof_eq→≡}
use spacerocks_coa.Proofs.Rows.{
  find_order_by_reference, save_calendar_time, merge_calendar_time, latest_version, insert_version,
  insert_verification_row, find_version, get_version,
}
use spacerocks_coa.Proofs.Store.{
  new_version, add_version, append_after, append, insert_verification, verification_payload,
  stored_proof_of,
}

-- one row more in the table of versions, and in no other table that the jobs use
pub record Added (row : ProofVersion) (db db' : Db) : Type 0 where
  pub versions : db'.proof_versions ≡ db.proof_versions ++ row ∷ []
  pub new_id : get_version db row.id ≡ none
  pub new_version : find_version db row.order_id row.version ≡ none
  pub orders : db'.orders ≡ db.orders
  pub state_events : db'.state_events ≡ db.state_events
  pub observations : db'.confirmation_observations ≡ db.confirmation_observations
  pub same_jobs : SameJobs db db'

pub insert_version-Added :
    (row : ProofVersion) (db db' : Db) → insert_version row db ≡ ok db' → Added row db db'
unfolding insert_version
insert_version-Added row db db' e = record {
  versions = ground arith;
  new_id = ground arith;
  new_version = ground arith;
  orders = ground arith;
  state_events = ground arith;
  observations = ground arith;
  same_jobs = record { jobs = ground arith; attempts = ground arith; dispatches = ground arith };
}

insert_verification-Added :
    (row : ProofVersion) (version : ℕ) (v : BitcoinVerification) (now : ℕ) (db middle db' : Db)
    → Added row db middle
    → insert_verification row.order_id version v now middle ≡ ok db'
    → Added row db db'
unfolding insert_verification insert_verification_row
insert_verification-Added row version v now db middle db' a e =
    elim (Result-cases (validate_verified v)) [
      | inr (x, p) ↦ absurd (ground arith)
      | inl (given, p) ↦ record {
        versions = ground (arith, a.versions);
        new_id = a.new_id;
        new_version = a.new_version;
        orders = ground (arith, a.orders);
        state_events = ground (arith, a.state_events);
        observations = ground (arith, a.observations);
        same_jobs = record {
          jobs = ground (arith, a.same_jobs.jobs);
          attempts = ground (arith, a.same_jobs.attempts);
          dispatches = ground (arith, a.same_jobs.dispatches);
        };
      }
    ]

-- the row that `append` writes for an order, with its metadata
abbrev pub written_version : StoredProof → ℕ → Order → Option VerificationPayload → ℕ → ProofVersion
written_version proof id order metadata now = new_version id order.id proof metadata now

module _ (proof : StoredProof) (id : ℕ) (order : Order) (now : ℕ) (db db' : Db) where
  pub add_version-Added :
      add_version proof id order now db ≡ ok db'
      → (metadata : Option VerificationPayload) × Added
          (written_version proof id order metadata now)
          db
          db'
  unfolding add_version
  add_version-Added e = elim (Option-cases proof.verification) [
    | inl p ↦
        (none, insert_version-Added (written_version proof id order none now) db db' (ground arith))
    | inr (v, p) ↦
        let (payload, q, rest) =
          >>=-eq-ok (verification_payload v)
            (λ payload.
              insert_version (written_version proof id order (some payload) now) db
              >>= insert_verification order.id proof.version v now)
            (ground arith) in
        let row = written_version proof id order (some payload) now in
        let (inserted, i, last) =
          >>=-eq-ok (insert_version row db) (insert_verification order.id proof.version v now)
            rest in
        (
          some payload,
          insert_verification-Added row proof.version v now db inserted db'
              (insert_version-Added row db inserted i) last,
        )
  ]

-- What an `append` that succeeds has found, and what it has written.
pub record Appended (sha256 : List ℕ → ℕ) (proof : StoredProof) (id now : ℕ) (db db' : Db)
    : Type 0 where
  pub order : Order
  pub merged : Order
  pub found : find_order_by_reference db proof.order_reference ≡ some order
  pub on_target : order.manifest_digest ≡ proof.target_digest
  pub merge : merge_calendar_time order (some proof.calendar_submitted_at) ≡ ok merged
  pub written :
      append_after sha256 proof id merged
        (latest_version order.id db)
        now
        (save_calendar_time merged db)
      ≡ ok db'

pub merge_calendar_time-keeps :
    (order : Order) (time : Option ℕ) (merged : Order)
    → merge_calendar_time order time ≡ ok merged
    → (time' : Option ℕ) × (merged ≡ record order { calendar_submitted_at = time' })
unfolding merge_calendar_time
merge_calendar_time-keeps order none merged e = (order.calendar_submitted_at, ground arith)
merge_calendar_time-keeps order (some t) merged e =
    elim (Option-cases order.calendar_submitted_at) [
      | inl p ↦ (some t, ground arith)
      | inr (known, p) ↦ (some known, ground arith)
    ]

module _ (sha256 : List ℕ → ℕ) (proof : StoredProof) (id now : ℕ) (db db' : Db) where
  pub append-Appended : append sha256 proof id now db ≡ ok db' → Appended sha256 proof id now db db'
  unfolding append
  append-Appended e = elim (Option-cases (find_order_by_reference db proof.order_reference)) [
    | inl p ↦ absurd (ground arith)
    | inr (order, p) ↦
        let (merged, merge, written) =
          >>=-eq-ok (merge_calendar_time order (some proof.calendar_submitted_at))
            (λ merged.
              append_after sha256 proof id merged (latest_version order.id db) now
                (save_calendar_time merged db))
            (ground arith) in
        record {
          order = order;
          merged = merged;
          found = p;
          on_target = ground arith;
          merge = merge;
          written = written;
        }
  ]

  -- the last version is the proof that is appended
  pub record Repeated (order : Order) (last : Option ProofVersion) : Type 0 where
    pub row : ProofVersion
    pub is_last : last ≡ some row
    pub same_version : row.version ≡ proof.version
    pub known : stored_proof_of sha256 row order.order_reference none none true ≡ ok proof
    pub unchanged : db ≡ db'

  -- an append to the last version leaves it, or adds the next
  pub append_after-outcome :
      (order : Order) (last : Option ProofVersion)
      → append_after sha256 proof id order last now db ≡ ok db'
      → Repeated order last
        ⊎ ((add_version proof id order now db ≡ ok db')
            × (proof.version ≡ elim last [ none ↦ 1 | some p ↦ p.version + 1 ]))
  unfolding append_after
  append_after-outcome order none e = inr (ground arith)
  append_after-outcome order (some p) e = elim (Bool-cases (proof.version == p.version)) [
    | inr differs ↦ inr (ground arith)
    | inl same ↦
        elim (Result-cases (stored_proof_of sha256 p order.order_reference none none true)) [
          | inr (x, q) ↦ absurd (ground arith)
          | inl (known, q) ↦
              let equal : proof_eq known proof ≡ true = ground arith in
              inl (record {
                row = p;
                is_last = refl;
                same_version = ground arith;
                known = q ∙ ap ok (proof_eq→≡ known proof equal);
                unchanged = ground arith;
              })
        ]
  ]

pub merge_calendar_time-given :
    (order : Order) (time : ℕ) (merged : Order)
    → merge_calendar_time order (some time) ≡ ok merged
    → merged.calendar_submitted_at ≡ some time
unfolding merge_calendar_time
merge_calendar_time-given order t merged e = elim (Option-cases order.calendar_submitted_at) [
  | inl p ↦ ground arith
  | inr (known, p) ↦ ground arith
]

pub merge_calendar_time-known :
    (order : Order) (time : ℕ)
    → order.calendar_submitted_at ≡ some time
    → merge_calendar_time order (some time) ≡ ok order
unfolding merge_calendar_time
merge_calendar_time-known order time e = ground arith
