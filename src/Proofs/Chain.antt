-- ===== src/Proofs/Chain.antt =====
-- The versions of the proof of one order as a list, and which databases keep them contiguous.
use spacerocks_coa.Base.{
  ℕ, ◌+◌, ◌≤◌, ◌<◌, ◌≡◌, refl, true, false, none, some, List, [], ◌∷◌, ◌++◌, arith, length, select,
  order_by, inl, inr, ◌⊎◌,
}
use spacerocks_coa.Base.Ordering.{
  IsRow, IsRow-order_by, IsRow-first, first-none, order_by-IsRow, first-order_by,
}
use spacerocks_coa.Db.{Db}
use spacerocks_coa.Db.Evidence.{ProofVersion}
use spacerocks_coa.Proofs.Rows.{latest_version, later_version, of_order}

pub later_version_asym : (a b : ProofVersion) → later_version a b ≡ true → later_version b a ≡ false
unfolding later_version
later_version_asym a b h = ground arith

pub later_version_chain :
    (a b c : ProofVersion)
    → later_version b a ≡ false
    → later_version c b ≡ false
    → later_version c a ≡ false
unfolding later_version
later_version_chain a b c h k = ground arith

-- the versions of the rows are n + 1, n + 2, …
abbrev pub Contiguous : ℕ → List ProofVersion → Type 0
Contiguous n [] = Unit
Contiguous n (x ∷ xs) = (x.version ≡ n + 1) × Contiguous (n + 1) xs

pub Contiguous-bound :
    (n : ℕ) (xs : List ProofVersion) (p : ProofVersion)
    → Contiguous n xs
    → IsRow p xs
    → (n < p.version) × (p.version ≤ n + length xs)
Contiguous-bound n [] p c h = absurd h
Contiguous-bound n (x ∷ xs) p c (inl e) = ground arith
Contiguous-bound n (x ∷ xs) p c (inr h) = ground (arith, Contiguous-bound (n + 1) xs p c.1 h)

pub Contiguous-snoc :
    (n : ℕ) (xs : List ProofVersion) (p : ProofVersion)
    → Contiguous n xs
    → p.version ≡ n + length xs + 1
    → Contiguous n (xs ++ p ∷ [])
Contiguous-snoc n [] p c e = ground arith
Contiguous-snoc n (x ∷ xs) p c e = ground (arith, Contiguous-snoc (n + 1) xs p c.1)

-- the last row has the last version
last-IsRow :
    (n : ℕ) (x : ProofVersion) (xs : List ProofVersion)
    → Contiguous n (x ∷ xs)
    → (p : ProofVersion) × IsRow p (x ∷ xs) × (p.version ≡ n + 1 + length xs)
last-IsRow n x [] c = (x, inl refl, ground arith)
last-IsRow n x (y ∷ ys) c =
    let (p, row, e) = last-IsRow (n + 1) y ys c.1 in (p, inr row, ground arith)

empty_or_IsRow : (xs : List ProofVersion) → (xs ≡ []) ⊎ ((p : ProofVersion) × IsRow p xs)
empty_or_IsRow [] = inl refl
empty_or_IsRow (x ∷ xs) = inr (x, inl refl)

-- a row that no row comes after has the last version
greatest :
    (xs : List ProofVersion)
    → Contiguous 0 xs
    → (p : ProofVersion) → IsRow p xs
    → ((q : ProofVersion) → IsRow q xs → later_version q p ≡ false)
    → length xs ≤ p.version
unfolding later_version
greatest [] c p h last = absurd h
greatest (x ∷ xs) c p h last = let (q, row, e) = last-IsRow 0 x xs c in ground (arith, last q row)

-- the rows of the proof of an order
abbrev pub versions : ℕ → Db → List ProofVersion
versions order_id db = select (of_order order_id) db.proof_versions

module _ (order_id : ℕ) (db : Db) (c : Contiguous 0 (versions order_id db)) where
  pub latest_version-some :
      (p : ProofVersion)
      → latest_version order_id db ≡ some p
      → IsRow p (versions order_id db) × (p.version ≡ length (versions order_id db))
  unfolding latest_version
  latest_version-some p e =
      let rows = versions order_id db in
      let row =
        IsRow-order_by later_version rows p (IsRow-first (order_by later_version rows) p e) in
      let (low, high) = Contiguous-bound 0 rows p c row in
      let reached =
        greatest rows c p row (λ q h.
          first-order_by later_version later_version_asym later_version_chain rows p q e h) in
      (row, omega (arith, high, reached))

  pub latest_version-none : latest_version order_id db ≡ none → versions order_id db ≡ []
  unfolding latest_version
  latest_version-none e = elim (empty_or_IsRow (versions order_id db)) [
    | inl same ↦ same
    | inr (p, row) ↦ absurd (
        first-none (order_by later_version (versions order_id db)) p e
          (order_by-IsRow later_version (versions order_id db) p row))
  ]
