-- ===== src/Base/Lists.antt =====
-- Lists measured by native numbers, and the rows of a table: a select of one row, a count of the
-- selected rows, an update of one row, and predicates on all rows.
use Prim.Native.Nat.{ℕ, zero, suc, ◌+◌}
use mathlib.Core.Path.{◌≡◌, refl}
use mathlib.Core.Bool.{Bool, true, false}
use mathlib.Core.Option.{Option, none, some}
use mathlib.Core.List.{List, [], ◌∷◌, ◌++◌}
use native.Mathlib.Omega.{arith}
use spacerocks_coa.Base.Tests.{if◌then◌else◌}

module _ {ℓ} {A : Type ℓ} where
  abbrev pub length : List A → ℕ
  length [] = 0
  length (x ∷ xs) = suc (length xs)

  pub length-append : (xs ys : List A) → length (xs ++ ys) ≡ length xs + length ys
  length-append [] ys = omega arith
  length-append (x ∷ xs) ys = omega (arith, length-append xs ys)

  -- `session.scalar(select(T).where(p))`: the first row that is selected
  unfoldable pub find : (A → Bool) → List A → Option A
  find p [] = none
  find p (x ∷ xs) = if p x then some x else find p xs

  -- the number of rows that are selected
  unfoldable pub count : (A → Bool) → List A → ℕ
  count p [] = 0
  count p (x ∷ xs) = (if p x then 1 else 0) + count p xs

  -- the first row that is selected gets the values of `a`
  unfoldable pub replace : (A → Bool) → A → List A → List A
  replace p a [] = []
  replace p a (x ∷ xs) = if p x then a ∷ xs else x ∷ replace p a xs

module _ {ℓ κ} {A : Type ℓ} where
  -- every row satisfies `P`
  abbrev pub All : (A → Type κ) → List A → Type κ
  All P [] = Unit
  All P (x ∷ xs) = P x × All P xs

  pub All-append : (P : A → Type κ) (xs ys : List A) → All P xs → All P ys → All P (xs ++ ys)
  All-append P [] ys hx hy = hy
  All-append P (x ∷ xs) ys hx hy = (hx.0, All-append P xs ys hx.1 hy)

  pub All-find :
      (P : A → Type κ) (p : A → Bool) (xs : List A) (a : A) → All P xs → find p xs ≡ some a → P a
  unfolding find
  All-find P p [] a h e = cc
  All-find P p (x ∷ xs) a h e = ground (arith, All-find P p xs a h.1)

module _ {ℓ} {A : Type ℓ} where
  pub find-test : (p : A → Bool) (xs : List A) (a : A) → find p xs ≡ some a → p a ≡ true
  unfolding find
  find-test p [] a e = cc
  find-test p (x ∷ xs) a e = ground (arith, find-test p xs a)

  pub find-replace_self :
      (p : A → Bool) (xs : List A) (a b : A)
      → find p xs ≡ some a
      → p b ≡ true
      → find p (replace p b xs) ≡ some b
  unfolding find replace
  find-replace_self p [] a b e t = cc
  find-replace_self p (x ∷ xs) a b e t = ground (arith, find-replace_self p xs a b)

module _ {ℓ} {A : Type ℓ} where
  -- the rows that are selected, in their order
  unfoldable pub select : (A → Bool) → List A → List A
  select p [] = []
  select p (x ∷ xs) = let rest = select p xs in if p x then x ∷ rest else rest

  unfoldable pub insert_by : (A → A → Bool) → A → List A → List A
  insert_by before a [] = a ∷ []
  insert_by before a (x ∷ xs) = if before x a then x ∷ insert_by before a xs else a ∷ x ∷ xs

  -- `order_by`, where `before` says that a row comes strictly before another
  unfoldable pub order_by : (A → A → Bool) → List A → List A
  unfolding insert_by
  order_by before [] = []
  order_by before (x ∷ xs) = insert_by before x (order_by before xs)

  abbrev pub first : List A → Option A
  first [] = none
  first (x ∷ xs) = some x

  -- `limit(n)`
  abbrev pub take : ℕ → List A → List A
  take zero xs = []
  take (suc n) [] = []
  take (suc n) (x ∷ xs) = x ∷ take n xs

  pub find-append :
      (p : A → Bool) (xs ys : List A)
      → find p (xs ++ ys) ≡ elim (find p xs) [ none ↦ find p ys | some a ↦ some a ]
  unfolding find
  find-append p [] ys = refl
  find-append p (x ∷ xs) ys = ground (arith, find-append p xs ys)

  -- a row that `q` excludes is found in place of another that `q` excludes: nothing changes for `q`
  pub find-replace_other :
      (p q : A → Bool) (xs : List A) (b : A)
      → ((x : A) → p x ≡ true → q x ≡ false)
      → q b ≡ false
      → find q (replace p b xs) ≡ find q xs
  unfolding find replace
  find-replace_other p q [] b out t = refl
  find-replace_other p q (x ∷ xs) b out t = ground (arith, out x, find-replace_other p q xs b out t)

  pub length-replace : (p : A → Bool) (b : A) (xs : List A) → length (replace p b xs) ≡ length xs
  unfolding replace
  length-replace p b [] = refl
  length-replace p b (x ∷ xs) = ground (arith, length-replace p b xs)

  pub select-append :
      (p : A → Bool) (xs ys : List A) → select p (xs ++ ys) ≡ select p xs ++ select p ys
  unfolding select
  select-append p [] ys = refl
  select-append p (x ∷ xs) ys = ground (arith, select-append p xs ys)

  -- a row that is found is replaced by itself
  pub replace-found :
      (p : A → Bool) (xs : List A) (a : A) → find p xs ≡ some a → replace p a xs ≡ xs
  unfolding find replace
  replace-found p [] a e = cc
  replace-found p (x ∷ xs) a e = ground (arith, replace-found p xs a)

  -- a new last row is found, if no row before it is
  pub find-new :
      (p : A → Bool) (xs : List A) (a : A)
      → find p xs ≡ none
      → p a ≡ true
      → find p (xs ++ a ∷ []) ≡ some a
  unfolding find
  find-new p xs a e t = ground (arith, find-append p xs (a ∷ []))
