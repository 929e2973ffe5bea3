-- ===== src/Base/Ordering.antt =====
-- The rows that a query with conditions and an order returns: each is a selected row, and the
-- first has no selected row strictly before it.
use mathlib.Core.Path.{◌≡◌, refl}
use mathlib.Core.Bool.{Bool, true, false}
use mathlib.Core.Option.{none, some}
use mathlib.Core.List.{List, [], ◌∷◌, ◌++◌}
use mathlib.Core.Logic.{◌⊎◌, inl, inr}
use native.Mathlib.Omega.{arith}
use spacerocks_coa.Base.Tests.{Bool-cases, Option-cases}
use spacerocks_coa.Base.Lists.{select, insert_by, order_by, first}

module _ {A : Type 0} where
  -- `a` is a row of the table
  abbrev pub IsRow : A → List A → Type 0
  IsRow a [] = ⊥
  IsRow a (x ∷ xs) = (a ≡ x) ⊎ IsRow a xs

  pub IsRow-select :
      (p : A → Bool) (xs : List A) (a : A) → IsRow a (select p xs) → IsRow a xs × (p a ≡ true)
  unfolding select
  IsRow-select p [] a h = absurd h
  IsRow-select p (x ∷ xs) a h = ground (arith, IsRow-select p xs a)

  pub select-IsRow :
      (p : A → Bool) (xs : List A) (a : A) → IsRow a xs → p a ≡ true → IsRow a (select p xs)
  unfolding select
  select-IsRow p [] a h t = absurd h
  select-IsRow p (x ∷ xs) a h t = ground (arith, select-IsRow p xs a)

  -- the first row of an ordered result is a row of the table
  pub IsRow-first : (xs : List A) (a : A) → first xs ≡ some a → IsRow a xs
  IsRow-first [] a e = cc
  IsRow-first (x ∷ xs) a e = ground arith

  -- an empty result has no row
  pub first-none : (xs : List A) (a : A) → first xs ≡ none → IsRow a xs → ⊥
  first-none [] a e h = h
  first-none (x ∷ xs) a e h = cc

  pub IsRow-snoc : (xs : List A) (a : A) → IsRow a (xs ++ a ∷ [])
  IsRow-snoc [] a = inl refl
  IsRow-snoc (x ∷ xs) a = inr (IsRow-snoc xs a)

  pub snoc-IsRow : (xs : List A) (a b : A) → IsRow b (xs ++ a ∷ []) → (b ≡ a) ⊎ IsRow b xs
  snoc-IsRow [] a b h = h
  snoc-IsRow (x ∷ xs) a b (inl e) = inr (inl e)
  snoc-IsRow (x ∷ xs) a b (inr h) = ground (arith, snoc-IsRow xs a b h)

module _ {A : Type 0} (before : A → A → Bool) where
  IsRow-insert_by :
      (x : A) (xs : List A) (a : A) → IsRow a (insert_by before x xs) → (a ≡ x) ⊎ IsRow a xs
  unfolding insert_by
  IsRow-insert_by x [] a h = h
  IsRow-insert_by x (y ∷ ys) a h = ground (arith, IsRow-insert_by x ys a)

  insert_by-IsRow :
      (x : A) (xs : List A) (a : A) → (a ≡ x) ⊎ IsRow a xs → IsRow a (insert_by before x xs)
  unfolding insert_by
  insert_by-IsRow x [] a h = h
  insert_by-IsRow x (y ∷ ys) a h = ground (arith, insert_by-IsRow x ys a)

  pub IsRow-order_by : (xs : List A) (a : A) → IsRow a (order_by before xs) → IsRow a xs
  unfolding order_by
  IsRow-order_by [] a h = h
  IsRow-order_by (x ∷ xs) a h =
      ground (arith, IsRow-insert_by x (order_by before xs) a h, IsRow-order_by xs a)

  pub order_by-IsRow : (xs : List A) (a : A) → IsRow a xs → IsRow a (order_by before xs)
  unfolding order_by
  order_by-IsRow [] a h = h
  order_by-IsRow (x ∷ xs) a h =
      ground (arith, insert_by-IsRow x (order_by before xs) a, order_by-IsRow xs a)

  module _ (asym : (a b : A) → before a b ≡ true → before b a ≡ false)
      (chain : (a b c : A) → before b a ≡ false → before c b ≡ false → before c a ≡ false) where
    -- no row of the list comes before `a`
    abbrev IsFirst : A → List A → Type 0
    IsFirst a [] = Unit
    IsFirst a (x ∷ xs) = (before x a ≡ false) × IsFirst a xs

    IsFirst-chain : (a b : A) (xs : List A) → before b a ≡ false → IsFirst b xs → IsFirst a xs
    IsFirst-chain a b [] e h = tt
    IsFirst-chain a b (x ∷ xs) e h = (chain a b x e h.0, IsFirst-chain a b xs e h.1)

    irrefl : (a : A) → before a a ≡ false
    irrefl a = ground (arith, asym a a)

    IsFirst-insert_by :
        (a x : A) (xs : List A)
        → before x a ≡ false
        → IsFirst a xs
        → IsFirst a (insert_by before x xs)
    unfolding insert_by
    IsFirst-insert_by a x [] e h = (e, tt)
    IsFirst-insert_by a x (y ∷ ys) e h = ground (arith, IsFirst-insert_by a x ys e h.1)

    IsOrdered : List A → Type 0
    IsOrdered [] = Unit
    IsOrdered (x ∷ xs) = IsFirst x xs × IsOrdered xs

    insert_by-IsOrdered : (x : A) (xs : List A) → IsOrdered xs → IsOrdered (insert_by before x xs)
    unfolding insert_by IsOrdered
    insert_by-IsOrdered x [] h = (tt, tt)
    insert_by-IsOrdered x (y ∷ ys) h = elim (Bool-cases (before y x)) [
      | inl e ↦ rw e (IsFirst-insert_by y x ys (asym y x e) h.0, insert_by-IsOrdered x ys h.1)
      | inr e ↦ rw e ((e, IsFirst-chain x y ys e h.0), h)
    ]

    order_by-IsOrdered : (xs : List A) → IsOrdered (order_by before xs)
    unfolding order_by IsOrdered
    order_by-IsOrdered [] = tt
    order_by-IsOrdered (x ∷ xs) = insert_by-IsOrdered x (order_by before xs) (order_by-IsOrdered xs)

    IsFirst-row : (a b : A) (xs : List A) → IsFirst a xs → IsRow b xs → before b a ≡ false
    IsFirst-row a b [] f h = absurd h
    IsFirst-row a b (x ∷ xs) f h = ground (arith, IsFirst-row a b xs f.1)

    first-IsFirst :
        (xs : List A) (a b : A) → IsOrdered xs → first xs ≡ some a → IsRow b xs → before b a ≡ false
    unfolding IsOrdered
    first-IsFirst [] a b o e h = absurd h
    first-IsFirst (x ∷ xs) a b o e h = ground (arith, irrefl x, IsFirst-row x b xs o.0)

    -- No row of the table comes strictly before the first of the ordered rows.
    pub first-order_by :
        (xs : List A) (a b : A)
        → first (order_by before xs) ≡ some a
        → IsRow b xs
        → before b a ≡ false
    first-order_by xs a b e h =
        first-IsFirst (order_by before xs) a b (order_by-IsOrdered xs) e (order_by-IsRow xs b h)

    order_by-some :
        (xs : List A) (a : A) → IsRow a xs → (b : A) × (first (order_by before xs) ≡ some b)
    order_by-some xs a h = elim (Option-cases (first (order_by before xs))) [
      | inl e ↦ absurd (first-none (order_by before xs) a e (order_by-IsRow xs a h))
      | inr e ↦ e
    ]

    -- The last row is the first of the ordered rows, if it comes before every other.
    pub first-order_by-last :
        (xs : List A) (a : A)
        → ((x : A) → IsRow x xs → before a x ≡ true)
        → first (order_by before (xs ++ a ∷ [])) ≡ some a
    first-order_by-last xs a h =
        let (b, e) = order_by-some (xs ++ a ∷ []) a (IsRow-snoc xs a) in
        elim (snoc-IsRow xs a b (IsRow-order_by (xs ++ a ∷ []) b (IsRow-first _ b e))) [
          | inl same ↦ ground arith
          | inr row ↦
              absurd
                (ground (arith, h b row, first-order_by (xs ++ a ∷ []) b a e (IsRow-snoc xs a)))
        ]
