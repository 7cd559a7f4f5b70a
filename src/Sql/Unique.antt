-- ===== src/Sql/Unique.antt =====
-- `UNIQUE`, `MAX` and `DISTINCT`.
use llmd.Prelude.{
  ℕ, ◌≤◌, ◌≡◌, refl, All, arith, ◌++◌, Bool, false, not, ◌||◌, List, [], ◌∷◌, Option, none, some,
  Bytes, str_eq, max,
}
use llmd.Sql.Select.{exists_where, select, update_where, exists_where-snoc, exists_where-ext}

module _ {A : Type 0} where
  -- Two rows agree on the columns of a UNIQUE clause.
  unfoldable pub has_duplicate : (A → A → Bool) → List A → Bool
  has_duplicate same [] = false
  has_duplicate same (x ∷ xs) = exists_where (same x) xs || has_duplicate same xs

  -- MAX(f) over the rows of a table, NULL if there are none
  unfoldable pub max_of : (A → ℕ) → List A → Option ℕ
  max_of f [] = none
  max_of f (x ∷ xs) = elim (max_of f xs) [ none ↦ some (f x) | some m ↦ some (max (f x) m) ]

-- COALESCE(v, d)
abbrev pub coalesce : Option ℕ → ℕ → ℕ
coalesce none d = d
coalesce (some v) d = v

unfoldable pub distinct : List Bytes → List Bytes
distinct [] = []
distinct (x ∷ xs) = x ∷ select (λ y. not (str_eq y x)) (distinct xs)

module _ {A : Type 0} where
  -- A bound of the maximum bounds every row.
  pub max_of-bound :
      (f : A → ℕ) (xs : List A) (n : ℕ) → coalesce (max_of f xs) 0 ≤ n → All (λ x. f x ≤ n) xs
  unfolding max_of
  max_of-bound f [] n h = tt
  max_of-bound f (x ∷ xs) n h = (ground arith, max_of-bound f xs n (ground arith))

module _ {A : Type 0} (same : A → A → Bool) where
  pub has_duplicate-snoc :
      (xs : List A) (n : A)
      → ((x : A) → same x n ≡ same n x)
      → has_duplicate same xs ≡ false
      → exists_where (same n) xs ≡ false
      → has_duplicate same (xs ++ n ∷ []) ≡ false
  unfolding has_duplicate exists_where
  has_duplicate-snoc [] n sym_n h k = refl
  has_duplicate-snoc (x ∷ xs) n sym_n h k =
      ground (arith, sym_n x, exists_where-snoc (same x) xs n, has_duplicate-snoc xs n sym_n)

  exists_where-select :
      (p q : A → Bool) (xs : List A)
      → exists_where q xs ≡ false
      → exists_where q (select p xs) ≡ false
  unfolding select exists_where
  exists_where-select p q [] h = refl
  exists_where-select p q (x ∷ xs) h = ground (arith, exists_where-select p q xs)

  pub has_duplicate-select :
      (p : A → Bool) (xs : List A)
      → has_duplicate same xs ≡ false
      → has_duplicate same (select p xs) ≡ false
  unfolding select has_duplicate
  has_duplicate-select p [] h = refl
  has_duplicate-select p (x ∷ xs) h =
      ground (arith, exists_where-select p (same x) xs, has_duplicate-select p xs)

  module _ (p : A → Bool) (f : A → A) (left : (x y : A) → same (f x) y ≡ same x y)
      (right : (x y : A) → same x (f y) ≡ same x y) where
    exists_where-update :
        (x : A) (xs : List A)
        → exists_where (same x) (update_where p f xs) ≡ exists_where (same x) xs
    unfolding update_where exists_where
    exists_where-update x [] = refl
    exists_where-update x (y ∷ ys) = ground (arith, right x y, exists_where-update x ys)

    -- An update of other columns leaves the duplicates as they are.
    pub has_duplicate-update :
        (xs : List A) → has_duplicate same (update_where p f xs) ≡ has_duplicate same xs
    unfolding update_where has_duplicate
    has_duplicate-update [] = refl
    has_duplicate-update (x ∷ xs) = ground (
      arith,
      exists_where-ext (same (f x)) (same x) (update_where p f xs) (left x),
      exists_where-update x xs,
      has_duplicate-update xs,
    )
