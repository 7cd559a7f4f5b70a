-- ===== src/Sql/Rows.antt =====
-- Rows that are in a list, after a sort, at the maximum, and under a UNIQUE clause.
use mathlib.Core.Path.{subst}
use llmd.Prelude.{
  ℕ, ◌≤◌, ◌≡◌, refl, sym, ap, ◌∙◌, ◌⊎◌, inl, inr, Bool, true, false, List, [], ◌∷◌, none, some,
  first, All, In, arith, Bool-cases, leb,
}
use llmd.Sql.Select.{exists_where}
use llmd.Sql.Order.{order_by, insert_by}
use llmd.Sql.Unique.{max_of, coalesce, max_of-bound, has_duplicate}

module _ {A : Type 0} where
  pub All-In : (P : A → Type 0) (xs : List A) (a : A) → All P xs → In a xs → P a
  All-In P [] a h m = absurd m
  All-In P (x ∷ xs) a h (inl e) = subst P (sym e) h.0
  All-In P (x ∷ xs) a h (inr m) = All-In P xs a h.1 m

  still_in :
      (a x y : A) (ys zs : List A)
      → (In a zs → (a ≡ x) ⊎ In a ys)
      → (a ≡ y) ⊎ In a zs
      → (a ≡ x) ⊎ In a (y ∷ ys)
  still_in a x y ys zs f (inl e) = inr (inl e)
  still_in a x y ys zs f (inr i) = elim (f i) [ inl e ↦ inl e | inr j ↦ inr (inr j) ]

  In-inserted :
      (le : A → A → Bool) (a x : A) (ys : List A) → In a (insert_by le x ys) → (a ≡ x) ⊎ In a ys
  unfolding insert_by
  In-inserted le a x [] m = m
  In-inserted le a x (y ∷ ys) m = elim (Bool-cases (le x y)) [
    | inl e ↦ rw e at m
    | inr e ↦ still_in a x y ys (insert_by le x ys) (In-inserted le a x ys) (rw e at m)
  ]

  pub In-ordered : (le : A → A → Bool) (a : A) (xs : List A) → In a (order_by le xs) → In a xs
  unfolding order_by
  In-ordered le a [] m = absurd m
  In-ordered le a (x ∷ xs) m = elim (In-inserted le a x (order_by le xs) m) [
    | inl e ↦ inl e
    | inr i ↦ inr (In-ordered le a xs i)
  ]

  max_of-least :
      (f : A → ℕ) (xs : List A) (n : ℕ) → All (λ x. f x ≤ n) xs → coalesce (max_of f xs) 0 ≤ n
  unfolding max_of
  max_of-least f [] n h = omega arith
  max_of-least f (x ∷ xs) n h = ground (arith, h.0, max_of-least f xs n h.1)

  some_max :
      (f : A → ℕ) (a : A) (xs : List A) → In a xs → max_of f xs ≡ some (coalesce (max_of f xs) 0)
  unfolding max_of
  some_max f a [] m = absurd m
  some_max f a (x ∷ xs) m = ground arith

  -- A row that bounds all the others has the maximum.
  pub max_of-top :
      (f : A → ℕ) (a : A) (xs : List A)
      → In a xs
      → All (λ x. f x ≤ f a) xs
      → max_of f xs ≡ some (f a)
  max_of-top f a xs m h =
      let above =
        All-In (λ x. f x ≤ coalesce (max_of f xs) 0) xs a (max_of-bound f xs _ (omega arith)) m in
      let below = max_of-least f xs (f a) h in some_max f a xs m ∙ ap some (omega arith)

  raise :
      (f : A → ℕ) (xs : List A) (m n : ℕ) → m ≤ n → All (λ x. f x ≤ m) xs → All (λ x. f x ≤ n) xs
  raise f [] m n h k = tt
  raise f (x ∷ xs) m n h k = (omega (arith, k.0), raise f xs m n h k.1)

  -- Of the rows there is one that bounds them all.
  pub top_row :
      (f : A → ℕ) (a : A) (xs : List A) → In a xs → (t : A) × In t xs × All (λ x. f x ≤ f t) xs
  top_row f a [] m = absurd m
  top_row f a (x ∷ []) m = (x, inl refl, (omega arith, tt))
  top_row f a (x ∷ y ∷ xs) m =
      let (t, i, above) = top_row f y (y ∷ xs) (inl refl) in
      elim (Bool-cases (leb (f x) (f t))) [
        | inl e ↦ (t, inr i, (ground arith, above))
        | inr e ↦ (x, inl refl, (omega arith, raise f (y ∷ xs) (f t) (f x) (ground arith) above))
      ]

  pub exists_of :
      (q : A → Bool) (a : A) (xs : List A) → In a xs → q a ≡ true → exists_where q xs ≡ true
  unfolding exists_where
  exists_of q a [] m h = absurd m
  exists_of q a (x ∷ xs) (inl e) h = rw (ap q (sym e) ∙ h) refl
  exists_of q a (x ∷ xs) (inr i) h = ground (arith, exists_of q a xs i h)

  pub first-In : (xs : List A) (a : A) → first xs ≡ some a → In a xs
  first-In [] a h = cc
  first-In (x ∷ xs) a h = inl (cc)

  pub no_first : (xs : List A) (a : A) → In a xs → first xs ≡ none → true ≡ false
  no_first [] a m h = absurd m
  no_first (x ∷ xs) a m h = cc

  -- Two rows that agree on the columns of a UNIQUE clause are one.
  pub unique_row :
      (same : A → A → Bool) (a b : A) (xs : List A)
      → ((x y : A) → same x y ≡ same y x)
      → has_duplicate same xs ≡ false
      → In a xs
      → In b xs
      → same a b ≡ true
      → a ≡ b
  unfolding has_duplicate
  unique_row same a b [] symm h m k e = absurd m
  unique_row same a b (x ∷ xs) symm h (inl m) (inl k) e = m ∙ sym k
  unique_row same a b (x ∷ xs) symm h (inl m) (inr k) e =
      let again = exists_of (same x) b xs k (ap (λ y. same y b) (sym m) ∙ e) in
      absurd (ground arith)
  unique_row same a b (x ∷ xs) symm h (inr m) (inl k) e =
      let again = exists_of (same x) a xs m (ap (λ y. same y a) (sym k) ∙ (symm b a ∙ e)) in
      absurd (ground arith)
  unique_row same a b (x ∷ xs) symm h (inr m) (inr k) e =
      unique_row same a b xs symm (ground arith) m k e

  pub All-of_In : (P : A → Type 0) (xs : List A) → ((a : A) → In a xs → P a) → All P xs
  All-of_In P [] f = tt
  All-of_In P (x ∷ xs) f = (f x (inl refl), All-of_In P xs (λ a m. f a (inr m)))
