-- ===== src/Sql/Order.antt =====
-- `ORDER BY`: a stable sort of the selected rows by a test "may stand before".
use llmd.Prelude.{
  ◌≡◌, refl, map, arith, ◌⊎◌, inl, inr, Bool, true, false, List, [], ◌∷◌, ◌++◌, All, In,
  if◌then◌else◌, Bool-cases,
}

module _ {A : Type 0} where
  unfoldable pub insert_by : (A → A → Bool) → A → List A → List A
  insert_by le x [] = x ∷ []
  insert_by le x (y ∷ ys) = let rest = insert_by le x ys in if le x y then x ∷ y ∷ ys else y ∷ rest

  unfoldable pub order_by : (A → A → Bool) → List A → List A
  unfolding insert_by
  order_by le [] = []
  order_by le (x ∷ xs) = insert_by le x (order_by le xs)

  -- Every item stands before all the later ones.
  abbrev pub IsOrdered : (A → A → Bool) → List A → Type 0
  IsOrdered le [] = Unit
  IsOrdered le (x ∷ xs) = All (λ y. le x y ≡ true) xs × IsOrdered le xs

  pub All-insert_by :
      (P : A → Type 0) (le : A → A → Bool) (x : A) (ys : List A)
      → P x
      → All P ys
      → All P (insert_by le x ys)
  unfolding insert_by
  All-insert_by P le x [] h k = (h, tt)
  All-insert_by P le x (y ∷ ys) h k = elim (Bool-cases (le x y)) [
    | inl e ↦ rw e (h, k)
    | inr e ↦ rw e (k.0, All-insert_by P le x ys h k.1)
  ]

  pub All-order_by :
      (P : A → Type 0) (le : A → A → Bool) (xs : List A) → All P xs → All P (order_by le xs)
  unfolding order_by
  All-order_by P le [] h = tt
  All-order_by P le (x ∷ xs) h =
      All-insert_by P le x (order_by le xs) h.0 (All-order_by P le xs h.1)

  -- An item stays an item if one is put in below the first.
  below :
      (a x y : A) (ys zs : List A)
      → ((a ≡ x) ⊎ In a ys → In a zs)
      → (a ≡ x) ⊎ In a (y ∷ ys)
      → In a (y ∷ zs)
  below a x y ys zs f (inl e) = inr (f (inl e))
  below a x y ys zs f (inr (inl e)) = inl e
  below a x y ys zs f (inr (inr m)) = inr (f (inr m))

  pub In-insert_by :
      (le : A → A → Bool) (a x : A) (ys : List A) → (a ≡ x) ⊎ In a ys → In a (insert_by le x ys)
  unfolding insert_by
  In-insert_by le a x [] (inl e) = inl e
  In-insert_by le a x [] (inr m) = absurd m
  In-insert_by le a x (y ∷ ys) m = elim (Bool-cases (le x y)) [
    | inl e ↦ rw e m
    | inr e ↦ rw e (below a x y ys _ (In-insert_by le a x ys) m)
  ]

  pub In-order_by : (le : A → A → Bool) (a : A) (xs : List A) → In a xs → In a (order_by le xs)
  unfolding order_by
  In-order_by le a [] m = absurd m
  In-order_by le a (x ∷ xs) (inl e) = In-insert_by le a x (order_by le xs) (inl e)
  In-order_by le a (x ∷ xs) (inr m) =
      In-insert_by le a x (order_by le xs) (inr (In-order_by le a xs m))

  -- A last row that no other may stand before comes first.
  pub order_by-snoc :
      (le : A → A → Bool) (xs : List A) (n : A)
      → All (λ x. le x n ≡ false) xs
      → order_by le (xs ++ n ∷ []) ≡ n ∷ order_by le xs
  unfolding order_by
  order_by-snoc le [] n h = refl
  order_by-snoc le (x ∷ xs) n h = rw (order_by-snoc le xs n h.1) (rw h.0)

  module _ (le : A → A → Bool) (total : (x y : A) → le x y ≡ false → le y x ≡ true)
      (trans : (x y z : A) → le x y ≡ true → le y z ≡ true → le x z ≡ true) where
    before-All :
        (x y : A) (ys : List A)
        → le x y ≡ true
        → All (λ z. le y z ≡ true) ys
        → All (λ z. le x z ≡ true) ys
    before-All x y [] h k = tt
    before-All x y (z ∷ ys) h k = (trans x y z h k.0, before-All x y ys h k.1)

    insert_by-IsOrdered : (x : A) (ys : List A) → IsOrdered le ys → IsOrdered le (insert_by le x ys)
    unfolding insert_by
    insert_by-IsOrdered x [] h = (tt, tt)
    insert_by-IsOrdered x (y ∷ ys) h = elim (Bool-cases (le x y)) [
      | inl e ↦ rw e ((e, before-All x y ys e h.0), h)
      | inr e ↦ rw e (All-insert_by _ le x ys (total x y e) h.0, insert_by-IsOrdered x ys h.1)
    ]

    pub order_by-IsOrdered : (xs : List A) → IsOrdered le (order_by le xs)
    unfolding order_by
    order_by-IsOrdered [] = tt
    order_by-IsOrdered (x ∷ xs) = insert_by-IsOrdered x (order_by le xs) (order_by-IsOrdered xs)

-- A map that keeps the test keeps the order.
pub order_by-map :
    {A B : Type 0} (le : A → A → Bool) (le' : B → B → Bool) (f : A → B) (xs : List A)
    → ((x y : A) → le' (f x) (f y) ≡ le x y)
    → order_by le' (map f xs) ≡ map f (order_by le xs)
unfolding order_by
order_by-map le le' f [] h = refl
order_by-map {A} le le' f (x ∷ xs) h = rw (order_by-map le le' f xs h) (insert_map (order_by le xs))
  where
    insert_map : (ys : List A) → insert_by le' (f x) (map f ys) ≡ map f (insert_by le x ys)
    insert_map [] = refl
    insert_map (y ∷ ys) = ground (arith, h x y, insert_map ys)
