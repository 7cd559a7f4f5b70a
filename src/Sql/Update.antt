-- ===== src/Sql/Update.antt =====
-- `UPDATE ... WHERE`: what an update does to the tests that a later statement makes.
use llmd.Prelude.{ltb, ◌≡◌, refl, Bool, true, false, List, [], ◌∷◌, map, ◌==◌, if◌then◌else◌, arith}
use llmd.Sql.Select.{select, exists_where, count_where, update_where}

module _ {A : Type 0} where
  pub update-none :
      (p : A → Bool) (f : A → A) (xs : List A)
      → exists_where p xs ≡ false
      → update_where p f xs ≡ xs
  unfolding exists_where update_where
  update-none p f [] h = refl
  update-none p f (x ∷ xs) h = ground (arith, update-none p f xs)

  -- The test of an update fails afterwards if the update makes it fail.
  pub exists_where-updated :
      (p : A → Bool) (f : A → A) (xs : List A)
      → ((x : A) → p x ≡ true → p (f x) ≡ false)
      → exists_where p (update_where p f xs) ≡ false
  unfolding exists_where update_where
  exists_where-updated p f [] h = refl
  exists_where-updated p f (x ∷ xs) h = ground (arith, h x, exists_where-updated p f xs h)

  -- Two updates that undo one another.
  pub update-update :
      (p q : A → Bool) (f g : A → A) (xs : List A)
      → ((x : A) → q x ≡ false → p x ≡ true → (q (f x) ≡ true) × (g (f x) ≡ x))
      → exists_where q xs ≡ false
      → update_where q g (update_where p f xs) ≡ xs
  unfolding exists_where update_where
  update-update p q f g [] k h = refl
  update-update p q f g (x ∷ xs) k h = ground (arith, k x, update-update p q f g xs k)

  -- A row that an update makes pass another test.
  pub exists_where-marked :
      (p q : A → Bool) (f : A → A) (xs : List A)
      → ((x : A) → p x ≡ true → q (f x) ≡ true)
      → exists_where p xs ≡ true
      → exists_where q (update_where p f xs) ≡ true
  unfolding exists_where update_where
  exists_where-marked p q f [] k h = cc
  exists_where-marked p q f (x ∷ xs) k h = ground (arith, k x, exists_where-marked p q f xs k)

  -- A selection that the updated rows fail before and after.
  pub exists_where-update_ne :
      (p q : A → Bool) (f : A → A) (xs : List A)
      → ((x : A) → q x ≡ true → p (f x) ≡ p x)
      → exists_where p (update_where q f xs) ≡ exists_where p xs
  unfolding exists_where update_where
  exists_where-update_ne p q f [] h = refl
  exists_where-update_ne p q f (x ∷ xs) h = ground (arith, h x, exists_where-update_ne p q f xs h)

  pub count_where-zero :
      (p : A → Bool) (xs : List A)
      → (count_where p xs == 0) ≡ (if exists_where p xs then false else true)
  unfolding exists_where count_where
  count_where-zero p [] = refl
  count_where-zero p (x ∷ xs) = ground (arith, count_where-zero p xs)

  pub count_where-positive :
      (p : A → Bool) (xs : List A) → ltb 0 (count_where p xs) ≡ exists_where p xs
  unfolding exists_where count_where
  count_where-positive p [] = refl
  count_where-positive p (x ∷ xs) = ground (arith, count_where-positive p xs)

module _ {A : Type 0} where
  -- The rows that an update brings under a test that no row passed.
  pub select-updated :
      (p q : A → Bool) (f : A → A) (xs : List A)
      → ((x : A) → p x ≡ true → q (f x) ≡ true)
      → exists_where q xs ≡ false
      → select q (update_where p f xs) ≡ map f (select p xs)
  unfolding select exists_where update_where
  select-updated p q f [] h k = refl
  select-updated p q f (x ∷ xs) h k = ground (arith, h x, select-updated p q f xs h)

  -- Items that a test passes in the same way before and after a map.
  pub select-map :
      (p q : A → Bool) (f : A → A) (xs : List A)
      → ((x : A) → q (f x) ≡ p x)
      → select q (map f xs) ≡ map f (select p xs)
  unfolding select
  select-map p q f [] h = refl
  select-map p q f (x ∷ xs) h = ground (arith, h x, select-map p q f xs h)
