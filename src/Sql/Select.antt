-- ===== src/Sql/Select.antt =====
-- `WHERE`: the rows that a statement reads, changes or deletes.
use llmd.Prelude.{
  ℕ, suc, ◌≡◌, ◌↔◌, refl, sym, ap, ◌∙◌, ◌⊎◌, inl, inr, Bool, true, false, not, ◌&&◌, List, [], ◌∷◌,
  ◌++◌, All, In, some, first, length, arith, if◌then◌else◌, Bool-cases,
}

module _ {A : Type 0} where
  -- The two places of an item of `x ∷ xs`.
  first_or_rest : (a x : A) (xs : List A) → In a (x ∷ xs) → (a ≡ x) ⊎ In a xs
  first_or_rest a x xs m = m

  two_parts : (P : A → Type 0) (x : A) (xs : List A) → All P (x ∷ xs) → P x × All P xs
  two_parts P x xs h = (h.0, h.1)

  -- SELECT * FROM t WHERE p
  unfoldable pub select : (A → Bool) → List A → List A
  select p [] = []
  select p (x ∷ xs) = let rest = select p xs in if p x then x ∷ rest else rest

  -- SELECT COUNT(*) FROM t WHERE p, and the RowsAffected of an UPDATE or DELETE with that WHERE
  unfoldable pub count_where : (A → Bool) → List A → ℕ
  count_where p [] = 0
  count_where p (x ∷ xs) = let rest = count_where p xs in if p x then suc rest else rest

  -- EXISTS (SELECT 1 FROM t WHERE p)
  unfoldable pub exists_where : (A → Bool) → List A → Bool
  exists_where p [] = false
  exists_where p (x ∷ xs) = if p x then true else exists_where p xs

  -- UPDATE t SET f WHERE p
  unfoldable pub update_where : (A → Bool) → (A → A) → List A → List A
  update_where p f [] = []
  update_where p f (x ∷ xs) = (if p x then f x else x) ∷ update_where p f xs

  -- DELETE FROM t WHERE p
  unfoldable pub delete_where : (A → Bool) → List A → List A
  unfolding select
  delete_where p = select (λ x. not (p x))

  pub count_where-length : (p : A → Bool) (xs : List A) → count_where p xs ≡ length (select p xs)
  unfolding select count_where
  count_where-length p [] = refl
  count_where-length p (x ∷ xs) = ground (arith, count_where-length p xs)

  pub select-append :
      (p : A → Bool) (xs ys : List A) → select p (xs ++ ys) ≡ select p xs ++ select p ys
  unfolding select
  select-append p [] ys = refl
  select-append p (x ∷ xs) ys = ground (arith, select-append p xs ys)

  pub select-none : (p : A → Bool) (xs : List A) → exists_where p xs ≡ false → select p xs ≡ []
  unfolding select exists_where
  select-none p [] h = refl
  select-none p (x ∷ xs) h = ground (arith, select-none p xs)

  pub select-select :
      (p q : A → Bool) (xs : List A) → select p (select q xs) ≡ select (λ x. q x && p x) xs
  unfolding select
  select-select p q [] = refl
  select-select p q (x ∷ xs) = ground (arith, select-select p q xs)

  pub select-ext :
      (p q : A → Bool) (xs : List A) → ((x : A) → p x ≡ q x) → select p xs ≡ select q xs
  unfolding select
  select-ext p q [] h = refl
  select-ext p q (x ∷ xs) h = ground (arith, h x, select-ext p q xs h)

  -- An update that leaves the test of a selection alone commutes with it.
  pub select-update_ne :
      (p q : A → Bool) (f : A → A) (xs : List A)
      → ((x : A) → q x ≡ true → p x ≡ false)
      → ((x : A) → q x ≡ true → p (f x) ≡ false)
      → select p (update_where q f xs) ≡ select p xs
  unfolding select update_where
  select-update_ne p q f [] h k = refl
  select-update_ne p q f (x ∷ xs) h k = ground (arith, h x, k x, select-update_ne p q f xs h k)

  pub count_where-exists :
      (p : A → Bool) (xs : List A) → (count_where p xs ≡ 0) ↔ (exists_where p xs ≡ false)
  unfolding count_where exists_where
  count_where-exists p [] = (λ _. refl, λ _. refl)
  count_where-exists p (x ∷ xs) =
      let (there, back) = count_where-exists p xs in
      elim (Bool-cases (p x)) [
        | inl h ↦ (λ e. absurd (ground arith), λ e. absurd (ground arith))
        | inr h ↦ (rw h there, rw h back)
      ]

  pub In-select : (p : A → Bool) (a : A) (xs : List A) → In a (select p xs) → In a xs × (p a ≡ true)
  unfolding select
  In-select p a [] m = absurd m
  In-select p a (x ∷ xs) m = elim (Bool-cases (p x)) [
    | inl h ↦ elim (first_or_rest a x (select p xs) (rw h at m)) [
      | inl e ↦ (inl e, rw e h)
      | inr i ↦ let (j, e) = In-select p a xs i in (inr j, e)
    ]
    | inr h ↦ let (i, e) = In-select p a xs (rw h at m) in (inr i, e)
  ]

  pub In-select_of :
      (p : A → Bool) (a : A) (xs : List A) → In a xs → p a ≡ true → In a (select p xs)
  unfolding select
  In-select_of p a [] m h = absurd m
  In-select_of p a (x ∷ xs) (inl e) h = rw (ap p (sym e) ∙ h) (inl e)
  In-select_of p a (x ∷ xs) (inr i) h = elim (Bool-cases (p x)) [
    | inl k ↦ rw k (inr (In-select_of p a xs i h))
    | inr k ↦ rw k (In-select_of p a xs i h)
  ]

  pub All-select : (P : A → Type 0) (p : A → Bool) (xs : List A) → All P xs → All P (select p xs)
  unfolding select
  All-select P p [] h = tt
  All-select P p (x ∷ xs) h = elim (Bool-cases (p x)) [
    | inl k ↦ rw k (h.0, All-select P p xs h.1)
    | inr k ↦ rw k (All-select P p xs h.1)
  ]

  -- What holds of every selected row holds of every row that passes the test.
  pub All-where :
      (P : A → Type 0) (p : A → Bool) (xs : List A)
      → All P (select p xs)
      → All (λ x. p x ≡ true → P x) xs
  unfolding select
  All-where P p [] h = tt
  All-where P p (x ∷ xs) h = elim (Bool-cases (p x)) [
    | inl k ↦ let (a, b) = two_parts P x (select p xs) (rw k at h) in (λ _. a, All-where P p xs b)
    | inr k ↦ (λ e. cc, All-where P p xs (rw k at h))
  ]

  pub All-map : (P Q : A → Type 0) (xs : List A) → ((x : A) → P x → Q x) → All P xs → All Q xs
  All-map P Q [] f h = tt
  All-map P Q (x ∷ xs) f h = (f x h.0, All-map P Q xs f h.1)

  -- The converse of `All-where`.
  pub All-selected :
      (P : A → Type 0) (p : A → Bool) (xs : List A)
      → All (λ x. p x ≡ true → P x) xs
      → All P (select p xs)
  unfolding select
  All-selected P p [] h = tt
  All-selected P p (x ∷ xs) h = elim (Bool-cases (p x)) [
    | inl k ↦ rw k (h.0 k, All-selected P p xs h.1)
    | inr k ↦ rw k (All-selected P p xs h.1)
  ]

  -- A last row is selected last, or not at all.
  pub select-snoc :
      (p : A → Bool) (xs : List A) (n : A)
      → select p (xs ++ n ∷ []) ≡ (if p n then select p xs ++ n ∷ [] else select p xs)
  unfolding select
  select-snoc p [] n = ground arith
  select-snoc p (x ∷ xs) n = ground (arith, select-snoc p xs n)

  pub select-nil : (p : A → Bool) (xs : List A) → All (λ x. p x ≡ false) xs → select p xs ≡ []
  unfolding select
  select-nil p [] h = refl
  select-nil p (x ∷ xs) h = ground (arith, h.0, select-nil p xs h.1)

  -- What was found first is still found first when a row is added.
  pub first-snoc :
      (p : A → Bool) (xs : List A) (n a : A)
      → first (select p xs) ≡ some a
      → first (select p (xs ++ n ∷ [])) ≡ some a
  unfolding select
  first-snoc p [] n a h = cc
  first-snoc p (x ∷ xs) n a h = ground (arith, first-snoc p xs n a)

  pub exists_where-snoc :
      (p : A → Bool) (xs : List A) (n : A)
      → exists_where p (xs ++ n ∷ []) ≡ (if exists_where p xs then true else p n)
  unfolding exists_where
  exists_where-snoc p [] n = ground arith
  exists_where-snoc p (x ∷ xs) n = ground (arith, exists_where-snoc p xs n)

  pub exists_where-ext :
      (p q : A → Bool) (xs : List A) → ((x : A) → p x ≡ q x) → exists_where p xs ≡ exists_where q xs
  unfolding exists_where
  exists_where-ext p q [] h = refl
  exists_where-ext p q (x ∷ xs) h = ground (arith, h x, exists_where-ext p q xs h)
