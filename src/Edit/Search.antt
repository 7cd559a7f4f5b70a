-- ===== src/Edit/Search.antt =====
-- Search and replace: exactly the text that was found is replaced.
use native.Mathlib.Nat.{suc-add}
use llmd.Prelude.{
  ℕ, ◌+◌, ◌≤◌, zero, suc, ◌≡◌, refl, sym, ◌∙◌, ap, Bool, true, false, [], ◌∷◌, ◌++◌, map, Bytes,
  if◌then◌else◌, arith, Result, ok, err, err_text_not_found, some, length, take, drop,
  take-append-drop, length-take, Bool-cases, Option-cases, inl, inr, ltb,
}
use llmd.Text.{index, contains, has_prefix}
use llmd.Text.Affix.{index-contains}
use llmd.Text.Replace.{splice, replace_first}
use llmd.Edit.{replace}

has_prefix→take : (s p : Bytes) → has_prefix s p ≡ true → take (length p) s ≡ p
unfolding has_prefix
has_prefix→take s [] h = refl
has_prefix→take [] (b ∷ p) h = cc
has_prefix→take (c ∷ s) (b ∷ p) h = ground (arith, has_prefix→take s p)

has_prefix-bound : (s p : Bytes) → has_prefix s p ≡ true → length p ≤ length s
unfolding has_prefix
has_prefix-bound s [] h = omega arith
has_prefix-bound [] (b ∷ p) h = cc
has_prefix-bound (c ∷ s) (b ∷ p) h = ground (arith, has_prefix-bound s p)

-- The text at the index that is found.
found_text :
    (s sub : Bytes) (i : ℕ)
    → index s sub ≡ some i
    → (take (length sub) (drop i s) ≡ sub) × (i + length sub ≤ length s)
unfolding index
found_text [] [] i h = (refl, unfold has_prefix in ground arith)
found_text [] (b ∷ sub) i h = unfold has_prefix in cc
found_text (c ∷ s) sub i h = elim (Bool-cases (has_prefix (c ∷ s) sub)) [
  | inl e ↦ ground (arith, has_prefix→take (c ∷ s) sub, has_prefix-bound (c ∷ s) sub)
  | inr e ↦ elim (Option-cases (index s sub)) [
    | inl none_left ↦ ground arith
    | inr (j, found) ↦ ground (arith, found_text s sub j, suc-add j (length sub))
  ]
]

length-map : (f : ℕ → ℕ) (s : Bytes) → length (map f s) ≡ length s
length-map f [] = refl
length-map f (c ∷ s) = ap suc (length-map f s)

map-take : (f : ℕ → ℕ) (n : ℕ) (s : Bytes) → take n (map f s) ≡ map f (take n s)
map-take f zero s = refl
map-take f (suc n) [] = refl
map-take f (suc n) (c ∷ s) = ap (λ l. f c ∷ l) (map-take f n s)

map-drop : (f : ℕ → ℕ) (n : ℕ) (s : Bytes) → drop n (map f s) ≡ map f (drop n s)
map-drop f zero s = refl
map-drop f (suc n) [] = refl
map-drop f (suc n) (c ∷ s) = map-drop f n s

drop-nil : (n : ℕ) → drop {A = ℕ} n [] ≡ []
drop-nil zero = refl
drop-nil (suc n) = refl

drop-drop : (m n : ℕ) (s : Bytes) → drop m (drop n s) ≡ drop (n + m) s
drop-drop m zero s = ap (λ k. drop k s) (omega arith)
drop-drop m (suc n) [] = drop-nil m ∙ sym (drop-nil (suc n + m))
drop-drop m (suc n) (c ∷ s) = drop-drop m n s ∙ ap (λ k. drop k (c ∷ s)) (sym (suc-add n m))

-- the text around the place of a match
rejoin : (i n : ℕ) (s : Bytes) → take i s ++ (take n (drop i s) ++ drop (i + n) s) ≡ s
rejoin i n s = rw (← drop-drop n i s, take-append-drop n (drop i s)) (take-append-drop i s)

-- A replacement of `old`: `pre` and `post` stay, what is between them becomes `new`. Texts are
-- compared through `fold`, and `pre` is as short as it can be.
pub record Replaced (fold : ℕ → ℕ) (content old new result : Bytes) : Type 0 where
  pub pre : Bytes
  pub found : Bytes
  pub post : Bytes
  pub content_eq : content ≡ pre ++ (found ++ post)
  pub result_eq : result ≡ pre ++ (new ++ post)
  pub matches : map fold found ≡ map fold old
  pub is_first : index (map fold content) (map fold old) ≡ some (length pre)

-- what a replacement returns
abbrev pub Describes : (ℕ → ℕ) → Bytes → Bytes → Bytes → Result Bytes → Type 0
Describes fold content old new (ok r) = Replaced fold content old new r
Describes fold content old new (err e) =
    (e ≡ err_text_not_found) × (contains (map fold content) (map fold old) ≡ false)

abbrev pub folding : (ℕ → ℕ) → Bool → ℕ → ℕ
folding f case_insensitive = if case_insensitive then f else λ c. c

found_at :
    (fold : ℕ → ℕ) (content old new : Bytes) (i : ℕ)
    → index (map fold content) (map fold old) ≡ some i
    → Replaced fold content old new (splice content i (length old) new)
found_at fold content old new i h = record {
  pre = take i content;
  found = take (length old) (drop i content);
  post = drop (i + length old) content;
  content_eq = sym (rejoin i (length old) content);
  result_eq = refl;
  matches = map_found;
  is_first =
      h
      ∙ ap some (
          omega (
            arith,
            length-take i content,
            length-map fold content,
            length-map fold old,
            (found_text (map fold content) (map fold old) i h).1,
          ));
}
  where
    map_found : map fold (take (length old) (drop i content)) ≡ map fold old
    map_found =
        rw
          (
            ← map-take fold (length old) (drop i content),
            ← map-drop fold i content,
            ← length-map fold old,
          )
          (found_text (map fold content) (map fold old) i h).0

-- If the text is found, nothing is out of range.
in_text :
    (fold : ℕ → ℕ) (content old : Bytes) (i : ℕ)
    → index (map fold content) (map fold old) ≡ some i
    → ltb (length content) (i + length old) ≡ false
in_text fold content old i h = ground (
  arith,
  length-map fold content,
  length-map fold old,
  (found_text (map fold content) (map fold old) i h).1,
)

map-id : (s : Bytes) → map (λ c. c) s ≡ s
map-id [] = refl
map-id (c ∷ s) = ap (λ l. c ∷ l) (map-id s)

-- With a `to_lower` that works byte by byte, as it does on ASCII, a replacement fails exactly if the
-- text is not found, and never runs out of the text. Otherwise what is in front of the first
-- occurrence stays, and what is behind it, and the occurrence becomes the new text as it is.
pub replace-Describes :
    (f : ℕ → ℕ) (content old new : Bytes) (case_insensitive : Bool)
    → Describes
        (folding f case_insensitive)
        content
        old
        new
        (replace (map f) content old new case_insensitive)
unfolding replace
replace-Describes f content old new true = elim (Option-cases (index (map f content) (map f old))) [
  | inl e ↦ rw e (refl, index-contains (map f content) (map f old) e)
  | inr (i, e) ↦ rw (e, in_text f content old i e) (found_at f content old new i e)
]
replace-Describes f content old new false = elim (Bool-cases (contains content old)) [
  | inr e ↦ rw e (refl, rw (map-id content, map-id old) e)
  | inl e ↦ rw e (elim (Option-cases (index content old)) [
    | inl k ↦ let missing = index-contains content old k in cc
    | inr (i, k) ↦
        unfold replace_first in
        rw k (found_at (λ c. c) content old new i (rw (map-id content, map-id old) k))
  ])
]
