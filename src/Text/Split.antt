-- ===== src/Text/Split.antt =====
-- `split` and `join` undo one another.
use llmd.Prelude.{
  ℕ, ◌≡◌, ◌≢◌, refl, ap, ◌∙◌, inl, inr, List, [], ◌∷◌, ◌++◌, Bytes, All, arith, ◌==◌, Bool-cases,
}
use llmd.Text.{split, join, cons_first}

-- No piece of a split holds the separator.
abbrev pub IsFree : ℕ → Bytes → Type 0
IsFree sep = All (λ c. c ≢ sep)

join-cons_first :
    (sep c : ℕ) (ps : List Bytes) → ps ≢ [] → join sep (cons_first c ps) ≡ c ∷ join sep ps
unfolding join
join-cons_first sep c [] h = absurd (h refl)
join-cons_first sep c (p ∷ []) h = refl
join-cons_first sep c (p ∷ q ∷ ps) h = refl

pub split-ne-nil : (sep : ℕ) (s : Bytes) → split sep s ≢ []
unfolding split
split-ne-nil sep [] = ground arith
split-ne-nil sep (c ∷ s) = ground arith

join-cons : (sep : ℕ) (ps : List Bytes) → ps ≢ [] → join sep ([] ∷ ps) ≡ sep ∷ join sep ps
unfolding join
join-cons sep [] h = absurd (h refl)
join-cons sep (p ∷ ps) h = refl

pub join-split : (sep : ℕ) (s : Bytes) → join sep (split sep s) ≡ s
unfolding split join
join-split sep [] = refl
join-split sep (c ∷ s) = ground (
  arith,
  join-split sep s,
  join-cons sep (split sep s),
  join-cons_first sep c (split sep s),
  split-ne-nil sep s,
)

cons_first-IsFree :
    (sep c : ℕ) (ps : List Bytes)
    → c ≢ sep
    → All (IsFree sep) ps
    → All (IsFree sep) (cons_first c ps)
cons_first-IsFree sep c [] h k = ((h, tt), tt)
cons_first-IsFree sep c (p ∷ ps) h k = ((h, k.0), k.1)

pub split-IsFree : (sep : ℕ) (s : Bytes) → All (IsFree sep) (split sep s)
unfolding split
split-IsFree sep [] = (tt, tt)
split-IsFree sep (c ∷ s) = elim (Bool-cases (c == sep)) [
  | inl e ↦ rw e (tt, split-IsFree sep s)
  | inr e ↦ rw e (cons_first-IsFree sep c _ (ground arith) (split-IsFree sep s))
]

pub split-free : (sep : ℕ) (p : Bytes) → IsFree sep p → split sep p ≡ p ∷ []
unfolding split
split-free sep [] h = refl
split-free sep (c ∷ p) h = ground (arith, split-free sep p)

pub split-append :
    (sep : ℕ) (p s : Bytes) → IsFree sep p → split sep (p ++ sep ∷ s) ≡ p ∷ split sep s
unfolding split
split-append sep [] s h = ground arith
split-append sep (c ∷ p) s h = ground (arith, split-append sep p s)

-- Splitting what was joined gives the pieces back, if there are some and none holds the separator.
pub split-join :
    (sep : ℕ) (ps : List Bytes) → ps ≢ [] → All (IsFree sep) ps → split sep (join sep ps) ≡ ps
unfolding join
split-join sep [] h k = absurd (h refl)
split-join sep (p ∷ []) h k = split-free sep p k.0
split-join sep (p ∷ q ∷ ps) h k =
    split-append sep p (join sep (q ∷ ps)) k.0
    ∙ ap (λ l. p ∷ l) (split-join sep (q ∷ ps) (ground arith) k.1)
