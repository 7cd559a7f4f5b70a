-- ===== src/Glob/Under.antt =====
-- What a pattern that ends in `/**` matches.
use llmd.Prelude.{
  ℕ, true, false, ◌||◌, [], ◌∷◌, ◌++◌, Bytes, codes, str_eq, str_eq→eq, is_empty, length,
  length-append, ok, ◌≡◌, refl, ap, arith, Bool-cases, inl, inr,
}
use llmd.Text.{has_prefix, has_suffix, contains}
use llmd.Text.Affix.{trim_suffix-append, trim_suffix-none}
use llmd.Text.Split.{IsFree}
use llmd.Path.{slash}
use llmd.Glob.{star_char, split_stars, match_around, glob_match}

abbrev pub below : Bytes
below = codes "/**"

longer-ne : (c : ℕ) (pre : Bytes) → str_eq (c ∷ (pre ++ below)) (codes ".md") ≡ false
longer-ne c pre = elim (Bool-cases (str_eq (c ∷ (pre ++ below)) (codes ".md"))) [
  | inl e ↦ absurd (omega (arith, length-append pre below, ap length (str_eq→eq _ _ e)))
  | inr e ↦ e
]

no_md : (pre : Bytes) → has_suffix (pre ++ below) (codes ".md") ≡ false
unfolding has_suffix
no_md [] = unfold str_eq in refl
no_md (c ∷ pre) = rw (longer-ne c pre) (no_md pre)

has_stars : (pre : Bytes) → contains (pre ++ below) (codes "**") ≡ true
unfolding contains has_prefix
has_stars [] = refl
has_stars (c ∷ pre) = ground (arith, has_stars pre)

split-below :
    (pre : Bytes)
    → IsFree star_char pre
    → split_stars (pre ++ below) ≡ (pre ++ slash ∷ []) ∷ [] ∷ []
unfolding split_stars
split-below [] h = refl
split-below (c ∷ []) h = ground (arith, h.0)
split-below (c ∷ d ∷ pre) h = ground (arith, h.0, split-below (d ∷ pre) h.1)

around :
    (pre path : Bytes)
    → match_around (pre ++ slash ∷ []) [] path ≡ ok (is_empty pre || has_prefix path pre)
unfolding match_around
around pre path = rw (trim_suffix-append pre (slash ∷ []) (cc)) (ground arith)

-- A pattern of a prefix without stars and `/**` matches every path that begins with the prefix,
-- whether or not the prefix ends at a slash there, and no other.
pub glob_match-below :
    (pre path : Bytes)
    → IsFree star_char pre
    → glob_match (pre ++ below) path ≡ ok (is_empty pre || has_prefix path pre)
unfolding glob_match
glob_match-below pre path h =
    rw
      (
        trim_suffix-none (pre ++ below) (codes ".md") (cc) (no_md pre),
        has_stars pre,
        split-below pre h,
      )
      (around pre path)
