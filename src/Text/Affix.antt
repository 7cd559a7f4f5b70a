-- ===== src/Text/Affix.antt =====
-- Prefixes, suffixes and occurrences, against concatenation.
use native.Mathlib.Nat.{suc-add}
use llmd.Prelude.{
  ℕ, ◌+◌, ◌≡◌, ◌≢◌, refl, ap, inl, inr, true, false, [], ◌∷◌, ◌++◌, none, some, Bytes, str_eq,
  str_eq→eq, str_eq_refl, length, length-append, take, drop, arith, Bool-cases, Option-cases,
}
use llmd.Text.{has_prefix, has_suffix, trim_suffix, index, contains}

pub has_prefix-append : (p s : Bytes) → has_prefix (p ++ s) p ≡ true
unfolding has_prefix
has_prefix-append [] s = refl
has_prefix-append (c ∷ p) s = ground (arith, has_prefix-append p s)

pub has_prefix→split : (s p : Bytes) → has_prefix s p ≡ true → s ≡ p ++ drop (length p) s
unfolding has_prefix
has_prefix→split s [] h = refl
has_prefix→split [] (b ∷ p) h = cc
has_prefix→split (c ∷ s) (b ∷ p) h = ground (arith, has_prefix→split s p)

-- `contains` and `index` agree.
pub contains-index : (s sub : Bytes) → contains s sub ≡ false → index s sub ≡ none
unfolding contains index
contains-index [] sub h = ground arith
contains-index (c ∷ s) sub h = ground (arith, contains-index s sub)

pub index-contains : (s sub : Bytes) → index s sub ≡ none → contains s sub ≡ false
unfolding contains index
index-contains [] sub h = ground arith
index-contains (c ∷ s) sub h = ground (arith, index-contains s sub)

-- At the index that is found the text reads: what is before, the search text, what is after.
pub index→split :
    (s sub : Bytes) (i : ℕ) → index s sub ≡ some i → s ≡ take i s ++ sub ++ drop (i + length sub) s
unfolding index
index→split [] [] i h = ground arith
index→split [] (b ∷ sub) i h = unfold has_prefix in cc
index→split (c ∷ s) sub i h = elim (Bool-cases (has_prefix (c ∷ s) sub)) [
  | inl e ↦ ground (arith, has_prefix→split (c ∷ s) sub)
  | inr e ↦ elim (Option-cases (index s sub)) [
    | inl none_left ↦ ground arith
    | inr (j, found) ↦ ground (arith, index→split s sub j, suc-add j (length sub))
  ]
]

-- A suffix that was put there is taken off again.
pub trim_suffix-append : (s suf : Bytes) → suf ≢ [] → trim_suffix (s ++ suf) suf ≡ s
unfolding trim_suffix
trim_suffix-append [] [] h = refl
trim_suffix-append [] (b ∷ suf) h = rw (str_eq_refl (b ∷ suf))
trim_suffix-append (c ∷ s) suf h = elim (Bool-cases (str_eq (c ∷ s ++ suf) suf)) [
  | inl e ↦
      absurd (omega (arith, length-append (c ∷ s) suf, ap length (str_eq→eq (c ∷ s ++ suf) suf e)))
  | inr e ↦ ground (arith, trim_suffix-append s suf h)
]

-- A suffix that is not there is not taken off.
pub trim_suffix-none : (s suf : Bytes) → suf ≢ [] → has_suffix s suf ≡ false → trim_suffix s suf ≡ s
unfolding trim_suffix has_suffix
trim_suffix-none [] suf h k = refl
trim_suffix-none (c ∷ s) suf h k = ground (arith, trim_suffix-none s suf h)
