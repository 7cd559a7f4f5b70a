-- ===== src/Text.antt =====
-- What the program uses of Go's `strings` package, on byte sequences.
pub mod Split
pub mod Affix
pub mod Numbers
pub mod Replace
use llmd.Prelude.{
  ℕ, suc, Bool, true, false, ◌&&◌, ◌||◌, List, [], ◌∷◌, ◌++◌, Option, none, some, Bytes, str_eq,
  length, drop, map, ◌==◌, if◌then◌else◌,
}

unfoldable pub has_prefix : Bytes → Bytes → Bool
has_prefix s [] = true
has_prefix [] (p ∷ pre) = false
has_prefix (c ∷ s) (p ∷ pre) = c == p && has_prefix s pre

unfoldable pub trim_prefix : Bytes → Bytes → Bytes
unfolding has_prefix
trim_prefix s pre = if has_prefix s pre then drop (length pre) s else s

unfoldable pub has_suffix : Bytes → Bytes → Bool
unfolding str_eq
has_suffix [] suf = str_eq [] suf
has_suffix (c ∷ s) suf = str_eq (c ∷ s) suf || has_suffix s suf

unfoldable pub trim_suffix : Bytes → Bytes → Bytes
unfolding str_eq
trim_suffix [] suf = []
trim_suffix (c ∷ s) suf =
    let rest = c ∷ trim_suffix s suf in if str_eq (c ∷ s) suf then [] else rest

-- strings.Index; `none` is -1
unfoldable pub index : Bytes → Bytes → Option ℕ
unfolding has_prefix
index [] sub = if has_prefix [] sub then some 0 else none
index (c ∷ s) sub =
    if has_prefix (c ∷ s) sub
    then some 0
    else elim (index s sub) [ none ↦ none | some i ↦ some (suc i) ]

unfoldable pub contains : Bytes → Bytes → Bool
unfolding has_prefix
contains [] sub = has_prefix [] sub
contains (c ∷ s) sub = has_prefix (c ∷ s) sub || contains s sub

-- strings.ContainsRune for an ASCII rune, and slices.Contains
unfoldable pub contains_byte : Bytes → ℕ → Bool
contains_byte [] b = false
contains_byte (c ∷ s) b = c == b || contains_byte s b

unfoldable pub contains_line : List Bytes → Bytes → Bool
contains_line [] s = false
contains_line (l ∷ ls) s = str_eq l s || contains_line ls s

-- strings.ReplaceAll for one byte by another
unfoldable pub replace_byte : ℕ → ℕ → Bytes → Bytes
replace_byte a b = map (λ c. if c == a then b else c)

abbrev pub cons_first : ℕ → List Bytes → List Bytes
cons_first c [] = (c ∷ []) ∷ []
cons_first c (p ∷ ps) = (c ∷ p) ∷ ps

-- strings.Split at a separator of one byte
unfoldable pub split : ℕ → Bytes → List Bytes
split sep [] = [] ∷ []
split sep (c ∷ s) = let rest = split sep s in if c == sep then [] ∷ rest else cons_first c rest

-- strings.Join with a separator of one byte
unfoldable pub join : ℕ → List Bytes → Bytes
join sep [] = []
join sep (p ∷ []) = p
join sep (p ∷ q ∷ ps) = p ++ sep ∷ join sep (q ∷ ps)
