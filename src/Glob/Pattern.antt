-- ===== src/Glob/Pattern.antt =====
-- filepath.Match: `*` for any run of characters but `/`, `?` for one of them, `[a-z]` and `[^a-z]` for
-- one character in or out of the ranges, and `\` before a character that stands for itself.
use llmd.Prelude.{
  ℕ, Bool, true, false, not, ◌&&◌, ◌||◌, List, [], ◌∷◌, ◌++◌, Option, none, some, Bytes, codes,
  is_empty, leb, ◌==◌, if◌then◌else◌, Result, ok, err, err_bad_pattern, ◌≡◌, refl,
}
use llmd.Text.{contains_byte}

abbrev slash : ℕ
slash = b'/'

abbrev escape : ℕ
escape = 92

pub data Token : Type 0 where
  star any : Token
  literal : ℕ → Token
  class : (negated : Bool) (ranges : List (ℕ × ℕ)) → Token

-- Where the reader of a pattern is: outside of a class, after a backslash there, after `[`, at the
-- low end of a range, after a backslash there, after a low end, at a high end, after a backslash.
pub data Reader : Type 0 where
  outside escaped opened : Reader
  low low_escaped : (negated : Bool) (ranges : List (ℕ × ℕ)) → Reader
  after_low high high_escaped : (negated : Bool) (ranges : List (ℕ × ℕ)) (lo : ℕ) → Reader

-- The next state, with the tokens that are complete; `none` is ErrBadPattern.
abbrev Next : Type 0
Next = Option (List Token × Reader)

read_outside : ℕ → Next
read_outside c =
    if c == b'*'
    then some (star ∷ [], outside)
    else if c == b'?'
    then some (any ∷ [], outside)
    else if c == b'['
    then some ([], opened)
    else if c == escape
    then some ([], escaped)
    else some (literal c ∷ [], outside)

-- A class ends with `]`, but not before its first range.
abbrev has_range : List (ℕ × ℕ) → Bool
has_range [] = false
has_range _ = true

read_low : Bool → List (ℕ × ℕ) → ℕ → Next
read_low negated ranges c =
    if c == b']' && has_range ranges
    then some (class negated ranges ∷ [], outside)
    else if c == b']' || c == b'-'
    then none
    else if c == escape
    then some ([], low_escaped negated ranges)
    else some ([], after_low negated ranges c)

step : Reader → ℕ → Next
unfolding read_outside read_low
step outside c = read_outside c
step escaped c = some (literal c ∷ [], outside)
step opened c = if c == b'^' then some ([], low true []) else read_low false [] c
step (low negated ranges) c = read_low negated ranges c
step (low_escaped negated ranges) c = some ([], after_low negated ranges c)
step (after_low negated ranges lo) c =
    if c == b'-' then some ([], high negated ranges lo) else read_low negated ((lo, lo) ∷ ranges) c
step (high negated ranges lo) c =
    if c == b']' || c == b'-'
    then none
    else if c == escape
    then some ([], high_escaped negated ranges lo)
    else some ([], low negated ((lo, c) ∷ ranges))
step (high_escaped negated ranges lo) c = some ([], low negated ((lo, c) ∷ ranges))

-- Only outside of a class can a pattern end.
abbrev at_end : Reader → Option (List Token)
at_end outside = some []
at_end _ = none

abbrev with_tokens : List Token → Option (List Token) → Option (List Token)
with_tokens ts none = none
with_tokens ts (some rest) = some (ts ++ rest)

unfoldable pub read_pattern : Reader → Bytes → Option (List Token)
unfolding step
read_pattern r [] = at_end r
read_pattern r (c ∷ p) = elim (step r c) [
  | none ↦ none
  | some (ts, r') ↦ with_tokens ts (read_pattern r' p)
]

abbrev in_ranges : List (ℕ × ℕ) → ℕ → Bool
in_ranges [] c = false
in_ranges ((lo, hi) ∷ ranges) c = (leb lo c && leb c hi) || in_ranges ranges c

abbrev one_matches : Token → ℕ → Bool
one_matches star c = false
one_matches any c = not (c == slash)
one_matches (literal l) c = l == c
one_matches (class negated ranges) c =
    if negated then not (in_ranges ranges c) else in_ranges ranges c

-- matchChunk: tokens without a star at the start of a name; the rest of it.
unfoldable pub match_chunk : List Token → Bytes → Option Bytes
match_chunk [] s = some s
match_chunk (t ∷ ts) [] = none
match_chunk (t ∷ ts) (c ∷ s) = let rest = match_chunk ts s in if one_matches t c then rest else none

-- The last chunk has to leave nothing.
abbrev accepted : Bool → Option Bytes → Bool
accepted last none = false
accepted last (some t) = is_empty t || not last

-- The first place where a chunk is accepted, with no `/` skipped.
unfoldable pub seek_chunk : List Token → Bool → Bytes → Option Bytes
unfolding match_chunk
seek_chunk ts last [] = if accepted last (match_chunk ts []) then match_chunk ts [] else none
seek_chunk ts last (c ∷ s) =
    let rest = seek_chunk ts last s in
    if accepted last (match_chunk ts (c ∷ s))
    then match_chunk ts (c ∷ s)
    else if c == slash
    then none
    else rest

-- scanChunk: whether a star stands before the chunk, and the chunk.
pub record Chunk : Type 0 where
  pub starred : Bool
  pub tokens : List Token

abbrev add_token : Token → List Chunk → List Chunk
add_token star [] = record { starred = true; tokens = [] } ∷ []
add_token star (k ∷ ks) = if k.starred then k ∷ ks else record k { starred = true } ∷ ks
add_token t [] = record { starred = false; tokens = t ∷ [] } ∷ []
add_token t (k ∷ ks) =
    if k.starred
    then record { starred = false; tokens = t ∷ [] } ∷ k ∷ ks
    else record k { tokens = t ∷ k.tokens } ∷ ks

unfoldable pub chunks : List Token → List Chunk
chunks [] = []
chunks (t ∷ ts) = add_token t (chunks ts)

abbrev is_last : List Chunk → Bool
is_last [] = true
is_last _ = false

abbrev is_empty_tokens : List Token → Bool
is_empty_tokens [] = true
is_empty_tokens _ = false

unfoldable pub match_chunks : List Chunk → Bytes → Bool
unfolding match_chunk seek_chunk contains_byte
match_chunks [] s = is_empty s
match_chunks (k ∷ ks) s =
    let here = match_chunk k.tokens s in
    let found =
      if k.starred
      then seek_chunk k.tokens (is_last ks) s
      else if accepted (is_last ks) here
      then here
      else none in
    if k.starred && is_empty_tokens k.tokens
    then not (contains_byte s slash)
    else elim found [ none ↦ false | some t ↦ match_chunks ks t ]

unfoldable pub match_path : Bytes → Bytes → Result Bool
unfolding read_pattern chunks match_chunks
match_path pattern name = elim (read_pattern outside pattern) [
  | none ↦ err err_bad_pattern
  | some ts ↦ ok (match_chunks (chunks ts) name)
]

match_path_test :
    (match_path (codes "doc*") (codes "document") ≡ ok true)
    × (match_path (codes "a/*b?") (codes "a/xbby") ≡ ok true)
    × (match_path (codes "*") (codes "a/b") ≡ ok false)
    × (match_path (codes "[^a-c]\\*") (codes "d*") ≡ ok true)
    × (match_path (codes "[]a]") (codes "a") ≡ err err_bad_pattern)
    × (match_path (codes "a[") (codes "b") ≡ err err_bad_pattern)
unfolding match_path
match_path_test = (refl, refl, refl, refl, refl, refl)
