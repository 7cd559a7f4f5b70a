-- ===== src/Glob.antt =====
-- internal/glob: patterns of paths. filepath.Match is written by its documented syntax and as Go
-- runs it. A text is the list of its characters here, which for ASCII are its bytes.
pub mod Pattern
pub mod Under
use llmd.Prelude.{
  ℕ, Bool, true, false, not, ◌&&◌, ◌||◌, List, [], ◌∷◌, Bytes, codes, is_empty, ◌==◌, if◌then◌else◌,
  Result, ok, ◌>>=◌, ◌≡◌, refl,
}
use llmd.Text.{has_prefix, trim_prefix, trim_suffix, contains, split, join, cons_first}
use llmd.Path.{slash}
use llmd.Path.Names.{base}
use llmd.Glob.Pattern.{match_path}

abbrev pub star_char : ℕ
star_char = b'*'

-- strings.Split at "**"
unfoldable pub split_stars : Bytes → List Bytes
split_stars [] = [] ∷ []
split_stars (c ∷ []) = (c ∷ []) ∷ []
split_stars (c ∷ d ∷ s) =
    let rest = [] ∷ split_stars s in
    let more = cons_first c (split_stars (d ∷ s)) in
    if c == star_char && d == star_char then rest else more

-- the suffix of a pattern against each segment, and against the path from there on
unfoldable pub match_segments : Bytes → List Bytes → Result Bool
unfolding match_path join
match_segments suf [] = ok false
match_segments suf (seg ∷ segs) = do
  tail ← match_path suf (join slash (seg ∷ segs))
  alone ← match_path suf seg
  rest ← match_segments suf segs
  ok (tail || (alone || rest))

-- A pattern with one `**`.
unfoldable pub match_around : Bytes → Bytes → Bytes → Result Bool
unfolding has_prefix trim_prefix trim_suffix split match_segments
match_around before after path =
    let pre = trim_suffix before (slash ∷ []) in
    let suf = trim_prefix after (slash ∷ []) in
    if not (is_empty pre) && not (has_prefix path pre)
    then ok false
    else if is_empty suf
    then ok true
    else match_segments suf (split slash path)

-- A pattern for the whole path, or its last element.
unfoldable pub match_plain : Bytes → Bytes → Result Bool
unfolding match_path base
match_plain pattern path = do
  whole ← match_path pattern path
  if whole then ok true else match_path pattern (base path)

abbrev match_parts : List Bytes → Bytes → Bytes → Result Bool
match_parts (before ∷ after ∷ []) pattern path = match_around before after path
match_parts _ pattern path = match_plain pattern path

-- Match
unfoldable pub glob_match : Bytes → Bytes → Result Bool
unfolding trim_suffix contains split_stars match_around match_plain
glob_match pattern path =
    let p = trim_suffix pattern (codes ".md") in
    if contains p (codes "**") then match_parts (split_stars p) p path else match_plain p path

glob_match_test :
    (glob_match (codes "docs/**") (codes "docs/api/v1") ≡ ok true)
    × (glob_match (codes "**/document*") (codes "a/b/document2") ≡ ok true)
    × (glob_match (codes "docs/**/api*") (codes "docs/v1/api-ref") ≡ ok true)
    × (glob_match (codes "docs/**/api*") (codes "other/api-main") ≡ ok false)
    × (glob_match (codes "doc?") (codes "document") ≡ ok false)
    × (glob_match (codes "test.md") (codes "x/test") ≡ ok true)
    × (glob_match (codes "docs/**") (codes "docs-old/x") ≡ ok true)
unfolding glob_match
glob_match_test = (refl, refl, refl, refl, refl, refl, refl)
