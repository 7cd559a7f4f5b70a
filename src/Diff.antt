-- ===== src/Diff.antt =====
-- internal/diff: two texts compared, and ranges of versions. The comparison itself is a library's:
-- `diff_main` stands for DiffMain with DiffCleanupSemantic.
pub mod Ranges
use llmd.Prelude.{
  ℕ, ◌+◌, ◌-◌, ◌*◌, Bool, ◌||◌, List, [], ◌∷◌, ◌++◌, Bytes, codes, ltb, if◌then◌else◌, ◌≡◌, refl,
  is_empty, length, take, drop, Result, ok, err, ◌>>=◌, err_versions,
}
use llmd.Text.{split, has_prefix, trim_suffix}
use llmd.Text.Numbers.{ℤ, pos, int_ltb, atoi}

pub data Operation : Type 0 where
  diff_delete diff_insert diff_equal : Operation

-- diffmatchpatch.Diff
pub record Chunk : Type 0 where
  pub type : Operation
  pub text : Bytes

pub record DiffResult : Type 0 where
  pub old : Bytes
  pub new : Bytes
  pub diff : Bytes

abbrev pub newline : ℕ
newline = 10

abbrev pub context_lines : ℕ
context_lines = 3

-- a line with its mark
abbrev marked : Bytes → List Bytes → Bytes
marked mark [] = []
marked mark (l ∷ ls) = mark ++ (l ++ newline ∷ marked mark ls)

abbrev chunk_lines : Operation → List Bytes → Bytes
chunk_lines diff_delete lines = marked (codes "- ") lines
chunk_lines diff_insert lines = marked (codes "+ ") lines
chunk_lines diff_equal lines =
    if ltb (2 * context_lines) (length lines)
    then marked (codes "  ") (take context_lines lines)
      ++ (codes "  ...\n" ++ marked (codes "  ") (drop (length lines - context_lines) lines))
    else marked (codes "  ") lines

unfoldable pub format : List Chunk → Bytes
unfolding split trim_suffix
format [] = []
format (d ∷ ds) =
    let rest = format ds in
    let text = trim_suffix d.text (newline ∷ []) in
    if is_empty text then rest else chunk_lines d.type (split newline text) ++ rest

unfoldable pub compute : (Bytes → Bytes → List Chunk) → Bytes → Bytes → Bytes → Bytes → DiffResult
unfolding format
compute diff_main old new old_label new_label = record {
  old = old_label;
  new = new_label;
  diff = format (diff_main old new);
}

abbrev red : Bytes
red = 27 ∷ codes "[31m"

abbrev green : Bytes
green = 27 ∷ codes "[32m"

abbrev reset : Bytes
reset = 27 ∷ codes "[0m"

abbrev colour_lines : List Bytes → Bytes
unfolding has_prefix
colour_lines [] = []
colour_lines (line ∷ lines) =
    let rest = colour_lines lines in
    if is_empty line
    then rest
    else if has_prefix line (codes "- ")
    then red ++ (line ++ (reset ++ newline ∷ rest))
    else if has_prefix line (codes "+ ")
    then green ++ (line ++ (reset ++ newline ∷ rest))
    else line ++ newline ∷ rest

unfoldable pub colourise : Bytes → Bytes
unfolding split has_prefix
colourise d = colour_lines (split newline d)

unfoldable pub format_result : DiffResult → Bool → Bytes
unfolding colourise
format_result r colour =
    let header = codes "--- " ++ (r.old ++ (codes "\n+++ " ++ r.new ++ newline ∷ [])) in
    header ++ (if colour then colourise r.diff else r.diff)

-- the checks on the two numbers
abbrev pub check_versions : ℤ → ℤ → Result (ℤ × ℤ)
check_versions v1 v2 =
    if int_ltb v1 (pos 1)
    then err err_versions
    else if int_ltb v2 (pos 1)
    then err err_versions
    else if int_ltb v2 v1
    then err err_versions
    else ok (v1, v2)

abbrev pub version_range : List Bytes → Result (ℤ × ℤ)
unfolding atoi
version_range (a ∷ b ∷ []) =
    if is_empty a || is_empty b
    then err err_versions
    else do v1 ← atoi a; v2 ← atoi b; check_versions v1 v2
version_range _ = err err_versions

unfoldable pub parse_version_range : Bytes → Result (ℤ × ℤ)
unfolding split atoi
parse_version_range s = version_range (split b':' s)

format_test :
    format (
      record { type = diff_equal; text = codes "a\nb\n" }
      ∷ record { type = diff_delete; text = codes "c" }
      ∷ record { type = diff_insert; text = codes "d\n" }
      ∷ [])
    ≡ codes "  a\n  b\n- c\n+ d\n"
unfolding format
format_test = refl
