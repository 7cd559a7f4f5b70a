-- ===== src/Edit.antt =====
-- internal/edit: the text transformations of `llmd edit`.
pub mod Lines
pub mod Search
use llmd.Prelude.{
  ℕ, ◌+◌, ◌-◌, min, Bool, ◌&&◌, List, [], ◌∷◌, ◌++◌, none, some, Bytes, codes, ltb, if◌then◌else◌,
  ◌≡◌, refl, is_empty, length, take, drop, Result, ok, err, ◌>>=◌, err_text_not_found,
  err_line_range, err_start_line, err_end_line, err_beyond_end, panic,
}
use llmd.Text.{index, contains, split, join, trim_suffix}
use llmd.Text.Numbers.{ℤ, pos, int_ltb, is_zero, to_nat, atoi}
use llmd.Text.Replace.{splice, replace_first}

abbrev pub newline : ℕ
newline = 10

-- `to_lower` is strings.ToLower. The index it finds is used on the text as it was.
unfoldable pub replace : (Bytes → Bytes) → Bytes → Bytes → Bytes → Bool → Result Bytes
unfolding index contains replace_first
replace to_lower content old new case_insensitive =
    if case_insensitive
    then elim (index (to_lower content) (to_lower old)) [
      | none ↦ err err_text_not_found
      | some i ↦
          if ltb (length content) (i + length old)
          then err panic
          else ok (splice content i (length old) new)
    ]
    else if contains content old
    then ok (replace_first content old new)
    else err err_text_not_found

-- the lines that come in place of the range
unfoldable pub new_lines : Bytes → List Bytes
unfolding trim_suffix split
new_lines replacement =
    let text = trim_suffix replacement (newline ∷ []) in
    if is_empty text then [] else split newline text

unfoldable pub replace_lines : Bytes → ℤ → ℤ → Bytes → Result Bytes
unfolding split join new_lines
replace_lines content start end replacement =
    let lines = split newline content in
    let start = if is_zero start then pos 1 else start in
    let end = if is_zero end then pos (length lines) else end in
    if int_ltb start (pos 1)
    then err err_start_line
    else if int_ltb end start
    then err err_end_line
    else if int_ltb (pos (length lines)) start
    then err err_beyond_end
    else ok (
        join newline (
          take (to_nat start - 1) lines
          ++ new_lines replacement
          ++ drop (min (to_nat end) (length lines)) lines))

-- a bound of the range: 0 if it is left out
abbrev pub line_bound : Bytes → Result ℤ
unfolding atoi
line_bound s = if is_empty s then ok (pos 0) else elim (atoi s) [
  | err e ↦ err err_line_range
  | ok n ↦ if int_ltb n (pos 1) then err err_line_range else ok n
]

abbrev pub ordered : ℤ → ℤ → Result (ℤ × ℤ)
ordered start end =
    if int_ltb (pos 0) start && (int_ltb (pos 0) end && int_ltb end start)
    then err err_line_range
    else ok (start, end)

abbrev pub line_range : List Bytes → Result (ℤ × ℤ)
unfolding atoi
line_range (a ∷ b ∷ []) =
    if is_empty a && is_empty b
    then err err_line_range
    else do start ← line_bound a; end ← line_bound b; ordered start end
line_range _ = err err_line_range

unfoldable pub parse_line_range : Bytes → Result (ℤ × ℤ)
unfolding split atoi
parse_line_range s = line_range (split b':' s)

range_test :
    (parse_line_range (codes "5:10") ≡ ok (pos 5, pos 10))
    × (parse_line_range (codes ":3") ≡ ok (pos 0, pos 3))
    × (parse_line_range (codes "7:2") ≡ err err_line_range)
    × (parse_line_range (codes ":") ≡ err err_line_range)
unfolding parse_line_range
range_test = (refl, refl, refl, refl)

lines_test : replace_lines (codes "a\nb\nc") (pos 2) (pos 9) (codes "x\ny\n") ≡ ok (codes "a\nx\ny")
unfolding replace_lines
lines_test = refl
