-- ===== src/Tests/Texts.antt =====
-- The properties of texts, ranges and paths at concrete inputs.
use llmd.Prelude.{
  Bool, All, ◌+◌, [], ◌*◌, ◌-◌, ◌^◌, take, drop, ◌≡◌, refl, true, false, codes, ok, err, ltb, leb,
  if◌then◌else◌, ◌∷◌, ◌++◌, map, length, Bytes, is_empty, str_eq, arith, err_end_line,
  err_beyond_end,
}
use llmd.Sql.{fold_case}
use llmd.Text.{split, join, contains, contains_byte}
use llmd.Text.Numbers.{pos, is_zero, itoa}
use llmd.Path.{normalise, dot, dot_dot, backslash}
use llmd.Path.Safe.{normalise-IsSafe}
use llmd.Edit.{replace, replace_lines, parse_line_range, newline}
use llmd.Edit.Search.{Describes, folding, replace-Describes}
use llmd.Edit.Lines.{first_line, kept_lines, lines_of, parse_line_range-IsRange, replace_lines-kept}
use llmd.Sed.{Expr, parse_expr}
use llmd.Sed.Quoting.{write_expr, parse_expr-write_expr}
use llmd.Duration
use llmd.Duration.{hour, wrap}
use llmd.Duration.Exact.{parse-itoa}
use llmd.Cat
use llmd.Cat.{show_lines, drop_cr, ends_with_newline}
use llmd.Cat.Scanned.{scanned}
use llmd.Cat.Lines.{block, last_shown, show_lines-range}
use llmd.Grep.{match_lines}
use llmd.Grep.Matches.{IsMatch, match_lines-partition}

replace-Describes_example :
    Describes
      (folding fold_case true)
      (codes "say Hello")
      (codes "HELLO")
      (codes "bye")
      (replace (map fold_case) (codes "say Hello") (codes "HELLO") (codes "bye") true)
replace-Describes_example =
    replace-Describes fold_case (codes "say Hello") (codes "HELLO") (codes "bye") true

replace_test :
    replace (map fold_case) (codes "say Hello") (codes "HELLO") (codes "bye") true
    ≡ ok (codes "say bye")
unfolding replace fold_case
replace_test = refl

two_to_three : parse_line_range (codes "2:3") ≡ ok (pos 2, pos 3)
unfolding parse_line_range
two_to_three = refl

abbrev text : Bytes
text = codes "a\nb\nc\nd"

replace_lines-kept_example :
    (replace_lines text (pos 2) (pos 3) (codes "x\n") ≡ (
      if leb (first_line (pos 2)) (length (split newline text))
      then ok (join newline (kept_lines text (pos 2) (pos 3) (codes "x\n")))
      else err (if is_zero (pos 3) then err_end_line else err_beyond_end)))
    × (split newline (join newline (kept_lines text (pos 2) (pos 3) (codes "x\n")))
        ≡ lines_of (kept_lines text (pos 2) (pos 3) (codes "x\n")))
replace_lines-kept_example =
    replace_lines-kept text (codes "x\n") (pos 2) (pos 3)
      (parse_line_range-IsRange (codes "2:3") two_to_three)

abbrev expr : Expr
expr = record { old = codes "a/b"; new = codes "c\\d"; global = true }

parse_expr-write_expr_example : parse_expr (write_expr b'/' expr) ≡ ok expr
parse_expr-write_expr_example = parse_expr-write_expr b'/' expr (ground arith) (ground arith)

write_test : write_expr b'/' expr ≡ codes "s/a\\/b/c\\\\d/g"
unfolding write_expr
write_test = refl

readme : normalise (codes "/docs\\a/../readme.md") ≡ ok (codes "docs/readme")
unfolding normalise
readme = refl

normalise-IsSafe_example :
    (is_empty (codes "docs/readme") ≡ false)
    × (str_eq (codes "docs/readme") dot ≡ false)
    × (contains (codes "docs/readme") dot_dot ≡ false)
    × (contains_byte (codes "docs/readme") backslash ≡ false)
normalise-IsSafe_example = normalise-IsSafe (codes "/docs\\a/../readme.md") readme

parse-itoa_example :
    Duration.parse (itoa 200000 ++ b'd' ∷ [])
    ≡ ok (
        if ltb (200000 * 1 * 24 * hour) (2 ^ 63)
        then pos (200000 * 1 * 24 * hour)
        else wrap (200000 * 1 * 24 * hour))
parse-itoa_example = parse-itoa 200000 b'd' 1 (omega arith) refl

abbrev two_on : Cat.Options
two_on = record {
  version = 0;
  include_deleted = false;
  line_numbers = false;
  start_line = 2;
  end_line = 3;
  max_line_length = 0;
}

show_lines-range_example : show_lines text two_on ≡ (
  block (ends_with_newline text) (
      take
        (last_shown two_on (length (scanned text)) - (2 - 1))
        (map drop_cr (drop (2 - 1) (scanned text)))),
  ok tt,
)
unfolding split
show_lines-range_example =
    show_lines-range b'a' (codes "\nb\nc\nd") two_on refl (omega arith)
      (refl, (refl, (refl, (refl, tt))))

-- a line with an x
abbrev has_x : Bytes → Bool
unfolding contains_byte
has_x l = contains_byte l 120

abbrev searched : Bytes
searched = codes "axe\r\nbed\nx"

match_lines-partition_example :
    ((match_lines has_x searched false 0).1 ≡ ok tt)
    × ((match_lines has_x searched true 0).1 ≡ ok tt)
    × (All (IsMatch has_x false 0 (scanned searched)) (match_lines has_x searched false 0).0)
    × (All (IsMatch has_x true 0 (scanned searched)) (match_lines has_x searched true 0).0)
    × (length (match_lines has_x searched false 0).0 + length (match_lines has_x searched true 0).0
        ≡ length (scanned searched))
unfolding split contains_byte
match_lines-partition_example = match_lines-partition has_x searched 0 (refl, (refl, (refl, tt)))

match_lines_test : match_lines has_x searched false 0 ≡ (
  record { line = 1; content = codes "axe" } ∷ record { line = 3; content = codes "x" } ∷ [],
  ok tt,
)
unfolding match_lines split contains_byte
match_lines_test = refl
