-- ===== src/Cat.antt =====
-- internal/cat: the lines of a document, or a range of them.
pub mod Scanned
pub mod Lines
use llmd.Prelude.{
  ℕ, zero, suc, ◌+◌, ◌-◌, ◌*◌, max, Bool, true, false, not, ◌&&◌, ◌||◌, List, [], ◌∷◌, ◌++◌, Bytes,
  codes, ltb, leb, ◌==◌, if◌then◌else◌, ◌≡◌, refl, length, Result, ok, err, err_io, ◌>>=◌,
}
use llmd.Text.{split, has_suffix}
use llmd.Text.Numbers.{itoa}
use llmd.Store.{Document, Db}
use llmd.Service.Read.{resolve, version}

-- cat.Options; 0 stands for what is not given
pub record Options : Type 0 where
  pub version : ℕ
  pub include_deleted : Bool
  pub line_numbers : Bool
  pub start_line : ℕ
  pub end_line : ℕ
  pub max_line_length : ℕ

abbrev pub newline : ℕ
newline = 10

abbrev carriage_return : ℕ
carriage_return = 13

-- bufio.ScanLines: the lines without their ends, and without an empty one after the last end
abbrev pub drop_last_empty : List Bytes → List Bytes
drop_last_empty [] = []
drop_last_empty ([] ∷ []) = []
drop_last_empty ((c ∷ l) ∷ []) = (c ∷ l) ∷ []
drop_last_empty (l ∷ k ∷ ls) = l ∷ drop_last_empty (k ∷ ls)

abbrev pub drop_cr : Bytes → Bytes
drop_cr [] = []
drop_cr (c ∷ []) = if c == carriage_return then [] else c ∷ []
drop_cr (c ∷ d ∷ s) = c ∷ drop_cr (d ∷ s)

-- strings.Count(s, "\n")
abbrev pub count_newlines : Bytes → ℕ
count_newlines [] = 0
count_newlines (c ∷ s) = let rest = count_newlines s in if c == newline then suc rest else rest

unfoldable pub ends_with_newline : Bytes → Bool
unfolding has_suffix
ends_with_newline s = has_suffix s (newline ∷ [])

unfoldable pub total_lines : Bytes → ℕ
unfolding ends_with_newline
total_lines s = if ends_with_newline s then count_newlines s + 1 - 1 else count_newlines s + 1

-- `%*d`
abbrev spaces : ℕ → Bytes
spaces zero = []
spaces (suc n) = 32 ∷ spaces n

abbrev padded : ℕ → ℕ → Bytes
padded width n = spaces (width - length (itoa n)) ++ itoa n

-- what one line prints
abbrev pub printed : Bool → ℕ → ℕ → Bool → ℕ → Bytes → Bytes
printed numbers width end trailing n line =
    (if numbers then padded width n ++ 9 ∷ line else line)
    ++ (if ltb n end || trailing then newline ∷ [] else [])

-- The loop over the scanner's lines, after `n` of them: what is printed, and the scanner's error. A
-- line does not fit if it fills the buffer.
abbrev pub scan_loop : ℕ → Bool → ℕ → ℕ → ℕ → Bool → ℕ → List Bytes → Bytes × Result (Unit {0})
scan_loop limit numbers width start end trailing n [] = ([], ok tt)
scan_loop limit numbers width start end trailing n (l ∷ ls) =
    let rest = scan_loop limit numbers width start end trailing (suc n) ls in
    if leb limit (length l)
    then ([], err err_io)
    else if ltb (suc n) start
    then rest
    else if ltb end (suc n)
    then ([], ok tt)
    else (printed numbers width end trailing (suc n) (drop_cr l) ++ rest.0, rest.1)

-- the buffer of the scanner: it begins with 64 KB
abbrev pub buffer_limit : ℕ → ℕ
buffer_limit max_line_length =
    max 65536 (if max_line_length == 0 then 10 * 1024 * 1024 else max_line_length)

-- the output for a content
unfoldable pub show_lines : Bytes → Options → Bytes × Result (Unit {0})
unfolding split total_lines
show_lines content opts =
    let total = total_lines content in
    let last = if ltb 0 opts.end_line && ltb opts.end_line total then opts.end_line else total in
    let start = if ltb 0 opts.start_line then opts.start_line else 1 in
    if opts.start_line == 0 && (opts.end_line == 0 && not opts.line_numbers)
    then (content, ok tt)
    else scan_loop (buffer_limit opts.max_line_length) opts.line_numbers
        (max 6 (length (itoa last))) start last (ends_with_newline content) 0
        (drop_last_empty (split newline content))

-- the document that is read
unfoldable pub document_for : Db → Bytes → Options → Result Document
document_for db path opts =
    if ltb 0 opts.version
    then version db path opts.version
    else (resolve db path opts.include_deleted >>= λ found. ok found.0)

-- the output, and what is returned
unfoldable pub run : Db → Bytes → Options → Bytes × Result Document
run db path opts = elim (document_for db path opts) [
  | err e ↦ ([], err e)
  | ok doc ↦ let out = show_lines doc.content opts in (out.0, out.1 >>= λ _. ok doc)
]

abbrev range : ℕ → ℕ → Options
range a b = record {
  version = 0;
  include_deleted = false;
  line_numbers = false;
  start_line = a;
  end_line = b;
  max_line_length = 0;
}

show_test :
    (show_lines (codes "a\nb\nc\nd") (range 2 3) ≡ (codes "b\nc", ok tt))
    × (show_lines (codes "a\nb\nc\n") (range 2 0) ≡ (codes "b\nc\n", ok tt))
    × (show_lines (codes "a\nb") (record (range 1 2) { line_numbers = true })
        ≡ (codes "     1\ta\n     2\tb", ok tt))
unfolding show_lines itoa
show_test = (refl, refl, refl)
