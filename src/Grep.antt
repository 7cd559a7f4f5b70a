-- ===== src/Grep.antt =====
-- internal/grep: the lines of documents that match. A regular expression is an argument, as the
-- test that it makes on a line.
pub mod Matches
use llmd.Prelude.{
  ℕ, zero, suc, ◌+◌, ◌-◌, min, Bool, true, false, not, ◌&&◌, List, [], ◌∷◌, ◌++◌, none, some,
  get_elem?, Bytes, codes, leb, ltb, ◌==◌, if◌then◌else◌, ◌≡◌, refl, length, Result, ok, err,
  err_io, ◌>>=◌,
}
use llmd.Text.{split, contains_byte}
use llmd.Text.Numbers.{itoa}
use llmd.Path.{direct}
use llmd.Store.{Document, Db}
use llmd.Service.Read.{list}
use llmd.Cat.{newline, drop_last_empty, drop_cr, buffer_limit}

-- grep.Options, less IgnoreCase, which is a flag of the expression
pub record Options : Type 0 where
  pub path : Bytes
  pub recursive : Bool
  pub include_all : Bool
  pub deleted_only : Bool
  pub paths_only : Bool
  pub invert : Bool
  pub context : ℕ
  pub count_only : Bool
  pub max_line_length : ℕ

pub record Match : Type 0 where
  pub line : ℕ
  pub content : Bytes

pub record DocMatch : Type 0 where
  pub document : Document
  pub matches : List Match

abbrev pub differs : Bool → Bool → Bool
differs true b = not b
differs false b = b

-- The loop over the scanner's lines, after `n` of them.
abbrev pub match_loop : (Bytes → Bool) → Bool → ℕ → ℕ → List Bytes → List Match × Result (Unit {0})
match_loop re invert limit n [] = ([], ok tt)
match_loop re invert limit n (l ∷ ls) =
    let rest = match_loop re invert limit (suc n) ls in
    let line = drop_cr l in
    if leb limit (length l)
    then ([], err err_io)
    else if differs (re line) invert
    then (record { line = suc n; content = line } ∷ rest.0, rest.1)
    else rest

unfoldable pub match_lines : (Bytes → Bool) → Bytes → Bool → ℕ → List Match × Result (Unit {0})
unfolding split
match_lines re content invert max_line_length =
    match_loop re invert (buffer_limit max_line_length) 0 (drop_last_empty (split newline content))

abbrev filter_direct : Bytes → List Document → List Document
filter_direct pre [] = []
filter_direct pre (d ∷ docs) =
    let rest = filter_direct pre docs in if direct d.path pre then d ∷ rest else rest

abbrev add_hit : Document → List Match → List DocMatch → List DocMatch
add_hit doc [] hits = hits
add_hit doc (m ∷ ms) hits = record { document = doc; matches = m ∷ ms } ∷ hits

-- the documents with their matches; the first document with a line that is too long ends the search
abbrev search_documents : (Bytes → Bool) → Options → List Document → Result (List DocMatch)
search_documents re opts [] = ok []
search_documents re opts (d ∷ docs) = do
  let found = match_lines re d.content opts.invert opts.max_line_length
  matched ← found.1
  rest ← search_documents re opts docs
  ok (add_hit d found.0 rest)

unfoldable pub hits : (Bytes → Bool) → Db → Options → Result (List DocMatch)
unfolding direct
hits re db opts = do
  docs ← list db opts.path opts.include_all opts.deleted_only
  search_documents re opts (if opts.recursive then docs else filter_direct opts.path docs)

abbrev text_at : List Bytes → ℕ → Bytes
text_at lines i = elim (get_elem? lines i) [ none ↦ [] | some l ↦ l ]

-- path, separator, number, separator, line
abbrev context_row : Bytes → Bytes → ℕ → Bytes → Bytes
context_row path sep n line = path ++ (sep ++ (itoa n ++ (sep ++ (line ++ newline ∷ []))))

-- the lines around one match, `count` of them from index `i`; `printed` holds the indices before
unfoldable pub around : Bytes → List Bytes → ℕ → List ℕ → ℕ → ℕ → List ℕ × Bytes
unfolding contains_byte
around path lines match_line printed i zero = (printed, [])
around path lines match_line printed i (suc count) =
    let skipped = around path lines match_line printed (suc i) count in
    let rest = around path lines match_line (i ∷ printed) (suc i) count in
    let sep = if suc i == match_line then codes ":" else codes "-" in
    if contains_byte printed i
    then skipped
    else (rest.0, context_row path sep (suc i) (text_at lines i) ++ rest.1)

unfoldable pub context_output : Bytes → List Bytes → ℕ → List ℕ → Bool → List Match → Bytes
unfolding around contains_byte
context_output path lines context printed need_sep [] = []
context_output path lines context printed need_sep (m ∷ ms) =
    let start = m.line - context - 1 in
    let end = min (m.line + context) (length lines) in
    let out = around path lines m.line printed start (end - start) in
    let rest = context_output path lines context out.0 true ms in
    (if need_sep && not (contains_byte printed start) then codes "--\n" else []) ++ (out.1 ++ rest)

abbrev plain_output : Bytes → List Match → Bytes
plain_output path [] = []
plain_output path (m ∷ ms) =
    path
    ++ (codes ":" ++ (itoa m.line ++ (codes ":" ++ (m.content ++ newline ∷ plain_output path ms))))

abbrev pub hit_output : Options → DocMatch → Bytes
unfolding split context_output
hit_output opts h =
    if opts.paths_only
    then h.document.path ++ newline ∷ []
    else if opts.count_only
    then h.document.path ++ (codes ":" ++ (itoa (length h.matches) ++ newline ∷ []))
    else if ltb 0 opts.context
    then context_output h.document.path (split newline h.document.content) opts.context [] false
        h.matches
    else plain_output h.document.path h.matches

unfoldable pub output : Options → List DocMatch → Bytes
unfolding context_output
output opts [] = []
output opts (h ∷ hs) = hit_output opts h ++ output opts hs

abbrev at_line : ℕ → Match
at_line n = record { line = n; content = [] }

-- A match that is shown around an earlier one bears the mark of a context line.
overlap_test :
    context_output
      (codes "p")
      (codes "x" ∷ codes "y" ∷ codes "z" ∷ [])
      1
      []
      false
      (at_line 1 ∷ at_line 2 ∷ [])
    ≡ codes "p:1:x\np-2-y\np-3-z\n"
unfolding context_output itoa
overlap_test = refl
