-- ===== src/Gitignore.antt =====
-- internal/repo/repo_gitignore.go: which databases git leaves alone. A text is what the file
-- .gitignore holds; that there is one, and the discovery of its directory, are left out.
pub mod Lines
use llmd.Prelude.{
  ℕ, ◌+◌, Bool, true, false, not, ◌||◌, List, [], ◌∷◌, ◌++◌, map, Option, none, some, Bytes, codes,
  str_eq, is_empty, length, take, drop, leb, ◌==◌, ◌&&◌, if◌then◌else◌, ◌≡◌, refl,
}
use mathlib.Core.List.{reverse}
use llmd.Sql.{select}
use llmd.Text.{split, join, index, contains, contains_line, has_suffix, trim_suffix}

abbrev pub newline : ℕ
newline = 10

abbrev pub local_db_header : Bytes
local_db_header = codes "# Local databases (not committed)"

-- DBFileName
unfoldable pub db_file_name : Bytes → Bytes
unfolding has_suffix
db_file_name name =
    if is_empty name
    then codes "llmd.db"
    else if has_suffix name (codes ".db")
    then name
    else codes "llmd-" ++ (name ++ codes ".db")

-- unicode.IsSpace, by the bytes of the character: one, two or three
abbrev is_space : ℕ → Bool
is_space c = c == 32 || (leb 9 c && leb c 13)

abbrev is_space2 : ℕ → ℕ → Bool
is_space2 c d = c == 194 && (d == 133 || d == 160)

-- U+1680, U+2000 to U+200A, U+2028, U+2029, U+202F, U+205F and U+3000
abbrev is_space3 : ℕ → ℕ → ℕ → Bool
is_space3 c d e =
    (c == 225 && (d == 154 && e == 128))
    || ((c == 226
          && ((d == 128 && ((leb 128 e && leb e 138) || (e == 168 || (e == 169 || e == 175))))
              || (d == 129 && e == 159)))
        || (c == 227 && (d == 128 && e == 128)))

-- The spaces in front, by the tests on two and three bytes.
abbrev drop_spaces : (ℕ → ℕ → Bool) → (ℕ → ℕ → ℕ → Bool) → Bytes → Bytes
drop_spaces two three [] = []
drop_spaces two three (c ∷ []) = if is_space c then [] else c ∷ []
drop_spaces two three (c ∷ d ∷ []) =
    let rest = drop_spaces two three (d ∷ []) in
    if is_space c then rest else if two c d then [] else c ∷ d ∷ []
drop_spaces two three (c ∷ d ∷ e ∷ s) = elim (is_space c) [
  | true ↦ drop_spaces two three (d ∷ e ∷ s)
  | false ↦ elim (two c d) [
    | true ↦ drop_spaces two three (e ∷ s)
    | false ↦ elim (three c d e) [ true ↦ drop_spaces two three s | false ↦ c ∷ d ∷ e ∷ s ]
  ]
]

-- strings.TrimSpace
unfoldable pub trim_space : Bytes → Bytes
trim_space s = reverse (
    drop_spaces (λ c d. is_space2 d c) (λ c d e. is_space3 e d c)
      (reverse (drop_spaces is_space2 is_space3 s)))

trim_space_test :
    (trim_space (codes " \t a b\n ") ≡ codes "a b")
    × (trim_space (194 ∷ 160 ∷ codes "x" ++ (227 ∷ 128 ∷ 128 ∷ [])) ≡ codes "x")
    × (trim_space (226 ∷ 128 ∷ 138 ∷ 32 ∷ []) ≡ [])
    × (trim_space (128 ∷ []) ≡ 128 ∷ [])
unfolding trim_space
trim_space_test = (refl, refl, refl, refl)

-- parseGitignore
unfoldable pub parse_gitignore : Bytes → List Bytes
unfolding split trim_space
parse_gitignore text = map trim_space (split newline text)

-- IsIgnored
unfoldable pub is_ignored : Bytes → Bytes → Bool
unfolding parse_gitignore contains_line
is_ignored text db_file = contains_line (parse_gitignore text) db_file

-- the header, if it is not there yet
abbrev pub header_for : Bool → Bytes
header_for true = []
header_for false = newline ∷ local_db_header ++ newline ∷ []

-- IgnoreDB
unfoldable pub ignore_db : Bytes → Bytes → Bytes
unfolding is_ignored
ignore_db db_file text =
    if is_ignored text db_file
    then text
    else text ++ (header_for (is_ignored text local_db_header) ++ (db_file ++ newline ∷ []))

-- What stays when the header stands at an index: nothing from there on, if no database follows.
abbrev clean_header : Bytes → Option ℕ → Bytes
clean_header text none = text
clean_header text (some i) =
    let rest = trim_space (drop (i + length local_db_header) text) in
    if is_empty rest || not (contains rest (codes ".db"))
    then trim_suffix (take i text) (newline ∷ [])
    else text

-- UnignoreDB
unfoldable pub unignore_db : Bytes → Bytes → Bytes
unfolding select split join index contains trim_suffix trim_space str_eq
unignore_db db_file text =
    let kept =
      join newline (select (λ l. not (str_eq (trim_space l) db_file)) (split newline text)) in
    clean_header kept (index kept local_db_header)

-- The name goes to the end of the last line, if that has no line feed.
unfinished_line_test :
    let text = local_db_header ++ codes "\nllmd-a.db" in
    is_ignored (ignore_db (codes "llmd-b.db") text) (codes "llmd-b.db") ≡ false
unfolding ignore_db str_eq
unfinished_line_test = refl

unignore_test :
    unignore_db (codes "llmd.db") (ignore_db (codes "llmd.db") (codes "files/\n"))
    ≡ codes "files/\n"
unfolding unignore_db ignore_db
unignore_test = refl
