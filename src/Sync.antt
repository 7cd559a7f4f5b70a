-- ===== src/Sync.antt =====
-- internal/sync: the mirror of the documents as files, and the changes that were made there.
pub mod Files
pub mod Run
pub mod Scan
pub mod Again
pub mod Stored
pub mod Listed
pub mod Same
pub mod Converge
use llmd.Prelude.{
  ℕ, suc, ◌+◌, Bool, true, false, not, ◌&&◌, ◌||◌, List, [], ◌∷◌, ◌++◌, map, Option, none, some,
  Bytes, codes, str_eq, is_empty, length, ltb, if◌then◌else◌, Result, ok, err, err_io, err_too_deep,
  ◌>>=◌,
}
use llmd.Sql.{fold_case, select}
use llmd.Text.{has_prefix, has_suffix, trim_suffix, split, contains_line}
use llmd.Path.{normalise, clean, slash, dot, dot_dot}

-- A directory, by the names of its entries in the order in which they are read.
mutual
  pub data Node : Type 0 where
    file : Bytes → Node
    dir : Entries → Node

  pub data Entries : Type 0 where
    end : Entries
    entry : Bytes → Node → Entries → Entries

unfoldable pub find : Bytes → Entries → Option Node
unfolding str_eq
find name end = none
find name (entry n node es) = if str_eq n name then some node else find name es

-- The elements of a path, as os.Root takes it: an empty one or a dot stays where it is, and a path
-- from `/` is refused. So is one with `..` here, where os.Root would go up within its root.
unfoldable pub elements : Bytes → Result (List Bytes)
unfolding select split str_eq has_prefix contains_line
elements name =
    let parts = split slash name in
    if has_prefix name (slash ∷ []) || contains_line parts dot_dot
    then err err_io
    else ok (select (λ e. not (is_empty e || str_eq e dot)) parts)

-- the file at the end of a path
abbrev pub file_of : Option Node → Result Bytes
file_of (some (file text)) = ok text
file_of _ = err err_io

abbrev pub dir_of : Option Node → Option Entries
dir_of (some (dir es)) = some es
dir_of _ = none

unfoldable pub open_at : List Bytes → Entries → Result Bytes
unfolding find
open_at [] es = err err_io
open_at (e ∷ []) es = file_of (find e es)
open_at (e ∷ f ∷ path) es = elim (dir_of (find e es)) [
  | none ↦ err err_io
  | some sub ↦ open_at (f ∷ path) sub
]

abbrev pub md : Bytes
md = codes ".md"

-- readFileInRoot
unfoldable pub read_file : Entries → Bytes → Result Bytes
unfolding open_at elements
read_file root path = do es ← elements (path ++ md); open_at es root

-- filepath.Join of a directory and a name
unfoldable pub join_name : Bytes → Bytes → Bytes
unfolding clean
join_name d name = if is_empty d then name else clean (d ++ slash ∷ name)

-- strings.HasSuffix(strings.ToLower(name), ".md"): no other letters become an m or a d.
unfoldable pub is_markdown : Bytes → Bool
unfolding has_suffix fold_case
is_markdown name = has_suffix (map fold_case name) md

unfoldable pub hidden : Bytes → Bool
unfolding has_prefix
hidden name = has_prefix name dot

-- scanRootDir, with its limit on the depth: the loop over the entries, and the call for an entry
unfoldable mutual
  pub scan_entries : ℕ → Bytes → ℕ → Entries → Result (List Bytes)
  scan_entries limit d depth end = ok []
  scan_entries limit d depth (entry name node es) =
      let rest = scan_entries limit d depth es in
      let found = scan_node limit (join_name d name) name depth node in
      if hidden name then rest else (do files ← found; more ← rest; ok (files ++ more))

  pub scan_node : ℕ → Bytes → Bytes → ℕ → Node → Result (List Bytes)
  scan_node limit rel name depth (file text) = ok (if is_markdown name then rel ∷ [] else [])
  scan_node limit rel name depth (dir es) =
      let sub = scan_entries limit rel (suc depth) es in
      if ltb limit (suc depth) then err err_too_deep else sub

unfoldable pub scan_dir : ℕ → Bytes → ℕ → Entries → Result (List Bytes)
unfolding scan_entries scan_node is_markdown hidden join_name
scan_dir limit d depth es =
    if ltb limit depth then err err_too_deep else scan_entries limit d depth es

abbrev pub max_scan_depth : ℕ
max_scan_depth = 100

pub record Changes : Type 0 where
  pub changed : List Bytes
  pub added : List Bytes

abbrev pub no_changes : Changes
no_changes = record { changed = []; added = [] }

-- Changes.Empty and Changes.Total
abbrev pub is_unchanged : Changes → Bool
is_unchanged c = is_none c.changed && is_none c.added
  where
    is_none : List Bytes → Bool
    is_none [] = true
    is_none _ = false

abbrev pub total : Changes → ℕ
total c = length c.changed + length c.added

-- the path of a document, before it is put in normal form
unfoldable pub document_path : Bytes → Bytes
unfolding trim_suffix
document_path rel = trim_suffix (trim_suffix rel md) (codes ".MD")

unfoldable pub note : Bytes → Bytes → Option Bytes → Changes → Changes
unfolding str_eq
note path content none c = record c { added = path ∷ c.added }
note path content (some stored) c =
    if str_eq content stored then c else record c { changed = path ∷ c.changed }

-- The body of the loop of detectChangesInRoot, before the files that follow. A file whose path is
-- refused is passed over.
abbrev pub detect_file :
    Entries → (Bytes → Option Bytes) → Result Bytes → Result Changes → Result Changes
detect_file root db (err _) rest = rest
detect_file root db (ok path) rest = do
  content ← read_file root path
  c ← rest
  ok (note path content (db path) c)

unfoldable pub detect_files : Entries → (Bytes → Option Bytes) → List Bytes → Result Changes
unfolding normalise read_file document_path note
detect_files root db [] = ok no_changes
detect_files root db (rel ∷ rels) =
    detect_file root db (normalise (document_path rel)) (detect_files root db rels)

unfoldable pub detect : Entries → (Bytes → Option Bytes) → Result Changes
unfolding scan_dir detect_files
detect root db = do files ← scan_dir max_scan_depth [] 0 root; detect_files root db files
