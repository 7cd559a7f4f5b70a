-- ===== src/Tests/Mirrors.antt =====
-- Trees of files, and what is read from and written to them, at concrete inputs.
use llmd.Prelude.{
  ◌+◌, ◌||◌, [], ◌∷◌, ◌++◌, Option, none, some, Bytes, codes, str_eq, leb, if◌then◌else◌, ok, err,
  err_io, err_too_deep, ◌≡◌, refl, arith,
}
use llmd.Text.{split}
use llmd.Path.{clean, normalise}
use llmd.Sync.{Entries, file, dir, end, entry, elements, read_file, scan_dir, detect, Changes}
use llmd.Sync.Files.{write_upto, move_file, remove_file}
use llmd.Sync.Scan.{height, files_in, scan_dir-files}
use llmd.Gitignore.{newline, local_db_header, trim_space, is_ignored, ignore_db}
use llmd.Gitignore.Lines.{header_lines, is_ignored-ignore_db}

-- docs/a.md, docs/b.md, .git/x.md and a file that is no document
abbrev tree : Entries
tree =
    entry (codes "docs")
      (dir
        (entry (codes "a.md") (file (codes "one")) (entry (codes "b.md") (file (codes "two")) end)))
      (entry (codes ".git") (dir (entry (codes "x.md") (file []) end))
        (entry (codes "todo.txt") (file []) end))

scan_dir-files_example :
    scan_dir 100 [] 0 tree
    ≡ (if leb (0 + height tree) 100 then ok (files_in [] tree) else err err_too_deep)
scan_dir-files_example = scan_dir-files 100 [] 0 tree

scan_test : scan_dir 1 [] 0 tree ≡ ok (codes "docs/a.md" ∷ codes "docs/b.md" ∷ [])
unfolding scan_dir clean str_eq
scan_test = refl

too_deep_test : scan_dir 0 [] 0 tree ≡ err err_too_deep
unfolding scan_dir
too_deep_test = refl

-- a stored text for docs/a only, and an old one
abbrev texts : Bytes → Option Bytes
unfolding str_eq
texts p = if str_eq p (codes "docs/a") then some (codes "old") else none

abbrev found : Changes
found = record { changed = codes "docs/a" ∷ []; added = codes "docs/b" ∷ [] }

detect_test : detect tree texts ≡ ok found
unfolding detect clean str_eq normalise read_file elements
detect_test = refl

-- A file with its extension in capitals is found, and cannot be read under the name that the path of
-- its document gives.
capitals_test : detect (entry (codes "README.MD") (file (codes "hi")) end) texts ≡ err err_io
unfolding detect clean str_eq normalise read_file elements
capitals_test = refl

full_disk_test :
    read_file (write_upto (some 2) (codes "docs/a") (codes "new") tree).1 (codes "docs/a")
    ≡ ok (codes "ne")
unfolding write_upto read_file elements str_eq
full_disk_test = refl

move_test :
    (read_file (move_file (codes "docs/a") (codes "x/y") tree).1 (codes "x/y") ≡ ok (codes "one"))
    × (read_file (move_file (codes "docs/a") (codes "x/y") tree).1 (codes "docs/a") ≡ err err_io)
    × ((remove_file (codes "docs/q") tree).0 ≡ ok tt)
    × ((remove_file (codes "todo.txt/q") tree).0 ≡ err err_io)
unfolding move_file remove_file read_file elements str_eq
move_test = (refl, refl, refl, refl)

is_ignored-ignore_db_example :
    let text = codes "files/" ++ newline ∷ [] in
    (split newline (ignore_db (codes "llmd-b.db") text) ≡ (
      if is_ignored text (codes "llmd-b.db")
      then split newline text
      else split newline (codes "files/")
        ++ (header_lines (is_ignored text local_db_header) ++ codes "llmd-b.db" ∷ [] ∷ [])))
    × (is_ignored (ignore_db (codes "llmd-b.db") text) (codes "llmd-a.db")
        ≡ (str_eq (codes "llmd-b.db") (codes "llmd-a.db") || is_ignored text (codes "llmd-a.db")))
unfolding trim_space str_eq
is_ignored-ignore_db_example =
    is_ignored-ignore_db (codes "llmd-b.db") (codes "llmd-a.db") (codes "files/") (omega arith) refl
      refl refl
