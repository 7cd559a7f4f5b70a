-- ===== src/Sync/Files.antt =====
-- internal/sync/sync_fs.go: the files of the mirror. A directory that cannot be read or written, and
-- a name that the file system refuses, are left out: the service is proved for any mirror. A write
-- that fails on the way is write_upto; those of the mirror at the end are carried to their end.
use llmd.Prelude.{
  Bool, true, false, List, [], ◌∷◌, ◌++◌, Option, none, some, Bytes, str_eq, if◌then◌else◌, Result,
  ok, err, err_io, ℕ, take,
}
use llmd.Service.{Mirror}
use llmd.Sync.{Node, Entries, file, dir, end, entry, find, elements, md}

-- The entry of a name, replaced or added.
unfoldable pub set_entry : Bytes → Node → Entries → Entries
unfolding str_eq
set_entry name node end = entry name node end
set_entry name node (entry n old es) =
    if str_eq n name then entry n node es else entry n old (set_entry name node es)

unfoldable pub delete_entry : Bytes → Entries → Entries
unfolding str_eq
delete_entry name end = end
delete_entry name (entry n node es) =
    if str_eq n name then es else entry n node (delete_entry name es)

abbrev pub is_nothing : Entries → Bool
is_nothing end = true
is_nothing _ = false

abbrev pub replace_file : Option Node → Bytes → Bytes → Entries → Option Entries
replace_file none name text es = some (set_entry name (file text) es)
replace_file (some (file _)) name text es = some (set_entry name (file text) es)
replace_file (some (dir _)) name text es = none

abbrev pub put_below : Option Entries → Bytes → Entries → Option Entries
put_below none name es = none
put_below (some sub) name es = some (set_entry name (dir sub) es)

-- the directory to go on in, made if it is missing
abbrev pub sub_dir : Option Node → Option Entries
sub_dir none = some end
sub_dir (some (dir sub)) = some sub
sub_dir (some (file _)) = none

abbrev pub put_into : Option Entries → (Entries → Option Entries) → Bytes → Entries → Option Entries
put_into none f name es = none
put_into (some sub) f name es = put_below (f sub) name es

-- mkdirAllInRoot for the directories of a path, and the file in the last of them. Only a file in
-- place of a directory, or a directory in place of the file, is in the way, and in both cases no
-- directory was made before.
unfoldable pub put : List Bytes → Bytes → Entries → Option Entries
unfolding find set_entry
put [] text es = none
put (e ∷ []) text es = replace_file (find e es) e text es
put (e ∷ f ∷ path) text es = put_into (sub_dir (find e es)) (put (f ∷ path) text) e es

abbrev pub committed : Option Entries → Entries → Result (Unit {0}) × Entries
committed none root = (err err_io, root)
committed (some root') root = (ok tt, root')

abbrev pub at_elements :
    Result (List Bytes)
    → (List Bytes → Entries → Result (Unit {0}) × Entries)
    → Entries
    → Result (Unit {0}) × Entries
at_elements (err e) f root = (err e, root)
at_elements (ok es) f root = f es root

-- How far WriteString got: `none` is to the end, and `some n` a failure with n bytes written.
abbrev pub kept_text : Option ℕ → Bytes → Bytes
kept_text none text = text
kept_text (some n) text = take n text

abbrev pub write_end : Option ℕ → Result (Unit {0})
write_end none = ok tt
write_end (some n) = err err_io

-- The file is opened, and so truncated, before the text is written.
abbrev pub opened : Option ℕ → Option Entries → Entries → Result (Unit {0}) × Entries
opened cut none root = (err err_io, root)
opened cut (some root') root = (write_end cut, root')

-- WriteFile, with what the system makes of its last call
unfoldable pub write_upto : Option ℕ → Bytes → Bytes → Entries → Result (Unit {0}) × Entries
unfolding put elements
write_upto cut path text =
    at_elements (elements (path ++ md))
      (λ es root. opened cut (put es (kept_text cut text) root) root)

-- WriteFile, if the text can be written to its end
unfoldable pub write_file : Bytes → Bytes → Entries → Result (Unit {0}) × Entries
unfolding write_upto
write_file = write_upto none

-- What a path leads to: `ok none` is ErrNotExist, `err` a file in place of a directory.
unfoldable pub find_at : List Bytes → Entries → Result (Option Node)
unfolding find
find_at [] es = ok (some (dir es))
find_at (e ∷ path) es = elim (find e es) [
  | none ↦ ok none
  | some (dir sub) ↦ find_at path sub
  | some (file text) ↦ elim path [ [] ↦ ok (some (file text)) | _ ∷ _ ↦ err err_io ]
]

-- the entry of a path that leads somewhere, taken away
unfoldable pub drop_at : List Bytes → Entries → Entries
unfolding find set_entry delete_entry
drop_at [] es = es
drop_at (e ∷ []) es = delete_entry e es
drop_at (e ∷ f ∷ path) es = elim (find e es) [
  | some (dir sub) ↦ set_entry e (dir (drop_at (f ∷ path) sub)) es
  | _ ↦ es
]

-- root.Remove, with the error for a missing file passed over
abbrev remove_found : Result (Option Node) → List Bytes → Entries → Result (Unit {0}) × Entries
remove_found (err e) es root = (err e, root)
remove_found (ok none) es root = (ok tt, root)
remove_found (ok (some (file _))) es root = (ok tt, drop_at es root)
remove_found (ok (some (dir sub))) es root =
    if is_nothing sub then (ok tt, drop_at es root) else (err err_io, root)

unfoldable pub remove_file : Bytes → Entries → Result (Unit {0}) × Entries
unfolding find_at drop_at elements
remove_file path =
    at_elements (elements (path ++ md)) (λ es root. remove_found (find_at es root) es root)

abbrev then_remove : Result (Unit {0}) × Entries → List Bytes → Result (Unit {0}) × Entries
then_remove (err e, root) es = (err e, root)
then_remove (ok _, root) es = (ok tt, drop_at es root)

abbrev move_found :
    Result (Option Node) → List Bytes → Bytes → Entries → Result (Unit {0}) × Entries
move_found (err e) es dst root = (err e, root)
move_found (ok none) es dst root = (ok tt, root)
move_found (ok (some (dir _))) es dst root = (err err_io, root)
move_found (ok (some (file text))) es dst root = then_remove (write_file dst text root) es

unfoldable pub move_file : Bytes → Bytes → Entries → Result (Unit {0}) × Entries
unfolding find_at drop_at write_file elements
move_file src dst =
    at_elements (elements (src ++ md)) (λ es root. move_found (find_at es root) es dst root)

unfoldable pub mirror : Mirror Entries
unfolding write_file remove_file move_file
mirror = record { write_file = write_file; remove_file = remove_file; move_file = move_file }
