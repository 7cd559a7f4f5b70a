-- ===== src/Sync/Same.antt =====
-- A write of what a file holds already changes nothing.
use llmd.Prelude.{
  ◌≡◌, refl, ap, ◌∙◌, List, [], ◌∷◌, ◌++◌, Option, none, some, Bytes, str_eq, Result, ok, err,
  err_io, ◌>>=◌, Bool-cases, inl, inr,
}
use llmd.Sync.{
  Node, Entries, file, dir, end, entry, find, file_of, dir_of, elements, md, open_at, read_file,
}
use llmd.Sync.Files.{
  set_entry, replace_file, put_into, sub_dir, put, at_elements, committed, write_file,
}

set_entry-same :
    (name : Bytes) (node : Node) (es : Entries)
    → find name es ≡ some node
    → set_entry name node es ≡ es
unfolding find set_entry
set_entry-same name node end h = cc
set_entry-same name node (entry n old es) h = elim (Bool-cases (str_eq n name)) [
  | inl e ↦ let k : some old ≡ some node = rw e at h in rw e (cc)
  | inr e ↦ rw e (ap (entry n old) (set_entry-same name node es (rw e at h)))
]

same_file :
    (name text : Bytes) (es : Entries) (old : Option Node)
    → find name es ≡ old
    → file_of old ≡ ok text
    → replace_file old name text es ≡ some es
same_file name text es none e h = cc
same_file name text es (some (file t)) e h =
    let same : t ≡ text = cc in
    ap some (set_entry-same name (file text) es (e ∙ ap (λ t. some (file t)) same))
same_file name text es (some (dir sub)) e h = cc

same_dir :
    (name f text : Bytes) (path : List Bytes) (es : Entries) (old : Option Node)
    → find name es ≡ old
    → (elim (dir_of old) [ none ↦ err err_io | some sub ↦ open_at (f ∷ path) sub ]) ≡ ok text
    → ((sub : Entries) → open_at (f ∷ path) sub ≡ ok text → put (f ∷ path) text sub ≡ some sub)
    → put_into (sub_dir old) (put (f ∷ path) text) name es ≡ some es
same_dir name f text path es none e h ih = cc
same_dir name f text path es (some (file t)) e h ih = cc
same_dir name f text path es (some (dir sub)) e h ih =
    rw (ih sub h) (ap some (set_entry-same name (dir sub) es e))

put-same :
    (path : List Bytes) (text : Bytes) (es : Entries)
    → open_at path es ≡ ok text
    → put path text es ≡ some es
unfolding open_at put
put-same [] text es h = cc
put-same (e ∷ []) text es h = same_file e text es (find e es) refl h
put-same (e ∷ f ∷ path) text es h =
    same_dir e f text path es (find e es) refl h (put-same (f ∷ path) text)

at_same :
    (p : Result (List Bytes)) (text : Bytes) (root : Entries)
    → (p >>= λ es. open_at es root) ≡ ok text
    → at_elements p (λ es root. committed (put es text root) root) root ≡ (ok tt, root)
at_same (err e) text root h = cc
at_same (ok p) text root h = rw (put-same p text root h)

pub write_file-same :
    (path text : Bytes) (root : Entries)
    → read_file root path ≡ ok text
    → write_file path text root ≡ (ok tt, root)
unfolding write_file read_file
write_file-same path text root h = at_same (elements (path ++ md)) text root h
