-- ===== src/Sync/Again.antt =====
-- After the changes that were detected are stored, none are detected.
use llmd.Prelude.{
  Bool, true, ◌||◌, List, [], ◌∷◌, Option, none, some, Bytes, str_eq, str_eq_iff, str_eq_refl,
  if◌then◌else◌, Result, ok, err, ◌>>=◌, ◌≡◌, ◌⊎◌, refl, arith, All, inl, inr, Bool-cases,
}
use llmd.Sql.{All-map}
use llmd.Text.{contains_line}
use llmd.Path.{normalise}
use llmd.Sync.{
  Entries, Changes, no_changes, read_file, document_path, note, detect_file, detect_files, detect,
  scan_dir, max_scan_depth,
}

abbrev pub to_option : Result Bytes → Option Bytes
to_option (ok text) = some text
to_option (err _) = none

abbrev pub is_changed : Changes → Bytes → Bool
is_changed c p = contains_line c.changed p || contains_line c.added p

-- the map of the database after the files of the changes were written to it
abbrev pub stored : Entries → Changes → (Bytes → Option Bytes) → Bytes → Option Bytes
stored root c db p = if is_changed c p then to_option (read_file root p) else db p

-- A file that can be read, and whose text is in the map.
abbrev IsStored : Entries → (Bytes → Option Bytes) → Result Bytes → Type 0
IsStored root db (err _) = Unit
IsStored root db (ok path) =
    (text : Bytes) × (read_file root path ≡ ok text) × (db path ≡ some text)

nothing_noted :
    (root : Entries) (db : Bytes → Option Bytes) (r : Result Bytes) (rest : Result Changes)
    → IsStored root db r
    → rest ≡ ok no_changes
    → detect_file root db r rest ≡ ok no_changes
unfolding note
nothing_noted root db (err e) rest h k = k
nothing_noted root db (ok path) rest (text, readable, there) k =
    rw (readable, k, there) (rw (str_eq_refl text))

nothing_new :
    (root : Entries) (db : Bytes → Option Bytes) (rels : List Bytes)
    → All (λ rel. IsStored root db (normalise (document_path rel))) rels
    → detect_files root db rels ≡ ok no_changes
unfolding detect_files
nothing_new root db [] h = refl
nothing_new root db (rel ∷ rels) h =
    nothing_noted root db (normalise (document_path rel)) _ h.0 (nothing_new root db rels h.1)

-- what is noted stays so for the files that come before
abbrev Includes : Changes → Changes → Type 0
Includes c c' = (p : Bytes) → is_changed c p ≡ true → is_changed c' p ≡ true

-- A file of the changes, or one with the stored text.
abbrev IsSeen : Entries → (Bytes → Option Bytes) → Changes → Result Bytes → Type 0
IsSeen root db c (err _) = Unit
IsSeen root db c (ok path) =
    (text : Bytes) × (read_file root path ≡ ok text)
    × ((is_changed c path ≡ true) ⊎ (db path ≡ some text))

note-Includes :
    (path text : Bytes) (old : Option Bytes) (c : Changes) → Includes c (note path text old c)
unfolding note contains_line
note-Includes path text none c p h = ground arith
note-Includes path text (some t) c p h = ground arith

note-seen :
    (path text : Bytes) (old : Option Bytes) (c : Changes)
    → (is_changed (note path text old c) path ≡ true) ⊎ (old ≡ some text)
unfolding note contains_line
note-seen path text none c = inl (ground (arith, str_eq_refl path))
note-seen path text (some t) c = elim (Bool-cases (str_eq text t)) [
  | inl e ↦ inr (ground (arith, str_eq_iff text t))
  | inr e ↦ inl (ground (arith, str_eq_refl path))
]

more_seen :
    (root : Entries) (db : Bytes → Option Bytes) (c c' : Changes) (r : Result Bytes)
    → Includes c c'
    → IsSeen root db c r
    → IsSeen root db c' r
more_seen root db c c' (err e) f h = tt
more_seen root db c c' (ok path) f (text, readable, inl e) = (text, readable, inl (f path e))
more_seen root db c c' (ok path) f (text, readable, inr e) = (text, readable, inr e)

all_more_seen :
    (root : Entries) (db : Bytes → Option Bytes) (c c' : Changes) (rels : List Bytes)
    → Includes c c'
    → All (λ rel. IsSeen root db c (normalise (document_path rel))) rels
    → All (λ rel. IsSeen root db c' (normalise (document_path rel))) rels
all_more_seen root db c c' rels f =
    All-map _ _ rels (λ rel. more_seen root db c c' (normalise (document_path rel)) f)

seen_read :
    (root : Entries) (db : Bytes → Option Bytes) (path : Bytes) (t : Result Bytes)
    (rest : Result Changes) (c : Changes)
    → read_file root path ≡ t
    → (t >>= λ content. rest >>= λ c. ok (note path content (db path) c)) ≡ ok c
    → (c' : Changes) × (rest ≡ ok c') × (IsSeen root db c (ok path)) × (Includes c' c)
seen_read root db path (err e) rest c readable h = cc
seen_read root db path (ok text) (err e) c readable h = cc
seen_read root db path (ok text) (ok c') c readable h =
    let e : note path text (db path) c' ≡ c = cc in
    rw (← e) (
      c',
      refl,
      (text, readable, note-seen path text (db path) c'),
      note-Includes path text (db path) c',
    )

-- Inversion of one round of the loop.
seen_first :
    (root : Entries) (db : Bytes → Option Bytes) (r : Result Bytes) (rest : Result Changes)
    (c : Changes)
    → detect_file root db r rest ≡ ok c
    → (c' : Changes) × (rest ≡ ok c') × (IsSeen root db c r) × (Includes c' c)
seen_first root db (err e) rest c h = (c, h, tt, λ p k. k)
seen_first root db (ok path) rest c h = seen_read root db path (read_file root path) rest c refl h

seen :
    (root : Entries) (db : Bytes → Option Bytes) (rels : List Bytes) (c : Changes)
    → detect_files root db rels ≡ ok c
    → All (λ rel. IsSeen root db c (normalise (document_path rel))) rels
unfolding detect_files
seen root db [] c h = tt
seen root db (rel ∷ rels) c h =
    let (c', e, first, more) = seen_first root db (normalise (document_path rel)) _ c h in
    (first, all_more_seen root db c' c rels more (seen root db rels c' e))

seen_stored :
    (root : Entries) (db : Bytes → Option Bytes) (c : Changes) (r : Result Bytes)
    → IsSeen root db c r
    → IsStored root (stored root c db) r
seen_stored root db c (err e) h = tt
seen_stored root db c (ok path) (text, readable, inl e) = (text, readable, rw (e, readable))
seen_stored root db c (ok path) (text, readable, inr e) =
    (text, readable, rw (readable, e) (ground arith))

after_scan :
    (root : Entries) (db : Bytes → Option Bytes) (files : Result (List Bytes)) (c : Changes)
    → (files >>= λ rels. detect_files root db rels) ≡ ok c
    → (files >>= λ rels. detect_files root (stored root c db) rels) ≡ ok no_changes
after_scan root db (err e) c h = cc
after_scan root db (ok rels) c h = nothing_new root (stored root c db) rels (
    All-map _ _ rels (λ rel. seen_stored root db c (normalise (document_path rel)))
      (seen root db rels c h))

-- Once the text of every file that was reported, changed or added, stands in the map under its
-- path, nothing is reported.
pub detect-stored :
    (root : Entries) (db : Bytes → Option Bytes) (c : Changes)
    → detect root db ≡ ok c
    → detect root (stored root c db) ≡ ok no_changes
unfolding detect
detect-stored root db c h = after_scan root db (scan_dir max_scan_depth [] 0 root) c h
