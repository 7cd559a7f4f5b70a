-- ===== src/Sync/Stored.antt =====
-- A file that was written reads as what was written, and the other files as before.
use llmd.Prelude.{
  Bool, true, false, ◌&&◌, List, [], ◌∷◌, Option, none, some, Bytes, str_eq, if◌then◌else◌, Result,
  ok, err, ◌≡◌,
}
use llmd.Sync.{Node, Entries, file, open_at}
use llmd.Sync.Files.{find_at}

abbrev pub same_elements : List Bytes → List Bytes → Bool
same_elements [] [] = true
same_elements (e ∷ es) (f ∷ fs) = str_eq e f && same_elements es fs
same_elements _ _ = false

-- the read of a path after a write to another one, or to the same
AfterPut : List Bytes → Bytes → Entries → Option Entries → Type 0
AfterPut path text es none = Unit
AfterPut path text es (some es') =
    (other : List Bytes)
    → open_at other es' ≡ (if same_elements path other then ok text else open_at other es)

-- do two paths lead to the same file?
abbrev pub same_file : Result (List Bytes) → Result (List Bytes) → Bool
same_file (ok p) (ok q) = same_elements p q
same_file _ _ = false

abbrev pub is_ok : Result (Unit {0}) → Bool
is_ok (ok _) = true
is_ok (err _) = false

-- a file, or nothing yet, at the end of a path
abbrev pub takes_file : Result (Option Node) → Bool
takes_file (ok none) = true
takes_file (ok (some (file _))) = true
takes_file _ = false

is_some : Option Entries → Bool
is_some none = false
is_some (some _) = true

-- can a file be opened for writing below the elements of a path?
abbrev pub can_open : Result (List Bytes) → Entries → Bool
can_open (err e) root = false
can_open (ok es) root = takes_file (find_at es root)
