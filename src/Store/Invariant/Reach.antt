-- ===== src/Store/Invariant/Reach.antt =====
-- Any sequence of the store's operations, those that fail among them.
use llmd.Prelude.{ℕ, Bytes, Option, none, some, refl, All}
use llmd.Sql.{has_duplicate}
use llmd.Store.{Link, Db, empty}
use llmd.Store.Keeps.{Keeps}
use llmd.Store.Write.{WriteOptions, write, delete, delete_version, restore}
use llmd.Store.Move.{move, copy}
use llmd.Store.Tags.{TagOptions, tag, untag}
use llmd.Store.Links.{
  LinkOptions, link, existing_or_new, unlink_by_id, unlink_by_tag, delete_links_for_path,
}
use llmd.Store.Vacuum.{vacuum}
use llmd.Store.Invariant.{IsValid, valid_rules}
use llmd.Store.Invariant.Sound.{IsSound, AllSound}
use llmd.Store.Invariant.Kept.{
  write-AllSound, delete-AllSound, delete_version-AllSound, restore-AllSound, move-AllSound,
  copy-AllSound, tag-AllSound, untag-AllSound, link-AllSound, unlink_by_id-AllSound,
  unlink_by_tag-AllSound, delete_links_for_path-AllSound, vacuum-AllSound,
}

pub write-IsValid :
    (p text : Bytes) (opts : WriteOptions) (key : Bytes) (now : ℕ)
    → Keeps IsValid (write p text opts key now)
unfolding write
write-IsValid p text opts key now = search valid_rules

delete-IsValid : (p : Bytes) (max_path now : ℕ) → Keeps IsValid (delete p max_path now)
unfolding delete
delete-IsValid p max_path now = search valid_rules

delete_version-IsValid :
    (p : Bytes) (v max_path now : ℕ) → Keeps IsValid (delete_version p v max_path now)
unfolding delete_version
delete_version-IsValid p v max_path now = search valid_rules

restore-IsValid : (p : Bytes) (max_path : ℕ) → Keeps IsValid (restore p max_path)
unfolding restore
restore-IsValid p max_path = search valid_rules

move-IsValid : (src dst : Bytes) (max_path : ℕ) → Keeps IsValid (move src dst max_path)
unfolding move
move-IsValid src dst max_path = search valid_rules depth 14

copy-IsValid :
    (from to copier : Bytes) (max_path : ℕ) (key : Bytes) (now : ℕ)
    → Keeps IsValid (copy from to copier max_path key now)
unfolding copy
copy-IsValid from to copier max_path key now = search valid_rules depth 14

tag-IsValid :
    (p label : Bytes) (opts : TagOptions) (key : Bytes) (now : ℕ)
    → Keeps IsValid (tag p label opts key now)
unfolding tag
tag-IsValid p label opts key now = search valid_rules depth 14

untag-IsValid :
    (p label : Bytes) (opts : TagOptions) (now : ℕ) → Keeps IsValid (untag p label opts now)
unfolding untag
untag-IsValid p label opts now = search valid_rules depth 14

existing_or_new-IsValid : (o : Option Link) (row : Link) → Keeps IsValid (existing_or_new o row)
existing_or_new-IsValid none row = search valid_rules
existing_or_new-IsValid (some l) row = search valid_rules

link-IsValid :
    (from to label : Bytes) (opts : LinkOptions) (key : Bytes) (now : ℕ)
    → Keeps IsValid (link from to label opts key now)
unfolding link
link-IsValid from to label opts key now = search (valid_rules, existing_or_new-IsValid) depth 14

unlink_by_id-IsValid : (key : Bytes) (now : ℕ) → Keeps IsValid (unlink_by_id key now)
unfolding unlink_by_id
unlink_by_id-IsValid key now = search valid_rules

unlink_by_tag-IsValid :
    (label : Bytes) (opts : LinkOptions) (now : ℕ) → Keeps IsValid (unlink_by_tag label opts now)
unfolding unlink_by_tag
unlink_by_tag-IsValid label opts now = search valid_rules

delete_links_for_path-IsValid :
    (p : Bytes) (opts : LinkOptions) (now : ℕ) → Keeps IsValid (delete_links_for_path p opts now)
unfolding delete_links_for_path
delete_links_for_path-IsValid p opts now = search valid_rules

vacuum-IsValid :
    (older_than : Option ℕ) (p : Bytes) (now : ℕ) → Keeps IsValid (vacuum older_than p now)
unfolding vacuum
vacuum-IsValid older_than p now = search valid_rules depth 14

-- One call of an operation, with any arguments.
pub data Step : Db → Db → Type 0 where
  by_write :
      (db : Db) (p text : Bytes) (opts : WriteOptions) (key : Bytes) (now : ℕ)
      → Step db (write p text opts key now db).1
  by_delete : (db : Db) (p : Bytes) (max_path now : ℕ) → Step db (delete p max_path now db).1
  by_delete_version :
      (db : Db) (p : Bytes) (v max_path now : ℕ) → Step db (delete_version p v max_path now db).1
  by_restore : (db : Db) (p : Bytes) (max_path : ℕ) → Step db (restore p max_path db).1
  by_move : (db : Db) (src dst : Bytes) (max_path : ℕ) → Step db (move src dst max_path db).1
  by_copy :
      (db : Db) (from to copier : Bytes) (max_path : ℕ) (key : Bytes) (now : ℕ)
      → Step db (copy from to copier max_path key now db).1
  by_tag :
      (db : Db) (p label : Bytes) (opts : TagOptions) (key : Bytes) (now : ℕ)
      → Step db (tag p label opts key now db).1
  by_untag :
      (db : Db) (p label : Bytes) (opts : TagOptions) (now : ℕ)
      → Step db (untag p label opts now db).1
  by_link :
      (db : Db) (from to label : Bytes) (opts : LinkOptions) (key : Bytes) (now : ℕ)
      → Step db (link from to label opts key now db).1
  by_unlink_by_id : (db : Db) (key : Bytes) (now : ℕ) → Step db (unlink_by_id key now db).1
  by_unlink_by_tag :
      (db : Db) (label : Bytes) (opts : LinkOptions) (now : ℕ)
      → Step db (unlink_by_tag label opts now db).1
  by_delete_links_for_path :
      (db : Db) (p : Bytes) (opts : LinkOptions) (now : ℕ)
      → Step db (delete_links_for_path p opts now db).1
  by_vacuum :
      (db : Db) (older_than : Option ℕ) (p : Bytes) (now : ℕ)
      → Step db (vacuum older_than p now db).1

pub data Reach (start : Db) : Db → Type 0 where
  here : Reach start start
  next : {a b : Db} → Reach start a → Step a b → Reach start b

Step-IsValid : {a b : Db} → Step a b → IsValid a → IsValid b
Step-IsValid (by_write db p text opts key now) = (write-IsValid p text opts key now).at db
Step-IsValid (by_delete db p max_path now) = (delete-IsValid p max_path now).at db
Step-IsValid (by_delete_version db p v max_path now) =
    (delete_version-IsValid p v max_path now).at db
Step-IsValid (by_restore db p max_path) = (restore-IsValid p max_path).at db
Step-IsValid (by_move db src dst max_path) = (move-IsValid src dst max_path).at db
Step-IsValid (by_copy db from to copier max_path key now) =
    (copy-IsValid from to copier max_path key now).at db
Step-IsValid (by_tag db p label opts key now) = (tag-IsValid p label opts key now).at db
Step-IsValid (by_untag db p label opts now) = (untag-IsValid p label opts now).at db
Step-IsValid (by_link db from to label opts key now) =
    (link-IsValid from to label opts key now).at db
Step-IsValid (by_unlink_by_id db key now) = (unlink_by_id-IsValid key now).at db
Step-IsValid (by_unlink_by_tag db label opts now) = (unlink_by_tag-IsValid label opts now).at db
Step-IsValid (by_delete_links_for_path db p opts now) =
    (delete_links_for_path-IsValid p opts now).at db
Step-IsValid (by_vacuum db older_than p now) = (vacuum-IsValid older_than p now).at db

Step-AllSound : {a b : Db} → Step a b → AllSound a → AllSound b
Step-AllSound (by_write db p text opts key now) = (write-AllSound p text opts key now).at db
Step-AllSound (by_delete db p max_path now) = (delete-AllSound p max_path now).at db
Step-AllSound (by_delete_version db p v max_path now) =
    (delete_version-AllSound p v max_path now).at db
Step-AllSound (by_restore db p max_path) = (restore-AllSound p max_path).at db
Step-AllSound (by_move db src dst max_path) = (move-AllSound src dst max_path).at db
Step-AllSound (by_copy db from to copier max_path key now) =
    (copy-AllSound from to copier max_path key now).at db
Step-AllSound (by_tag db p label opts key now) = (tag-AllSound p label opts key now).at db
Step-AllSound (by_untag db p label opts now) = (untag-AllSound p label opts now).at db
Step-AllSound (by_link db from to label opts key now) =
    (link-AllSound from to label opts key now).at db
Step-AllSound (by_unlink_by_id db key now) = (unlink_by_id-AllSound key now).at db
Step-AllSound (by_unlink_by_tag db label opts now) = (unlink_by_tag-AllSound label opts now).at db
Step-AllSound (by_delete_links_for_path db p opts now) =
    (delete_links_for_path-AllSound p opts now).at db
Step-AllSound (by_vacuum db older_than p now) = (vacuum-AllSound older_than p now).at db

-- Whatever operations are called on an empty database, with whatever arguments and outcomes: every
-- document has a version of 1 or more and a path that is not empty, not the current directory and
-- without two dots in a row or a backslash, though moves, copies and writes get whatever paths; and
-- no two rows of a table agree on the columns of its UNIQUE clause.
pub Reach-IsSound : (db : Db) → Reach empty db → All IsSound db.documents × IsValid db
unfolding has_duplicate
Reach-IsSound db r = ((sound r).documents, valid r)
  where
    sound : {b : Db} → Reach empty b → AllSound b
    sound here = record { documents = tt }
    sound (next s st) = Step-AllSound st (sound s)

    valid : {b : Db} → Reach empty b → IsValid b
    valid here = record { versions = refl; tags = refl; links = refl }
    valid (next s st) = Step-IsValid st (valid s)
