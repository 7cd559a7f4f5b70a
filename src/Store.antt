-- ===== src/Store.antt =====
-- internal/store: the tables of the database and the statements that its operations are made of.
-- A database is its three tables, rows in rowid order, with the next value of AUTOINCREMENT.
pub mod Read
pub mod Write
pub mod Move
pub mod Tags
pub mod Links
pub mod Vacuum
pub mod Stats
pub mod Keeps
pub mod Invariant
pub mod Abstract
use llmd.Prelude.{
  ℕ, suc, Bool, ◌&&◌, ◌||◌, List, [], ◌∷◌, ◌++◌, Option, none, some, Bytes, str_eq, ◌==◌,
  if◌then◌else◌, Error, Result, ok, err, err_not_found, constraint,
}
use llmd.Sql.{exists_where, count_where, update_where, has_duplicate}

-- One version of a document. Every row that the store inserts has a message, so the nullable
-- column is a plain text here.
pub record Document : Type 0 where
  pub id : ℕ
  pub key : Bytes
  pub path : Bytes
  pub content : Bytes
  pub version : ℕ
  pub author : Bytes
  pub message : Bytes
  pub created_at : ℕ
  pub deleted_at : Option ℕ

pub record Tag : Type 0 where
  pub id : Bytes
  pub path : Bytes
  pub source : Bytes
  pub tag : Bytes
  pub created_at : ℕ
  pub deleted_at : Option ℕ

pub record Link : Type 0 where
  pub id : Bytes
  pub from_path : Bytes
  pub from_source : Bytes
  pub to_path : Bytes
  pub to_source : Bytes
  pub tag : Bytes
  pub created_at : ℕ
  pub deleted_at : Option ℕ

pub record Db : Type 0 where
  pub documents : List Document
  pub tags : List Tag
  pub links : List Link
  pub next_id : ℕ

abbrev pub empty : Db
empty = record { documents = []; tags = []; links = []; next_id = 1 }

-- UNIQUE(path, version)
abbrev pub same_version : Document → Document → Bool
same_version a b = str_eq a.path b.path && a.version == b.version

-- PRIMARY KEY(id), UNIQUE(path, source, tag)
abbrev pub same_tag : Tag → Tag → Bool
same_tag a b =
    str_eq a.id b.id || (str_eq a.path b.path && (str_eq a.source b.source && str_eq a.tag b.tag))

-- PRIMARY KEY(id), UNIQUE(from_path, from_source, to_path, to_source, tag)
abbrev pub same_link : Link → Link → Bool
same_link a b =
    str_eq a.id b.id
    || (str_eq a.from_path b.from_path
        && (str_eq a.from_source b.from_source
            && (str_eq a.to_path b.to_path
                && (str_eq a.to_source b.to_source && str_eq a.tag b.tag))))

-- Methods change the database and may fail. What a failed method wrote outside a transaction stays.
abbrev pub Exec : Type 0 → Type 0
Exec A = Db → Result A × Db

abbrev pub pure : {A : Type 0} → A → Exec A
pure a db = (ok a, db)

abbrev pub raise : {A : Type 0} → Error → Exec A
raise e db = (err e, db)

abbrev pub lift : {A : Type 0} → Result A → Exec A
lift r db = (r, db)

abbrev pub query : {A : Type 0} → (Db → A) → Exec A
query f db = (ok (f db), db)

abbrev continue : {A B : Type 0} → Result A × Db → (A → Exec B) → Result B × Db
continue (ok a, db) f = f a db
continue (err e, db) f = (err e, db)

infixl 5 ◌>>=◌ ◌>>◌
abbrev pub ◌>>=◌ : {A B : Type 0} → Exec A → (A → Exec B) → Exec B
◌>>=◌ m f db = continue (m db) f

abbrev pub ◌>>◌ : {A B : Type 0} → Exec A → Exec B → Exec B
m >> n = m >>= λ _. n

abbrev end_tx : {A : Type 0} → Result A × Db → Db → Result A × Db
end_tx (ok a, db') db = (ok a, db')
end_tx (err e, db') db = (err e, db)

-- Commit if the function succeeds, roll back if it fails.
abbrev pub tx : {A : Type 0} → Exec A → Exec A
tx f db = end_tx (f db) db

-- A row, or the error for sql.ErrNoRows.
abbrev pub or_not_found : {A : Type 0} → Option A → Result A
or_not_found none = err err_not_found
or_not_found (some a) = ok a

-- `if rows == 0 { return ErrNotFound }`
abbrev pub require_rows : ℕ → Exec (Unit {0})
require_rows n = if n == 0 then raise err_not_found else pure tt

-- INSERT INTO documents, with the id from AUTOINCREMENT
abbrev pub insert_document : (ℕ → Document) → Exec (Unit {0})
insert_document row db =
    if exists_where (same_version (row db.next_id)) db.documents then (err constraint, db) else (
      ok tt,
      record db { documents = db.documents ++ row db.next_id ∷ []; next_id = suc db.next_id },
    )

abbrev pub insert_tag : Tag → Exec (Unit {0})
insert_tag row db =
    if exists_where (same_tag row) db.tags
    then (err constraint, db)
    else (ok tt, record db { tags = db.tags ++ row ∷ [] })

abbrev pub insert_link : Link → Exec (Unit {0})
insert_link row db =
    if exists_where (same_link row) db.links
    then (err constraint, db)
    else (ok tt, record db { links = db.links ++ row ∷ [] })

-- UPDATE of a column that no UNIQUE clause names; the result is RowsAffected.
abbrev pub set_documents : (Document → Bool) → (Document → Document) → Exec ℕ
set_documents p f db =
    (ok (count_where p db.documents), record db { documents = update_where p f db.documents })

abbrev pub set_tags : (Tag → Bool) → (Tag → Tag) → Exec ℕ
set_tags p f db = (ok (count_where p db.tags), record db { tags = update_where p f db.tags })

abbrev pub set_links : (Link → Bool) → (Link → Link) → Exec ℕ
set_links p f db = (ok (count_where p db.links), record db { links = update_where p f db.links })

-- UPDATE of a column of a UNIQUE clause: refused if two rows would then agree.
abbrev pub rekey_documents : (Document → Bool) → (Document → Document) → Exec ℕ
rekey_documents p f db =
    if has_duplicate same_version (update_where p f db.documents)
    then (err constraint, db)
    else set_documents p f db

abbrev pub rekey_tags : (Tag → Bool) → (Tag → Tag) → Exec ℕ
rekey_tags p f db =
    if has_duplicate same_tag (update_where p f db.tags)
    then (err constraint, db)
    else set_tags p f db

abbrev pub rekey_links : (Link → Bool) → (Link → Link) → Exec ℕ
rekey_links p f db =
    if has_duplicate same_link (update_where p f db.links)
    then (err constraint, db)
    else set_links p f db
