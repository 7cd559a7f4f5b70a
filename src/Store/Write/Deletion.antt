-- ===== src/Store/Write/Deletion.antt =====
-- Soft deletion hides a document with its links, and restoring undoes it.
use llmd.Prelude.{
  ℕ, ◌≡◌, ◌≢◌, ◌∙◌, inl, inr, Bool, true, false, not, ◌&&◌, Bytes, str_eq, str_eq_iff, ok, err,
  err_not_found, if◌then◌else◌, arith, Bool-cases,
}
use llmd.Sql.{
  exists_where, update_where, select-none, select-update_ne, update-none, exists_where-updated,
  update-update, exists_where-marked, count_where-zero,
}
use llmd.Validate
use llmd.Store.{Document, Link, Db}
use llmd.Store.Read.{is_active, at_path, latest, history, exists}
use llmd.Store.Write.{
  delete, restore, delete_doc, restore_doc, delete_link, restore_link, link_is_active, touches,
}

-- an active row of a path, a deleted one, and the same for the links that touch it
abbrev pub active_at : Bytes → Document → Bool
active_at path d = str_eq d.path path && is_active d

abbrev pub deleted_at : Bytes → Document → Bool
deleted_at path d = str_eq d.path path && not (is_active d)

abbrev pub active_touching : Bytes → Link → Bool
active_touching path l = touches path l && link_is_active l

abbrev pub deleted_touching : Bytes → Link → Bool
deleted_touching path l = touches path l && not (link_is_active l)

pub latest-exists :
    (db : Db) (path : Bytes) → exists db path ≡ false → latest db path false ≡ err err_not_found
unfolding latest exists
latest-exists db path h = rw (select-none (at_path path false) db.documents h)

module _ (p : Bytes) (max_path now : ℕ) (db : Db) {path : Bytes}
    (valid : Validate.path p max_path ≡ ok path) where
  -- the database after a successful `delete`
  abbrev pub deleted : Db
  deleted = record db {
    documents = update_where (active_at path) (delete_doc now) db.documents;
    links = update_where (active_touching path) (delete_link now) db.links;
  }

  pub delete_lem : delete p max_path now db ≡ (
      if exists_where (active_at path) db.documents
      then (ok tt, deleted)
      else (err err_not_found, db))
  unfolding delete
  delete_lem =
      rw (valid, count_where-zero)
        (ground (arith, update-none (active_at path) (delete_doc now) db.documents))

  hidden : exists (delete p max_path now db).1 path ≡ false
  unfolding exists
  hidden = rw delete_lem (elim (Bool-cases (exists_where (active_at path) db.documents)) [
    | inl e ↦ rw e (
        exists_where-updated (at_path path false) (delete_doc now) db.documents
          (λ x k. ground arith))
    | inr e ↦ rw e e
  ])

  -- With a valid path, deleting one that has no active version fails and changes nothing at all.
  -- Otherwise it succeeds: exactly the active links that touch the path are marked as deleted, all
  -- other links and the tags stay, and no active link of the path is left. In both cases the path
  -- cannot be read afterwards without asking for deleted versions, and the histories of all other
  -- paths are as before.
  pub delete-hides :
      (other : Bytes) (limit : ℕ) (inc : Bool)
      → other ≢ path
      → ((delete p max_path now db).0 ≡ (if exists db path then ok tt else err err_not_found))
        × (exists (delete p max_path now db).1 path ≡ false)
        × (latest (delete p max_path now db).1 path false ≡ err err_not_found)
        × ((delete p max_path now db).1
            ≡ (if exists db path then (delete p max_path now db).1 else db))
        × ((delete p max_path now db).1.links ≡ (
            if exists db path
            then update_where (active_touching path) (delete_link now) db.links
            else db.links))
        × ((delete p max_path now db).1.tags ≡ db.tags)
        × (exists_where (active_touching path) (delete p max_path now db).1.links
            ≡ (if exists db path then false else exists_where (active_touching path) db.links))
        × (history (delete p max_path now db).1 other limit inc ≡ history db other limit inc)
  delete-hides other limit inc ne = (
    unfold exists in rw delete_lem (ground arith),
    hidden,
    latest-exists (delete p max_path now db).1 path hidden,
    unfold exists in rw delete_lem (ground arith),
    unfold exists in rw delete_lem (ground arith),
    rw delete_lem (ground arith),
    unfold exists in
        rw delete_lem (
          ground (
            arith,
            exists_where-updated (active_touching path) (delete_link now) db.links
                (λ x k. ground arith),
          )),
    unfold history in
        rw delete_lem (
          ground (
            arith,
            select-update_ne (at_path other inc) (active_at path) (delete_doc now) db.documents
                (λ x k. rw (elsewhere x k)) (λ x k. rw (elsewhere x k)),
          )),
  )
    where
      elsewhere : (x : Document) → active_at path x ≡ true → str_eq x.path other ≡ false
      elsewhere x k = ground (arith, str_eq_iff x.path path, str_eq_iff x.path other)

module _ (p : Bytes) (max_path : ℕ) (db : Db) {path : Bytes}
    (valid : Validate.path p max_path ≡ ok path) where
  -- the database after a successful `restore`
  abbrev pub restored : Db
  restored = record db {
    documents = update_where (deleted_at path) restore_doc db.documents;
    links = update_where (deleted_touching path) restore_link db.links;
  }

  pub restore_lem : restore p max_path db ≡ (
      if exists_where (deleted_at path) db.documents
      then (ok tt, restored)
      else (err err_not_found, db))
  unfolding restore
  restore_lem =
      rw (valid, count_where-zero)
        (ground (arith, update-none (deleted_at path) restore_doc db.documents))

undo_doc :
    (path : Bytes) (now : ℕ) (d : Document)
    → deleted_at path d ≡ false
    → active_at path d ≡ true
    → (deleted_at path (delete_doc now d) ≡ true) × (restore_doc (delete_doc now d) ≡ d)
undo_doc path now d h k = ground arith

undo_link :
    (path : Bytes) (now : ℕ) (l : Link)
    → deleted_touching path l ≡ false
    → active_touching path l ≡ true
    → (deleted_touching path (delete_link now l) ≡ true) × (restore_link (delete_link now l) ≡ l)
undo_link path now l h k = ground arith

-- If a path has an active version and neither it nor its links have deleted rows, deleting and then
-- restoring it gives the very same database back.
pub restore-delete :
    (p : Bytes) (max_path now : ℕ) (db : Db) {path : Bytes}
    → Validate.path p max_path ≡ ok path
    → exists db path ≡ true
    → exists_where (deleted_at path) db.documents ≡ false
    → exists_where (deleted_touching path) db.links ≡ false
    → restore p max_path (delete p max_path now db).1 ≡ (ok tt, db)
unfolding exists
restore-delete p max_path now db {path} valid there none_deleted no_link =
    rw (delete_lem p max_path now db valid, there)
      (restore_lem p max_path (deleted p max_path now db valid) valid
        ∙ rw (
          exists_where-marked (active_at path) (deleted_at path) (delete_doc now) db.documents
              (λ x k. ground arith) there,
          update-update (active_at path) (deleted_at path) (delete_doc now) restore_doc db.documents
              (undo_doc path now) none_deleted,
          update-update (active_touching path) (deleted_touching path) (delete_link now)
              restore_link db.links (undo_link path now) no_link,
        ))
