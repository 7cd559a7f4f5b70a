-- ===== src/Store/Write.antt =====
-- store/write.go: new versions, soft deletion and restoring. `id` is what genID returned and `now`
-- the clock's seconds.
pub mod Versions
pub mod Deletion
use llmd.Prelude.{
  ℕ, ◌+◌, is_null, Bool, not, ◌&&◌, ◌||◌, none, some, Bytes, str_eq, ltb, ◌==◌, if◌then◌else◌,
  err_version,
}
use llmd.Sql.{count_where, update_where, exists_where, select, max_of, coalesce}
use llmd.Validate
use llmd.Store.{
  Document, Link, Db, Exec, pure, raise, lift, query, tx, ◌>>=◌, ◌>>◌, require_rows,
  insert_document, set_documents, set_links,
}
use llmd.Store.Read.{is_active}

pub record WriteOptions : Type 0 where
  pub author : Bytes
  pub message : Bytes
  pub max_path : ℕ
  pub max_content : ℕ

-- SELECT COALESCE(MAX(version), 0) FROM documents WHERE path = ?
unfoldable pub max_version : Bytes → Db → ℕ
unfolding select max_of
max_version path db =
    coalesce (max_of (λ d. d.version) (select (λ d. str_eq d.path path) db.documents)) 0

abbrev pub new_version : Bytes → Bytes → ℕ → WriteOptions → Bytes → ℕ → ℕ → Document
new_version path content version opts key now id = record {
  id = id;
  key = key;
  path = path;
  content = content;
  version = version;
  author = opts.author;
  message = opts.message;
  created_at = now;
  deleted_at = none;
}

unfoldable pub write : Bytes → Bytes → WriteOptions → Bytes → ℕ → Exec (Unit {0})
unfolding max_version exists_where
write path content opts id now = do
  path ← lift (Validate.path path opts.max_path)
  lift (Validate.content content opts.max_content)
  tx (do
    max_ver ← query (max_version path)
    insert_document (new_version path content (max_ver + 1) opts id now))

abbrev pub delete_doc : ℕ → Document → Document
delete_doc now d = record d { deleted_at = some now }

abbrev pub restore_doc : Document → Document
restore_doc d = record d { deleted_at = none }

abbrev pub delete_link : ℕ → Link → Link
delete_link now l = record l { deleted_at = some now }

abbrev pub restore_link : Link → Link
restore_link l = record l { deleted_at = none }

abbrev pub link_is_active : Link → Bool
link_is_active l = is_null l.deleted_at

-- from_path = ? OR to_path = ?
abbrev pub touches : Bytes → Link → Bool
touches path l = str_eq l.from_path path || str_eq l.to_path path

unfoldable pub delete : Bytes → ℕ → ℕ → Exec (Unit {0})
unfolding count_where update_where
delete path max_path now = do
  path ← lift (Validate.path path max_path)
  rows ← set_documents (λ d. str_eq d.path path && is_active d) (delete_doc now)
  require_rows rows
  set_links (λ l. touches path l && link_is_active l) (delete_link now)
  pure tt

unfoldable pub delete_version : Bytes → ℕ → ℕ → ℕ → Exec (Unit {0})
unfolding count_where update_where
delete_version path version max_path now = do
  path ← lift (Validate.path path max_path)
  if ltb version 1 then raise err_version else do
    rows ←
        set_documents (λ d. str_eq d.path path && (d.version == version && is_active d))
          (delete_doc now)
    require_rows rows

unfoldable pub restore : Bytes → ℕ → Exec (Unit {0})
unfolding count_where update_where
restore path max_path = do
  path ← lift (Validate.path path max_path)
  rows ← set_documents (λ d. str_eq d.path path && not (is_active d)) restore_doc
  require_rows rows
  set_links (λ l. touches path l && not (link_is_active l)) restore_link
  pure tt
