-- ===== src/Store/Move.antt =====
-- store/write_move.go: renaming and copying.
pub mod Carries
pub mod Copies
use llmd.Prelude.{
  ℕ, false, ◌++◌, Option, none, Bytes, codes, str_eq, first, ltb, if◌then◌else◌, err_already_exists,
}
use llmd.Sql.{count_where, update_where, exists_where, has_duplicate, select, order_by}
use llmd.Validate
use llmd.Store.{
  Document, Db, Exec, pure, raise, lift, query, tx, ◌>>=◌, ◌>>◌, require_rows, or_not_found,
  insert_document, rekey_documents, rekey_tags, rekey_links,
}
use llmd.Store.Read.{newer, at_path}

-- SELECT COUNT(*) FROM documents WHERE path = ? AND deleted_at IS NULL
unfoldable pub active_versions : Bytes → Db → ℕ
unfolding count_where
active_versions path db = count_where (at_path path false) db.documents

-- `if n > 0 { return ErrAlreadyExists }`
abbrev pub require_free : ℕ → Exec (Unit {0})
require_free n = if ltb 0 n then raise err_already_exists else pure tt

unfoldable pub move : Bytes → Bytes → ℕ → Exec (Unit {0})
unfolding active_versions update_where has_duplicate exists_where
move src dst max_path = do
  src ← lift (Validate.path src max_path)
  dst ← lift (Validate.path dst max_path)
  tx (do
    n ← query (active_versions dst)
    require_free n
    rows ← rekey_documents (λ d. str_eq d.path src) (λ d. record d { path = dst })
    require_rows rows
    rekey_tags (λ t. str_eq t.path src) (λ t. record t { path = dst })
    rekey_links (λ l. str_eq l.from_path src) (λ l. record l { from_path = dst })
    rekey_links (λ l. str_eq l.to_path src) (λ l. record l { to_path = dst })
    pure tt)

-- the content of the latest active version
abbrev pub source_row : Bytes → Db → Option Document
source_row path db = first (order_by newer (select (at_path path false) db.documents))

unfoldable pub copy : Bytes → Bytes → Bytes → ℕ → Bytes → ℕ → Exec (Unit {0})
unfolding active_versions select order_by exists_where
copy from to copier max_path id now = do
  from ← lift (Validate.path from max_path)
  to ← lift (Validate.path to max_path)
  tx (do
    n ← query (active_versions to)
    require_free n
    found ← query (source_row from)
    source ← lift (or_not_found found)
    insert_document (λ n. record {
      id = n;
      key = id;
      path = to;
      content = source.content;
      version = 1;
      author = copier;
      message = codes "Copied from " ++ from;
      created_at = now;
      deleted_at = none;
    }))
