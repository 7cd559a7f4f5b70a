-- ===== src/Store/Vacuum.antt =====
-- store/vacuum.go: soft-deleted rows go for good, and so does what no document is left for.
pub mod Kept
use llmd.Prelude.{
  ℕ, ◌+◌, ◌-◌, ◌/◌, ◌^◌, Bool, true, false, not, ◌&&◌, ◌||◌, List, Option, none, some, Bytes,
  str_eq, ltb, ok,
}
use llmd.Sql.{count_where, exists_where, delete_where, like}
use llmd.Store.{Document, Tag, Link, Exec, pure, tx, ◌>>=◌}
use llmd.Store.Read.{in_prefix}

abbrev pub second : ℕ
second = 10 ^ 9

-- time.Now().Add(-*olderThan).Unix(); the clock and the duration are in nanoseconds
abbrev pub cutoff : ℕ → Option ℕ → Option ℕ
cutoff now none = none
cutoff now (some older_than) = some ((now - older_than) / second)

-- deleted_at IS NOT NULL [AND deleted_at < cutoff]
abbrev pub expired : Option ℕ → Option ℕ → Bool
expired limit none = false
expired none (some t) = true
expired (some limit) (some t) = ltb t limit

-- path IN (SELECT DISTINCT path FROM documents)
abbrev pub has_document : List Document → Bytes → Bool
has_document docs path = exists_where (λ d. str_eq d.path path) docs

abbrev pub delete_documents : (Document → Bool) → Exec ℕ
delete_documents p db =
    (ok (count_where p db.documents), record db { documents = delete_where p db.documents })

abbrev pub delete_tags : (Tag → Bool) → Exec ℕ
delete_tags p db = (ok (count_where p db.tags), record db { tags = delete_where p db.tags })

abbrev pub delete_links : (Link → Bool) → Exec ℕ
delete_links p db = (ok (count_where p db.links), record db { links = delete_where p db.links })

abbrev pub orphan_tags : Exec ℕ
orphan_tags db = delete_tags (λ t. not (has_document db.documents t.path)) db

abbrev pub orphan_links : Exec ℕ
orphan_links db =
    delete_links
      (λ l.
        not (has_document db.documents l.from_path) || not (has_document db.documents l.to_path))
      db

unfoldable pub vacuum : Option ℕ → Bytes → ℕ → Exec ℕ
unfolding count_where exists_where delete_where like
vacuum older_than path now = tx (do
  let limit = cutoff now older_than
  docs ← delete_documents (λ d. expired limit d.deleted_at && in_prefix path d.path)
  tags ← delete_tags (λ t. expired limit t.deleted_at && in_prefix path t.path)
  links ←
      delete_links (λ l.
        expired limit l.deleted_at && (in_prefix path l.from_path || in_prefix path l.to_path))
  old_tags ← orphan_tags
  old_links ← orphan_links
  pure (docs + tags + links + old_tags + old_links))
