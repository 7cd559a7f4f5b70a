-- ===== src/Service/Write.antt =====
-- document/write.go and document/maint.go: changes of documents, then of the mirror, then the event.
use llmd.Prelude.{
  ℕ, Bool, true, false, Option, Bytes, if◌then◌else◌, Error, Result, ok, err, err_not_found,
}
use llmd.Store.{Document}
use llmd.Store.Read
use llmd.Store.Write.{WriteOptions}
use llmd.Store.Write
use llmd.Store.Vacuum
use llmd.Service.{
  Service, Mirror, Action, fail, of_result, catch, store, ask, ◌>>=◌, ◌>>◌, sync_write, sync_remove,
  fire_event, document_write, document_delete, document_restore, author_or_default,
}
use llmd.Service.Read.{normalize_prefix}

abbrev pub write_options : Service → Bytes → Bytes → WriteOptions
write_options s author message = record {
  author = author_or_default author;
  message = message;
  max_path = s.max_path;
  max_content = s.max_content;
}

-- errors.Is(err, store.ErrNotFound)
abbrev pub is_not_found : Error → Bool
is_not_found err_not_found = true
is_not_found _ = false

module _ {Files : Type 0} (s : Service) (fs : Mirror Files) where
  unfoldable pub write : Bytes → Bytes → Bytes → Bytes → Bytes → ℕ → Action Files (Unit {0})
  write path content author message key now = do
    store (Write.write path content (write_options s author message) key now)
    sync_write s fs path content
    doc ← ask (λ db. Read.latest db path false)
    fire_event s (document_write path doc.version author message content)

  unfoldable pub delete : Bytes → ℕ → Action Files (Unit {0})
  delete path now = do
    store (Write.delete path s.max_path now)
    sync_remove s fs path
    fire_event s (document_delete path 0)

  -- The mirror gets the version that is now the latest, or loses the file if there is none.
  abbrev pub sync_remaining : Bytes → Result Document → Action Files (Unit {0})
  sync_remaining path (ok doc) = sync_write s fs path doc.content
  sync_remaining path (err e) = if is_not_found e then sync_remove s fs path else fail e

  unfoldable pub delete_version : Bytes → ℕ → ℕ → Action Files (Unit {0})
  delete_version path version now = do
    store (Write.delete_version path version s.max_path now)
    doc ← catch (ask (λ db. Read.latest db path false))
    sync_remaining path doc
    fire_event s (document_delete path version)

  unfoldable pub restore : Bytes → Action Files (Unit {0})
  restore path = do
    store (Write.restore path s.max_path)
    doc ← ask (λ db. Read.latest db path false)
    fire_event s (document_restore path doc.version)
    sync_write s fs path doc.content

  unfoldable pub vacuum : Option ℕ → Bytes → ℕ → Action Files ℕ
  vacuum older_than pre now = do
    pre ← of_result (normalize_prefix pre)
    store (Vacuum.vacuum older_than pre now)
