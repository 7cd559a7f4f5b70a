-- ===== src/Service/Move.antt =====
-- document/move.go: renaming and copying, in the database first.
use llmd.Prelude.{ℕ, false, ◌++◌, Bytes, codes, if◌then◌else◌}
use llmd.Store.Read
use llmd.Store.Move
use llmd.Service.{
  Service, Mirror, Action, return, store, ask, ◌>>=◌, ◌>>◌, sync_write, sync_move, fire_event,
  document_write,
}

module _ {Files : Type 0} (s : Service) (fs : Mirror Files) where
  unfoldable pub move : Bytes → Bytes → Action Files (Unit {0})
  move src dst = do
    store (Move.move src dst s.max_path)
    sync_move s fs src dst
    doc ← ask (λ db. Read.latest db dst false)
    fire_event s
        (document_write dst doc.version doc.author (codes "moved from " ++ src) doc.content)

  unfoldable pub copy : Bytes → Bytes → Bytes → Bytes → ℕ → Action Files (Unit {0})
  copy from to copier key now = do
    store (Move.copy from to copier s.max_path key now)
    doc ← ask (λ db. Read.latest db to false)
    if s.sync_files then sync_write s fs to doc.content else return tt
    fire_event s (document_write to doc.version copier (codes "copied from " ++ from) doc.content)
