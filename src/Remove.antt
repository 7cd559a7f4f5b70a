-- ===== src/Remove.antt =====
-- internal/rm: `llmd rm`.
use llmd.Prelude.{
  ℕ, Bool, false, not, ◌&&◌, List, [], ◌∷◌, Bytes, ltb, if◌then◌else◌, err_usage, is_empty,
}
use llmd.Text.{has_prefix}
use llmd.Store.{Document}
use llmd.Store.Read
use llmd.Service.{Service, Mirror, Action, return, fail, ask, ◌>>=◌, ◌>>◌}
use llmd.Service.Read.{resolve, list}
use llmd.Service.Write.{delete, delete_version}

-- rm.Options
pub record Options : Type 0 where
  pub recursive : Bool
  pub version : ℕ
  pub key : Bytes

-- rm.Result
pub record Removed : Type 0 where
  pub path : Bytes
  pub version : ℕ
  pub key : Bytes
  pub deleted : List Bytes

abbrev pub removed : Bytes → ℕ → Bytes → Removed
removed path version key = record { path = path; version = version; key = key; deleted = path ∷ [] }

module _ {Files : Type 0} (s : Service) (fs : Mirror Files) (now : ℕ) where
  -- the documents of the list under the path; the first error ends the loop
  abbrev pub delete_under : Bytes → List Document → Action Files (List Bytes)
  delete_under path [] = return []
  delete_under path (d ∷ docs) =
      if has_prefix d.path path
      then (do delete s fs d.path now; rest ← delete_under path docs; return (d.path ∷ rest))
      else delete_under path docs

  -- one version, by its key
  abbrev pub delete_keyed : Document → Bytes → Action Files Removed
  delete_keyed doc key = do
    delete_version s fs doc.path doc.version now
    return (removed doc.path doc.version key)

  unfoldable pub run : Bytes → Options → Action Files Removed
  run path opts =
      if ltb 0 opts.version && opts.recursive
      then fail err_usage
      else if not (is_empty opts.key) && opts.recursive
      then fail err_usage
      else if not (is_empty opts.key)
      then (do doc ← ask (λ db. Read.by_key db opts.key); delete_keyed doc opts.key)
      else if ltb 0 opts.version
      then (do
        delete_version s fs path opts.version now
        return (record { path = path; version = opts.version; key = []; deleted = path ∷ [] }))
      else if opts.recursive
      then (do
        docs ← ask (λ db. list db path false false)
        deleted ← delete_under path docs
        return (record { path = path; version = 0; key = []; deleted = deleted }))
      else (do
        found ← ask (λ db. resolve db path false)
        if found.1
            then delete_keyed found.0 path
            else (do delete s fs path now; return (removed path 0 [])))
