-- ===== src/Extension/Documents.antt =====
-- extension/document: the commands restore and rm, less what they print.
use llmd.Prelude.{
  ℕ, Bool, true, not, ◌&&◌, ◌||◌, List, [], ◌∷◌, Bytes, is_empty, ltb, length, ◌==◌, if◌then◌else◌,
  err_usage,
}
use llmd.Text.Numbers.{ℤ, pos, negsuc}
use llmd.Store.{Document}
use llmd.Service.{Service, Mirror, Action, return, fail, ask, ◌>>=◌, ◌>>◌}
use llmd.Service.Read.{resolve}
use llmd.Service.Meta
use llmd.Service.Write.{restore}
use llmd.Remove
use llmd.Remove.{Removed}

-- restoreResult
pub record Restored : Type 0 where
  pub path : Bytes
  pub key : Bytes

abbrev key_of : Bytes → Document × Bool → Bytes
key_of value (doc, is_key) = if is_key then value else []

abbrev first_or_empty : List Bytes → Bytes
first_or_empty [] = []
first_or_empty (a ∷ _) = a

module _ {Files : Type 0} (s : Service) (fs : Mirror Files) where
  abbrev restore_found : Bytes → Document × Bool → Action Files Restored
  restore_found value found = do
    restore s fs found.0.path
    return (record { path = found.0.path; key = key_of value found })

  -- one argument: a path, or a key
  unfoldable pub restore_value : Bytes → Action Files Restored
  restore_value value = do found ← ask (λ db. resolve db value true); restore_found value found

  unfoldable pub restore_key : Bytes → Action Files Restored
  restore_key key = do
    doc ← ask (λ db. Meta.by_key db key)
    restore s fs doc.path
    return (record { path = doc.path; key = key })

  -- The loop over several arguments; what was restored before an error stays so.
  unfoldable pub restore_all : List Bytes → Action Files (List Restored)
  unfolding restore_value
  restore_all [] = return []
  restore_all (value ∷ args) = do
    r ← restore_value value
    rest ← restore_all args
    return (r ∷ rest)

  abbrev just : Action Files Restored → Action Files (List Restored)
  just m = do r ← m; return (r ∷ [])

  unfoldable pub run_restore : Bytes → List Bytes → Action Files (List Restored)
  unfolding restore_value restore_key restore_all
  run_restore key args =
      if is_empty key && length args == 0
      then fail err_usage
      else if ltb 1 (length args) && not (is_empty key)
      then fail err_usage
      else if ltb 1 (length args)
      then restore_all args
      else if is_empty key
      then just (restore_value (first_or_empty args))
      else just (restore_key key)

  module _ (now : ℕ) where
    unfoldable pub remove_all : Remove.Options → List Bytes → Action Files (List Removed)
    remove_all opts [] = return []
    remove_all opts (path ∷ args) = do
      r ← Remove.run s fs now path opts
      rest ← remove_all opts args
      return (r ∷ rest)

    abbrev remove_args : Bool → ℕ → Bytes → List Bytes → Action Files (List Removed)
    unfolding remove_all
    remove_args recursive version key args =
        if ltb 1 (length args) && (not (is_empty key) || ltb 0 version)
        then fail err_usage
        else if ltb 1 (length args)
        then remove_all (record { recursive = recursive; version = 0; key = [] }) args
        else (do
          r ←
              Remove.run s fs now (first_or_empty args)
                (record { recursive = recursive; version = version; key = key })
          return (r ∷ []))

    -- runRm; the version comes from a flag and may be negative
    unfoldable pub run_rm : Bool → ℤ → Bytes → List Bytes → Action Files (List Removed)
    unfolding remove_args
    run_rm recursive (negsuc _) key args = fail err_usage
    run_rm recursive (pos version) key args =
        if is_empty key && length args == 0
        then fail err_usage
        else remove_args recursive version key args
