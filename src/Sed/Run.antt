-- ===== src/Sed/Run.antt =====
-- sed.Run: a substitution in a document, as a new version.
use llmd.Prelude.{ℕ, false, Bytes}
use llmd.Sed.{parse_expr, substitute}
use llmd.Service.{Service, Mirror, Action, of_result, ask, ◌>>=◌, ◌>>◌, return}
use llmd.Service.Read.{resolve}
use llmd.Service.Write.{write}

-- sed.Options
pub record Options : Type 0 where
  pub author : Bytes
  pub message : Bytes

-- The result is the path of the document.
unfoldable pub run :
    {Files : Type 0}
    → Service
    → Mirror Files
    → Bytes
    → Bytes
    → Options
    → Bytes
    → ℕ
    → Action Files Bytes
run s fs path expr opts key now = do
  parsed ← of_result (parse_expr expr)
  found ← ask (λ db. resolve db path false)
  content ← of_result (substitute parsed found.0.content)
  write s fs found.0.path content opts.author opts.message key now
  return found.0.path
