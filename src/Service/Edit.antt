-- ===== src/Service/Edit.antt =====
-- document/edit.go: the latest version is read, changed and written as a new version.
use llmd.Prelude.{ℕ, Bool, false, Bytes}
use llmd.Edit
use llmd.Text.Numbers.{ℤ}
use llmd.Store.Write
use llmd.Service.{Service, Mirror, Action, of_result, store, ask, ◌>>=◌, ◌>>◌, sync_write}
use llmd.Service.Read.{resolve}
use llmd.Service.Write.{write_options}

-- edit.Options and edit.LineRangeOptions
pub record EditOptions : Type 0 where
  pub old : Bytes
  pub new : Bytes
  pub case_insensitive : Bool
  pub author : Bytes
  pub message : Bytes

pub record LineRangeOptions : Type 0 where
  pub start : ℤ
  pub end : ℤ
  pub author : Bytes
  pub message : Bytes

module _ {Files : Type 0} (s : Service) (fs : Mirror Files) where
  unfoldable pub edit : (Bytes → Bytes) → Bytes → EditOptions → Bytes → ℕ → Action Files (Unit {0})
  edit to_lower path opts key now = do
    found ← ask (λ db. resolve db path false)
    content ←
        of_result (Edit.replace to_lower found.0.content opts.old opts.new opts.case_insensitive)
    store (Write.write found.0.path content (write_options s opts.author opts.message) key now)
    sync_write s fs found.0.path content

  unfoldable pub edit_line_range :
      Bytes → Bytes → LineRangeOptions → Bytes → ℕ → Action Files (Unit {0})
  edit_line_range path replacement opts key now = do
    found ← ask (λ db. resolve db path false)
    content ← of_result (Edit.replace_lines found.0.content opts.start opts.end replacement)
    store (Write.write found.0.path content (write_options s opts.author opts.message) key now)
    sync_write s fs found.0.path content
