-- ===== src/Agent/Files.antt =====
-- internal/mcp: the tools between documents and files (tools_sync.go, tools_import.go and
-- tools_export.go). What os.Stat says is an argument.
use llmd.Prelude.{
  ℕ, Bool, false, [], Option, none, some, Bytes, codes, if◌then◌else◌, Result, ok, err,
  err_required,
}
use llmd.Text.Numbers.{pos}
use llmd.Store.{Db}
use llmd.Service.{Service, Mirror, Action, return, ◌>>=◌}
use llmd.Sync.{Node, Entries}
use llmd.Sync.Run.{Synced, run_sync}
use llmd.Import
use llmd.Export
use llmd.Agent.{Request, get_string, get_bool, get_int, version_of, required}

module _ (s : Service) (keys : ℕ → Bytes) (now : ℕ → ℕ) where
  -- `none` is the reply that there is no directory of files.
  unfoldable pub sync_files : Bool → Request → Action Entries (Option Synced)
  sync_files there req =
      if there
      then (do
        author ← required req (codes "author")
        synced ← run_sync s keys now (record {
          dry_run = get_bool req (codes "dry_run") false;
          author = author;
          message = get_string req (codes "message") [];
        })
        return (some synced))
      else return none

  unfoldable pub import_files :
      {Files : Type 0} → Mirror Files → (Bytes → Node) → Request → Action Files Import.Imported
  import_files fs at req = do
    path ← required req (codes "path")
    author ← required req (codes "author")
    Import.run s fs keys now
        (record {
          pre = get_string req (codes "prefix") [];
          flat = get_bool req (codes "flat") false;
          hidden_too = get_bool req (codes "hidden") false;
          dry_run = get_bool req (codes "dry_run") false;
          author = author;
          message = [];
        })
        path (at path)

-- The tool changes no document; the files are those of the destination.
abbrev pub require_text : Option Bytes → Result Bytes
require_text (some text) = ok text
require_text none = err err_required

abbrev exported_to :
    Db
    → (Bytes → Bool)
    → Request
    → Result Bytes
    → Result Bytes
    → Entries
    → Result Export.Exported × Entries
exported_to db is_dir req (err e) dest root = (err e, root)
exported_to db is_dir req (ok path) (err e) root = (err e, root)
exported_to db is_dir req (ok path) (ok dest) root =
    Export.run db path (is_dir dest) dest
      (record {
        version = version_of (get_int req (codes "version") (pos 0));
        force = get_bool req (codes "force") false;
      })
      root

unfoldable pub export_files :
    Db → (Bytes → Bool) → Request → Entries → Result Export.Exported × Entries
export_files db is_dir req root =
    exported_to db is_dir req (require_text (req.require_string (codes "path")))
      (require_text (req.require_string (codes "dest"))) root
