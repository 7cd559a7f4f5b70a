-- ===== src/Agent/Server.antt =====
-- internal/mcp/server.go: the tools over all that the server can change: the service, the files
-- outside of it, and the saved configuration. Left out are the tools for full-text search and the
-- guide, which only ask, and the one that sets up a database.
pub mod Audited
use llmd.Prelude.{
  ℕ, Bool, true, false, Option, List, Bytes, codes, if◌then◌else◌, Result, ok, err, none, ◌⊎◌, inl,
  inr, err_not_initialised, ◌≡◌, refl, arith,
}
use llmd.Service.{Service, State, Action}
use llmd.Sync.{Node, Entries}
use llmd.Sync.Files.{mirror}
use llmd.Sync.Run.{Synced}
use llmd.Import
use llmd.Export
use llmd.Config.{Config}
use llmd.Agent.{Request, Reply}
use llmd.Agent.Tools.{Libraries, Tool, handle}
use llmd.Agent.Files.{sync_files, import_files, export_files}
use llmd.Agent.Settings.{config_get, config_set}

pub data Call : Type 0 where
  on_documents : Tool → Call
  llmd_sync : Call
  llmd_import : Call
  llmd_export : Call
  llmd_config_get : Call
  llmd_config_set : Call

-- what a call gives back
pub data Answer : Type 0 where
  replied : Reply → Answer
  synced : Option Synced → Answer
  imported : Import.Imported → Answer
  exported : Export.Exported → Answer
  settings : List (Bytes × Bytes) → Answer
  saved : (reloaded : Bool) → Answer

-- `outside` is the destination of an export.
pub record Kept : Type 0 where
  pub service : State Entries
  pub outside : Entries
  pub config : Config

-- What the system says: is there a directory of files, what is at a path, is it a directory; and
-- what comes of loading and saving the configuration and of making the service take it over.
pub record System : Type 0 where
  pub has_files : Bool
  pub stat : Bytes → Node
  pub is_dir : Bytes → Bool
  pub load : Config → Result Config
  pub save : Config → Result (Unit {0})
  pub reload : Result (Unit {0})

abbrev in_service :
    {A : Type 0} → (A → Answer) → Result A × State Entries → Kept → Result Answer × Kept
in_service f (ok a, service) st = (ok (f a), record st { service = service })
in_service f (err e, service) st = (err e, record st { service = service })

abbrev outside_of : Result Export.Exported × Entries → Kept → Result Answer × Kept
outside_of (ok r, root) st = (ok (exported r), record st { outside = root })
outside_of (err e, root) st = (err e, record st { outside = root })

abbrev asked : Result (List (Bytes × Bytes)) → Kept → Result Answer × Kept
asked (ok vs) st = (ok (settings vs), st)
asked (err e) st = (err e, st)

abbrev saved_as : Result (Config × Bool) → Kept → Result Answer × Kept
saved_as (ok (c, reloaded)) st = (ok (saved reloaded), record st { config = c })
saved_as (err e) st = (err e, st)

module _ (s : Service) (lib : Libraries) (sys : System) (keys : ℕ → Bytes) (now : ℕ → ℕ)
    (initialised list_first : Bool) where
  -- the handler that is registered for a tool
  unfoldable pub serve : Call → Request → Kept → Result Answer × Kept
  unfolding handle sync_files import_files export_files config_get config_set
  serve (on_documents tool) req st =
      in_service replied
        (handle s mirror lib (keys 0) (now 0) initialised list_first tool req st.service) st
  serve llmd_sync req st =
      if initialised
      then in_service synced (sync_files s keys now sys.has_files req st.service) st
      else (err err_not_initialised, st)
  serve llmd_import req st =
      if initialised
      then in_service imported (import_files s keys now mirror sys.stat req st.service) st
      else (err err_not_initialised, st)
  serve llmd_export req st =
      if initialised
      then outside_of (export_files st.service.db sys.is_dir req st.outside) st
      else (err err_not_initialised, st)
  serve llmd_config_get req st =
      if initialised
      then asked (config_get (sys.load st.config) req) st
      else (err err_not_initialised, st)
  serve llmd_config_set req st =
      if initialised
      then saved_as (config_set lib.to_lower (sys.load st.config) sys.save sys.reload req) st
      else (err err_not_initialised, st)
