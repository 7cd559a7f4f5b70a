-- ===== src/Agent/Tools.antt =====
-- internal/mcp: the other tools on documents, and all of them by name. The comparison, regular
-- expressions and lower case are the libraries', as for the service.
use llmd.Prelude.{ℕ, Bool, true, false, List, [], map, Bytes, codes, Result}
use llmd.Text.Numbers.{pos}
use llmd.Diff.{Chunk}
use llmd.Grep
use llmd.Sed.Run
use llmd.Service.{Service, Mirror, Action, return, ask, ◌>>=◌, ◌>>◌}
use llmd.Service.Read.{glob}
use llmd.Service.Compare.{diff}
use llmd.Agent.{
  Request, Reply, get_string, get_bool, get_int, version_of, required, require_init, documents,
  texts, done, compared,
}
use llmd.Agent.Documents.{
  list_documents, read_document, write_document, delete_document, restore_document, revert_document,
  move_document, history_document, edit_document,
}
use llmd.Agent.Labels.{tag_add, tag_remove, list_tags, link_documents, unlink_documents}

pub data Tool : Type 0 where
  llmd_list llmd_read llmd_write llmd_delete llmd_restore llmd_revert llmd_move : Tool
  llmd_history llmd_edit llmd_tag_add llmd_tag_remove llmd_tags llmd_link llmd_unlink : Tool
  llmd_glob llmd_grep llmd_sed llmd_diff : Tool

-- What the libraries do: strings.ToLower, the comparison, and regexp, whose expression gives the
-- test on a line.
pub record Libraries : Type 0 where
  pub to_lower : Bytes → Bytes
  pub diff_main : Bytes → Bytes → List Chunk
  pub compile : Bytes → Bool → Result (Bytes → Bool)
  pub max_line_length : ℕ

module _ {Files : Type 0} (s : Service) (fs : Mirror Files) (lib : Libraries) (key : Bytes)
    (now : ℕ) where
  unfoldable pub glob_documents : Request → Action Files Reply
  glob_documents req = do
    paths ← ask (λ db. glob db (get_string req (codes "pattern") []))
    return (texts paths)

  -- As for a listing, the option to search below a prefix is not set.
  unfoldable pub grep_documents : Request → Action Files Reply
  grep_documents req = do
    pattern ← required req (codes "pattern")
    re ← ask (λ db. lib.compile pattern (get_bool req (codes "ignore_case") false))
    found ← ask (λ db. Grep.hits re db (record {
      path = get_string req (codes "path") [];
      recursive = false;
      include_all = get_bool req (codes "include_deleted") false;
      deleted_only = get_bool req (codes "deleted_only") false;
      paths_only = get_bool req (codes "paths_only") false;
      invert = false;
      context = 0;
      count_only = false;
      max_line_length = lib.max_line_length;
    }))
    return (documents true (map (λ h. h.document) found))

  unfoldable pub diff_documents : Request → Action Files Reply
  diff_documents req = do
    path ← required req (codes "path")
    found ← ask (λ db. diff lib.diff_main db path (record {
      path2 = get_string req (codes "path2") [];
      version1 = version_of (get_int req (codes "version1") (pos 0));
      version2 = version_of (get_int req (codes "version2") (pos 0));
      include_deleted = get_bool req (codes "include_deleted") false;
      file_content = [];
    }))
    return (compared found)

  unfoldable pub sed_document : Request → Action Files Reply
  sed_document req = do
    path ← required req (codes "path")
    expr ← required req (codes "expression")
    author ← required req (codes "author")
    Run.run s fs path expr
        (record { author = author; message = get_string req (codes "message") [] }) key now
    return (done path)

  -- the handler of a tool; each but llmd_init begins with requireInit
  unfoldable pub handle : Bool → Bool → Tool → Request → Action Files Reply
  handle initialised list_first llmd_list req =
      require_init initialised (list_documents s fs lib.to_lower key now req)
  handle initialised list_first llmd_read req =
      require_init initialised (read_document s fs lib.to_lower key now req)
  handle initialised list_first llmd_write req =
      require_init initialised (write_document s fs lib.to_lower key now req)
  handle initialised list_first llmd_delete req =
      require_init initialised (delete_document s fs lib.to_lower key now req)
  handle initialised list_first llmd_restore req =
      require_init initialised (restore_document s fs lib.to_lower key now req)
  handle initialised list_first llmd_revert req =
      require_init initialised (revert_document s fs lib.to_lower key now req)
  handle initialised list_first llmd_move req =
      require_init initialised (move_document s fs lib.to_lower key now req)
  handle initialised list_first llmd_history req =
      require_init initialised (history_document s fs lib.to_lower key now req)
  handle initialised list_first llmd_edit req =
      require_init initialised (edit_document s fs lib.to_lower key now req)
  handle initialised list_first llmd_tag_add req = require_init initialised (tag_add s key now req)
  handle initialised list_first llmd_tag_remove req =
      require_init initialised (tag_remove s key now req)
  handle initialised list_first llmd_tags req = require_init initialised (list_tags s key now req)
  handle initialised list_first llmd_link req =
      require_init initialised (link_documents s key now req)
  handle initialised list_first llmd_unlink req =
      require_init initialised (unlink_documents s key now list_first req)
  handle initialised list_first llmd_glob req = require_init initialised (glob_documents req)
  handle initialised list_first llmd_grep req = require_init initialised (grep_documents req)
  handle initialised list_first llmd_sed req = require_init initialised (sed_document req)
  handle initialised list_first llmd_diff req = require_init initialised (diff_documents req)
