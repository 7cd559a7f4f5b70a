-- ===== src/Agent/Documents.antt =====
-- internal/mcp/tools_documents.go: the tools for documents.
use llmd.Prelude.{
  ℕ, Bool, true, false, not, ◌&&◌, ◌||◌, List, [], ◌∷◌, ◌++◌, Bytes, codes, str_eq, is_empty,
  length, ltb, ◌==◌, if◌then◌else◌, err_usage, err_required,
}
use llmd.Text.{has_suffix, trim_suffix}
use llmd.Text.Numbers.{ℤ, pos, itoa, is_zero}
use llmd.Path.{slash}
use llmd.Path.Names.{base, join_path}
use llmd.Store.{Document}
use llmd.Ls.{SortField, sort_none, sort_name, sort_time}
use llmd.Ls
use llmd.Service.{Service, Mirror, Action, return, fail, ask, ◌>>=◌, ◌>>◌}
use llmd.Service.Read.{latest, version, resolve, history}
use llmd.Service.Meta.{by_key}
use llmd.Service.Write
use llmd.Service.Move
use llmd.Service.Edit
use llmd.Agent.{
  Request, Reply, get_string, get_bool, get_int, get_strings, version_of, required, listing,
  documents, done, deleted_version, deleted, restored, reverted, moved,
}

-- The field of a sort that is valid, and whether it is.
abbrev pub sort_field : Bytes → SortField
unfolding str_eq
sort_field s =
    if str_eq s (codes "name")
    then sort_name
    else if str_eq s (codes "time")
    then sort_time
    else sort_none

abbrev pub is_sort_field : Bytes → Bool
unfolding str_eq
is_sort_field s = is_empty s || (str_eq s (codes "name") || str_eq s (codes "time"))

-- One document alone, as `len(paths) == 1` asks.
abbrev only_or : {A : Type 0} → List Bytes → (Bytes → A) → A → A
only_or (p ∷ []) one many = one p
only_or _ one many = many

abbrev require_paths : {Files : Type 0} → List Bytes → Action Files (Unit {0})
require_paths paths = if length paths == 0 then fail err_required else return tt

module _ {Files : Type 0} (s : Service) (fs : Mirror Files) (to_lower : Bytes → Bytes) (key : Bytes)
    (now : ℕ) where
  -- The listing is not recursive: the option is not set.
  unfoldable pub list_documents : Request → Action Files Reply
  unfolding sort_field is_sort_field
  list_documents req =
      let sort = get_string req (codes "sort") [] in
      if not (is_sort_field sort) then fail err_usage else (do
        found ← ask (λ db. Ls.run db (record {
          pre = get_string req (codes "prefix") [];
          recursive = false;
          include_all = get_bool req (codes "include_deleted") false;
          deleted_only = get_bool req (codes "deleted_only") false;
          long = false;
          tag = get_string req (codes "tag") [];
          sort = sort_field sort;
          reverse = get_bool req (codes "reverse") false;
        }))
        return (listing found))

  abbrev pub read_one : ℕ → Bool → Bytes → Action Files Document
  read_one ver inc path =
      if ltb 0 ver
      then ask (λ db. version db path ver)
      else (do found ← ask (λ db. resolve db path inc); return found.0)

  abbrev pub read_each : ℕ → Bool → List Bytes → Action Files (List Document)
  read_each ver inc [] = return []
  read_each ver inc (p ∷ paths) = do
    doc ← read_one ver inc p
    docs ← read_each ver inc paths
    return (doc ∷ docs)

  unfoldable pub read_document : Request → Action Files Reply
  read_document req = do
    let paths = get_strings req (codes "paths")
    require_paths paths
    docs ←
        read_each (version_of (get_int req (codes "version") (pos 0)))
          (get_bool req (codes "include_deleted") false) paths
    return (documents true docs)

  unfoldable pub write_document : Request → Action Files Reply
  write_document req = do
    path ← required req (codes "path")
    content ← required req (codes "content")
    author ← required req (codes "author")
    Write.write s fs path content author (get_string req (codes "message") []) key now
    return (done path)

  -- A path or key alone, with no version.
  abbrev delete_found : Document × Bool → Action Files Reply
  delete_found (doc, true) = do
    Write.delete_version s fs doc.path doc.version now
    return (deleted_version doc.path doc.version)
  delete_found (doc, false) = do Write.delete s fs doc.path now; return (done doc.path)

  abbrev delete_one : ℤ → Bytes → Action Files Reply
  delete_one ver path =
      if is_zero ver
      then (do found ← ask (λ db. resolve db path false); delete_found found)
      else (do
        Write.delete_version s fs path (version_of ver) now
        return (deleted_version path (version_of ver)))

  abbrev delete_each : List Bytes → Action Files (Unit {0})
  delete_each [] = return tt
  delete_each (p ∷ paths) = do Write.delete s fs p now; delete_each paths

  unfoldable pub delete_document : Request → Action Files Reply
  delete_document req = do
    let paths = get_strings req (codes "paths")
    require_paths paths
    author ← required req (codes "author")
    let ver = get_int req (codes "version") (pos 0)
    if ltb 1 (length paths) && ltb 0 (version_of ver)
        then fail err_usage
        else only_or paths (delete_one ver) (do delete_each paths; return (deleted paths))

  -- the path, with the key if it was one
  abbrev restore_each : List Bytes → Action Files (List (Bytes × Bytes))
  restore_each [] = return []
  restore_each (p ∷ paths) = do
    found ← ask (λ db. resolve db p true)
    Write.restore s fs found.0.path
    rest ← restore_each paths
    return ((found.0.path, if found.1 then p else []) ∷ rest)

  unfoldable pub restore_document : Request → Action Files Reply
  restore_document req = do
    let paths = get_strings req (codes "paths")
    require_paths paths
    author ← required req (codes "author")
    results ← restore_each paths
    return (restored results)

  abbrev revert_source : Bytes → Bytes → ℤ → Action Files Document
  revert_source key path ver =
      if is_empty key
      then ask (λ db. version db path (version_of ver))
      else ask (λ db. by_key db key)

  abbrev pub revert_message : Bytes → Bytes → ℤ → Bytes
  unfolding itoa
  revert_message message key ver =
      if not (is_empty message)
      then message
      else if is_empty key
      then codes "Revert to v" ++ itoa (version_of ver)
      else codes "Revert to " ++ key

  unfoldable pub revert_document : Request → Action Files Reply
  revert_document req = do
    author ← required req (codes "author")
    let path = get_string req (codes "path") []
    let ver = get_int req (codes "version") (pos 0)
    let old = get_string req (codes "key") []
    let message = revert_message (get_string req (codes "message") []) old ver
    if is_empty old && is_empty path
        then fail err_required
        else if is_empty old && is_zero ver
        then fail err_required
        else (do
          doc ← revert_source old path ver
          Write.write s fs doc.path doc.content author message key now
          new ← ask (λ db. latest db doc.path false)
          return (reverted doc.path doc.version new.version doc.key message))

  abbrev pub move_target : Bool → Bytes → Bytes → Bytes
  unfolding trim_suffix base join_path
  move_target into dest src =
      if into then join_path (trim_suffix dest (slash ∷ [])) (base src) else dest

  abbrev move_each : Bool → Bytes → List Bytes → Action Files (List (Bytes × Bytes))
  move_each into dest [] = return []
  move_each into dest (src ∷ sources) = do
    Move.move s fs src (move_target into dest src)
    rest ← move_each into dest sources
    return ((src, move_target into dest src) ∷ rest)

  unfoldable pub move_document : Request → Action Files Reply
  unfolding has_suffix move_target
  move_document req = do
    let sources = get_strings req (codes "sources")
    require_paths sources
    dest ← required req (codes "dest")
    author ← required req (codes "author")
    results ← move_each (ltb 1 (length sources) || has_suffix dest (slash ∷ [])) dest sources
    return (moved results)

  unfoldable pub history_document : Request → Action Files Reply
  history_document req = do
    path ← required req (codes "path")
    let inc = get_bool req (codes "include_deleted") false
    found ← ask (λ db. resolve db path inc)
    docs ←
        ask (λ db. history db found.0.path (version_of (get_int req (codes "limit") (pos 0))) inc)
    return (documents false docs)

  unfoldable pub edit_document : Request → Action Files Reply
  edit_document req = do
    path ← required req (codes "path")
    old ← required req (codes "old")
    author ← required req (codes "author")
    Edit.edit s fs to_lower path
        (record {
          old = old;
          new = get_string req (codes "new") [];
          case_insensitive = false;
          author = author;
          message = get_string req (codes "message") [];
        })
        key now
    return (done path)
