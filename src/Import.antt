-- ===== src/Import.antt =====
-- internal/importer: Markdown files of a directory, or one file, become documents.
use llmd.Prelude.{
  ℕ, suc, Bool, not, ◌&&◌, List, [], ◌∷◌, ◌++◌, Bytes, codes, is_empty, if◌then◌else◌,
}
use llmd.Text.{trim_suffix}
use llmd.Path.{slash}
use llmd.Path.Names.{base}
use llmd.Service.{Service, Mirror, Action, return, ◌>>=◌, ◌>>◌}
use llmd.Service.Write.{write}
use llmd.Sync.{Node, Entries, file, dir, end, entry, md, join_name, is_markdown, hidden}

-- importer.Options
pub record Options : Type 0 where
  pub pre : Bytes
  pub flat : Bool
  pub hidden_too : Bool
  pub dry_run : Bool
  pub author : Bytes
  pub message : Bytes

-- importer.Result
pub record Imported : Type 0 where
  pub imported : ℕ
  pub paths : List Bytes

-- scanRoot, with the text of each file
unfoldable mutual
  pub scan : Bool → Bytes → Entries → List (Bytes × Bytes)
  scan inc d end = []
  scan inc d (entry name node es) =
      let rest = scan inc d es in
      let found = scan_node inc (join_name d name) name node in
      if not inc && hidden name then rest else found ++ rest

  pub scan_node : Bool → Bytes → Bytes → Node → List (Bytes × Bytes)
  scan_node inc rel name (file text) = if is_markdown name then (rel, text) ∷ [] else []
  scan_node inc rel name (dir es) = scan inc rel es

unfoldable pub calc_doc_path : Bytes → Bytes → Bool → Bytes
unfolding trim_suffix base
calc_doc_path rel pre flat =
    let bare = trim_suffix (trim_suffix rel md) (codes ".MD") in
    let path = if flat then base bare else bare in
    if is_empty pre then path else trim_suffix pre (slash ∷ []) ++ slash ∷ path

module _ {Files : Type 0} (s : Service) (fs : Mirror Files) (keys : ℕ → Bytes) (now : ℕ → ℕ)
    (opts : Options) where
  -- The loop of Run; `n` files were written before.
  unfoldable pub import_files : ℕ → List (Bytes × Bytes) → Action Files Imported
  unfolding calc_doc_path
  import_files n [] = return (record { imported = 0; paths = [] })
  import_files n ((rel, text) ∷ files) =
      let path = calc_doc_path rel opts.pre opts.flat in
      let rest = import_files (suc n) files in
      if opts.dry_run then (do r ← rest; return (record r { paths = path ∷ r.paths })) else (do
        write s fs path text opts.author opts.message (keys n) (now n)
        r ← rest
        return (record { imported = suc r.imported; paths = path ∷ r.paths }))

  -- importSingleFile
  abbrev import_single : Bytes → Bytes → Action Files Imported
  unfolding import_files base
  import_single name text =
      if is_markdown name
      then import_files 0 ((base name, text) ∷ [])
      else return (record { imported = 0; paths = [] })

  -- Run on what os.Stat finds at `src`
  unfoldable pub run : Bytes → Node → Action Files Imported
  unfolding import_single import_files scan
  run src (file text) = import_single src text
  run src (dir es) = import_files 0 (scan opts.hidden_too [] es)
