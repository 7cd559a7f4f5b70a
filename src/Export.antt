-- ===== src/Export.antt =====
-- internal/exporter: documents become files of a directory.
pub mod Back
use llmd.Prelude.{
  ℕ, suc, ◌+◌, Bool, true, false, not, ◌&&◌, List, [], ◌∷◌, ◌++◌, Option, some, Bytes, str_eq,
  is_empty, ltb, if◌then◌else◌, Result, ok, err, err_missing, err_exists, ◌>>=◌,
}
use llmd.Text.{trim_prefix, trim_suffix, has_suffix}
use llmd.Path.{slash}
use llmd.Path.Names.{base, dir_name, join_path}
use llmd.Store.{Document, Db}
use llmd.Service.Read.{latest, version, list, resolve}
use llmd.Sync.{Node, Entries, elements, md}
use llmd.Sync.Files.{find_at, put, committed, at_elements}

-- exporter.Options and exporter.Result
pub record Options : Type 0 where
  pub version : ℕ
  pub force : Bool

pub record Exported : Type 0 where
  pub exported : ℕ
  pub paths : List Bytes

unfoldable pub get_content : Db → Bytes → ℕ → Result Bytes
get_content db path ver = do
  d ← (if ltb 0 ver then version db path ver else latest db path false)
  ok d.content

-- calcSingleOutputPath; `is_dir` is what os.Stat says of the destination. The full path, the
-- directory and the name.
unfoldable pub calc_single_output_path : Bool → Bytes → Bytes → Bytes × Bytes × Bytes
unfolding base dir_name join_path has_suffix
calc_single_output_path is_dir dst path =
    let name = base path ++ md in
    let full = if has_suffix dst md then dst else dst ++ md in
    if is_dir then (join_path dst name, dst, name) else (full, dir_name full, base full)

unfoldable pub calc_relative_path : Bytes → Bytes → Bytes
unfolding trim_prefix str_eq
calc_relative_path path pre =
    let rel = trim_prefix path (pre ++ slash ∷ []) in
    if is_empty pre then path else if str_eq rel path then trim_prefix path pre else rel

abbrev is_there : Result (Option Node) → Bool
is_there (ok (some _)) = true
is_there _ = false

-- writeFileInRoot
unfoldable pub write_file_in_root : Bytes → Bytes → Bool → Entries → Result (Unit {0}) × Entries
unfolding elements find_at put
write_file_in_root name text force = at_elements (elements name) (λ es root.
    if not force && is_there (find_at es root)
    then (err err_exists, root)
    else committed (put es text root) root)

abbrev write_each :
    Result (Unit {0}) × Entries
    → Bytes
    → (Entries → Result Exported × Entries)
    → Result Exported × Entries
write_each (err e, root) path rest = (err e, root)
write_each (ok _, root) path rest = counted (rest root)
  where
    counted : Result Exported × Entries → Result Exported × Entries
    counted (err e, root) = (err e, root)
    counted (ok r, root) = (ok (record { exported = suc r.exported; paths = path ∷ r.paths }), root)

-- The loop of exportPrefix.
unfoldable pub export_each :
    Db → Bytes → Bytes → Options → List Document → Entries → Result Exported × Entries
unfolding calc_relative_path get_content write_file_in_root join_path
export_each db pre dst opts [] root = (ok (record { exported = 0; paths = [] }), root)
export_each db pre dst opts (d ∷ docs) root =
    let name = calc_relative_path d.path pre ++ md in
    let rest = export_each db pre dst opts docs in
    elim (get_content db d.path 0) [
      | err e ↦ (err e, root)
      | ok text ↦
          write_each (write_file_in_root name text opts.force root) (join_path dst name) rest
    ]

unfoldable pub export_prefix : Db → Bytes → Bytes → Options → Entries → Result Exported × Entries
unfolding export_each
export_prefix db pre dst opts root = elim (list db pre false false) [
  | err e ↦ (err e, root)
  | ok [] ↦ (err err_missing, root)
  | ok (d ∷ docs) ↦ export_each db pre dst opts (d ∷ docs) root
]

-- exportSingle, in the directory that the output path names
abbrev single_text : Db → Bytes → ℕ → Result (Bytes × Bytes)
unfolding get_content
single_text db path ver = do
  found ← resolve db path false
  text ← get_content db found.0.path ver
  ok (found.0.path, text)

unfoldable pub export_single :
    Db → Bytes → Bool → Bytes → Options → Entries → Result Exported × Entries
unfolding single_text calc_single_output_path write_file_in_root
export_single db path is_dir dst opts root = elim (single_text db path opts.version) [
  | err e ↦ (err e, root)
  | ok (path, text) ↦
      let out = calc_single_output_path is_dir dst path in
      write_each (write_file_in_root out.2 text opts.force root) out.0
        (λ root. (ok (record { exported = 0; paths = [] }), root))
]

unfoldable pub run : Db → Bytes → Bool → Bytes → Options → Entries → Result Exported × Entries
unfolding export_prefix export_single has_suffix trim_suffix
run db path is_dir dst opts root =
    if has_suffix path (slash ∷ [])
    then export_prefix db (trim_suffix path (slash ∷ [])) dst opts root
    else export_single db path is_dir dst opts root
