-- ===== src/Sync/Scan.antt =====
-- The scan of a tree, and its limit.
use llmd.Prelude.{
  ℕ, suc, ◌+◌, ◌≤◌, max, List, [], ◌∷◌, ◌++◌, Bytes, leb, if◌then◌else◌, ok, err, err_too_deep, ◌≡◌,
  arith,
}
use llmd.Sync.{
  Node, Entries, file, dir, end, entry, join_name, is_markdown, hidden, scan_entries, scan_node,
  scan_dir,
}

-- How many directories lie inside one another below this one, and the Markdown files; what is
-- hidden does not count.
mutual
  pub height : Entries → ℕ
  height end = 0
  height (entry name node es) =
      if hidden name then height es else max (node_height node) (height es)

  pub node_height : Node → ℕ
  node_height (file text) = 0
  node_height (dir es) = suc (height es)

mutual
  pub files_in : Bytes → Entries → List Bytes
  files_in d end = []
  files_in d (entry name node es) =
      if hidden name then files_in d es else files_at (join_name d name) name node ++ files_in d es

  pub files_at : Bytes → Bytes → Node → List Bytes
  files_at rel name (file text) = if is_markdown name then rel ∷ [] else []
  files_at rel name (dir es) = files_in rel es

mutual
  unfolding height files_in scan_entries

  scan_entries_lem :
      (limit : ℕ) (d : Bytes) (depth : ℕ) (es : Entries)
      → depth ≤ limit
      → scan_entries limit d depth es
        ≡ (if leb (depth + height es) limit then ok (files_in d es) else err err_too_deep)
  scan_entries_lem limit d depth end h = ground arith
  scan_entries_lem limit d depth (entry name node es) h = ground (
    arith,
    scan_node_lem limit (join_name d name) name depth node h,
    scan_entries_lem limit d depth es h,
  )

  scan_node_lem :
      (limit : ℕ) (rel name : Bytes) (depth : ℕ) (node : Node)
      → depth ≤ limit
      → scan_node limit rel name depth node ≡ (
          if leb (depth + node_height node) limit
          then ok (files_at rel name node)
          else err err_too_deep)
  scan_node_lem limit rel name depth (file text) h = ground arith
  scan_node_lem limit rel name depth (dir es) h =
      ground (arith, scan_entries_lem limit rel (suc depth) es)

-- The scan ends on every tree. It finds the Markdown files that are not hidden, in the order of the
-- entries, if the depth of the directories that are not hidden stays within the limit, and fails
-- otherwise.
pub scan_dir-files :
    (limit : ℕ) (d : Bytes) (depth : ℕ) (es : Entries)
    → scan_dir limit d depth es
      ≡ (if leb (depth + height es) limit then ok (files_in d es) else err err_too_deep)
unfolding scan_dir
scan_dir-files limit d depth es = ground (arith, scan_entries_lem limit d depth es)
