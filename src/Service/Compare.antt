-- ===== src/Service/Compare.antt =====
-- document/read.go, Diff: the two texts that are compared, and their labels.
use llmd.Prelude.{
  ℕ, Bool, not, ◌&&◌, List, ◌∷◌, ◌++◌, Bytes, codes, ltb, is_empty, if◌then◌else◌, Result, ok, err,
  err_usage, ◌>>=◌,
}
use llmd.Text.Numbers.{itoa}
use llmd.Store.{Document, Db}
use llmd.Store.Read
use llmd.Service.Read.{resolve}
use llmd.Diff.{Chunk, DiffResult, compute}

-- diff.Options, less the flag for colours; 0 stands for no version
pub record CompareOptions : Type 0 where
  pub path2 : Bytes
  pub version1 : ℕ
  pub version2 : ℕ
  pub include_deleted : Bool
  pub file_content : Bytes

-- the old and the new text with their labels
pub record Texts : Type 0 where
  pub old : Bytes
  pub new : Bytes
  pub old_label : Bytes
  pub new_label : Bytes

-- path (vN)
abbrev pub in_brackets : Document → Bytes
in_brackets d = d.path ++ (codes " (v" ++ (itoa d.version ++ codes ")"))

-- path vN
abbrev pub of_version : Bytes → ℕ → Bytes
of_version path v = path ++ (codes " v" ++ itoa v)

unfoldable pub diff_with_file : Db → Bytes → CompareOptions → Result Texts
diff_with_file db path opts = do
  found ← resolve db opts.path2 opts.include_deleted
  ok (record {
    old = opts.file_content;
    new = found.0.content;
    old_label = path;
    new_label = in_brackets found.0;
  })

-- Both lookups run; the error of the first one counts first.
unfoldable pub diff_two_paths : Db → Bytes → CompareOptions → Result Texts
diff_two_paths db path opts = do
  d1 ← resolve db path opts.include_deleted
  d2 ← resolve db opts.path2 opts.include_deleted
  ok (record {
    old = d1.0.content;
    new = d2.0.content;
    old_label = in_brackets d1.0;
    new_label = in_brackets d2.0;
  })

unfoldable pub diff_versions : Db → Bytes → CompareOptions → Result Texts
diff_versions db path opts = do
  found ← resolve db path opts.include_deleted
  d1 ← Read.version db found.0.path opts.version1
  d2 ← Read.version db found.0.path opts.version2
  ok (record {
    old = d1.content;
    new = d2.content;
    old_label = of_version found.0.path opts.version1;
    new_label = of_version found.0.path opts.version2;
  })

abbrev pub last_two : Bytes → List Document → Result Texts
last_two path (d0 ∷ d1 ∷ _) = ok (record {
  old = d1.content;
  new = d0.content;
  old_label = of_version path d1.version;
  new_label = of_version path d0.version;
})
last_two path _ = err err_usage

unfoldable pub diff_previous : Db → Bytes → CompareOptions → Result Texts
diff_previous db path opts = do
  found ← resolve db path opts.include_deleted
  last_two found.0.path (Read.history db found.0.path 2 opts.include_deleted)

-- the texts that the options choose
unfoldable pub texts : Db → Bytes → CompareOptions → Result Texts
texts db path opts =
    if not (is_empty opts.file_content)
    then diff_with_file db path opts
    else if not (is_empty opts.path2)
    then diff_two_paths db path opts
    else if ltb 0 opts.version1 && ltb 0 opts.version2
    then diff_versions db path opts
    else diff_previous db path opts

unfoldable pub diff : (Bytes → Bytes → List Chunk) → Db → Bytes → CompareOptions → Result DiffResult
diff diff_main db path opts = do
  t ← texts db path opts
  ok (compute diff_main t.old t.new t.old_label t.new_label)
