-- ===== src/Tests/Commands.antt =====
-- The small packages beside the service, at concrete inputs.
use llmd.Prelude.{
  ◌*◌, true, false, ◌||◌, List, [], ◌∷◌, ◌++◌, some, Bytes, codes, is_empty, ok, ◌≡◌, refl, arith,
}
use llmd.Text.{has_prefix}
use llmd.Store.{Document}
use llmd.Service.{State}
use llmd.Glob.Under.{below, glob_match-below}
use llmd.Commands.Format
use llmd.Commands.Vacuum.{Options, run}
use llmd.Commands.Preview.{IsPreview, dry, run-IsPreview}
use llmd.Store.Vacuum.{second}
use llmd.Text.Split.{IsFree}
use llmd.Glob.{star_char, glob_match}
use llmd.Store.Write.{delete, delete_version}
use llmd.Service.Read.{list, normalize_prefix}
use llmd.Validate
use llmd.Service.Write
use llmd.Store.Read
use llmd.Store.Vacuum
use llmd.Path.{normalise}
use llmd.Tests.Database.{sample, row}
use llmd.Tests.Services.{Files, service, fs}

docs-IsFree : IsFree star_char (codes "docs")
docs-IsFree = (omega arith, (omega arith, (omega arith, (omega arith, tt))))

glob_match-below_example :
    glob_match (codes "docs" ++ below) (codes "docs-old/x")
    ≡ ok (is_empty (codes "docs") || has_prefix (codes "docs-old/x") (codes "docs"))
unfolding has_prefix
glob_match-below_example = glob_match-below (codes "docs") (codes "docs-old/x") docs-IsFree

-- Two versions of one document, deleted at 20 and at 1000 seconds.
abbrev a : Bytes
a = codes "docs/a"

abbrev twice : State Files
unfolding delete delete_version
twice = record {
  db = (delete a 1024 1000 (delete_version a 1 1024 20 sample).1).1;
  files = [];
  events = [];
}

abbrev old_ones : Options
old_ones = record { older_than = some (500 * second); pre = codes "docs"; dry_run = true }

run-IsPreview_example :
    ((run service fs (dry true old_ones) (1100 * second) twice).1 ≡ twice)
    × IsPreview
        (run service fs (dry true old_ones) (1100 * second) twice).0
        (run service fs (dry false old_ones) (1100 * second) twice).0
run-IsPreview_example = run-IsPreview service fs old_ones (1100 * second) twice

-- The dry run looks only at the last deleted version, which is not old enough, and shows nothing;
-- the run removes the older one.
preview_test :
    ((run service fs (dry true old_ones) (1100 * second) twice).0
      ≡ ok (record { deleted = 0; paths = [] }))
    × ((run service fs (dry false old_ones) (1100 * second) twice).0
        ≡ ok (record { deleted = 1; paths = [] }))
unfolding run Write.vacuum Vacuum.vacuum Read.list normalise list normalize_prefix twice
    Validate.path
preview_test = (refl, refl)

-- docs/a and docs, which has documents below it
abbrev shown : List Document
shown =
    row 1 (codes "k1") (codes "docs/a") (codes "one") 1 10
    ∷ row 2 (codes "k2") (codes "docs") (codes "two") 1 10
    ∷ []

tree_test :
    Format.tree shown
    ≡ Format.connector true ++ codes "docs\n    " ++ Format.connector true ++ codes "a\n"
unfolding Format.tree Format.insert_path Format.change_child
tree_test = refl

search_test : Format.search_results (λ s. s) (codes "w*") shown ≡ codes "docs:1: two\n"
unfolding Format.search_results Format.matching_lines
search_test = refl
