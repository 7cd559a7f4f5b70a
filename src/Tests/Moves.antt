-- ===== src/Tests/Moves.antt =====
-- The properties of moving, copying and reading at concrete inputs.
use llmd.Prelude.{
  true, false, [], map, codes, ok, err, err_already_exists, constraint, ◌≡◌, refl, arith,
  if◌then◌else◌, str_eq, Bytes, All,
}
use llmd.Sql.{exists_where, select, IsOrdered}
use llmd.Validate
use llmd.Store.{Document, same_version}
use llmd.Store.Read.{latest, history, list, at_path, by_path}
use llmd.Store.Read.Highest.{IsLatest, latest-IsLatest}
use llmd.Store.Read.Listed.{list-IsHighest, IsListed, listed}
use llmd.Store.Move.{move, copy}
use llmd.Store.Move.Carries.{outcome, move_error, moved, repath, move-atomic, move-history}
use llmd.Store.Move.Copies.{copied, with_row, copy-atomic, copy-latest}
use llmd.Tests.Database.{sample, row, valid_a, valid_c}

abbrev a : Bytes
a = codes "docs/a"

abbrev b : Bytes
b = codes "docs/b"

abbrev c : Bytes
c = codes "docs/c"

abbrev c_md : Bytes
c_md = codes "docs/c.md"

abbrev second : Document
second = row 2 (codes "k2") a (codes "two") 2 11

move-atomic_example :
    move a c_md 1024 sample ≡ outcome (move_error a c sample) (moved a c sample) sample
move-atomic_example = move-atomic a c_md 1024 sample valid_a valid_c

moves : (move a c_md 1024 sample).0 ≡ ok tt
unfolding move Validate.path
moves = refl

move-history_example :
    (history (move a c_md 1024 sample).1 c 0 true ≡ map (repath c) (history sample a 0 true))
    × (history (move a c_md 1024 sample).1 a 0 true ≡ [])
    × (history (move a c_md 1024 sample).1 b 1 true ≡ history sample b 1 true)
unfolding exists_where str_eq
move-history_example =
    move-history a c_md 1024 sample b 1 true valid_a valid_c moves (ground arith) refl
      (ground arith) (ground arith)

source : latest sample a false ≡ ok second
unfolding latest str_eq
source = refl

copy-atomic_example : copy a c_md (codes "bob") 1024 (codes "k4") 13 sample ≡ (
    if exists_where (at_path c false) sample.documents
    then (err err_already_exists, sample)
    else if exists_where
        (same_version (copied second a c (codes "bob") (codes "k4") 13 4))
        sample.documents
    then (err constraint, sample)
    else (ok tt, with_row (copied second a c (codes "bob") (codes "k4") 13 4) sample))
copy-atomic_example =
    copy-atomic a c_md (codes "bob") (codes "k4") 1024 13 sample second valid_a valid_c source

copy-latest_example :
    (latest (copy a c_md (codes "bob") 1024 (codes "k4") 13 sample).1 c false
      ≡ ok (copied second a c (codes "bob") (codes "k4") 13 4))
    × (history (copy a c_md (codes "bob") 1024 (codes "k4") 13 sample).1 b 0 true
        ≡ history sample b 0 true)
unfolding exists_where str_eq
copy-latest_example =
    copy-latest a c_md (codes "bob") (codes "k4") 1024 13 sample second valid_a valid_c source b 0
      true refl refl (ground arith)

latest-IsLatest_example : IsLatest sample a false (latest sample a false)
latest-IsLatest_example = latest-IsLatest sample a false

list-IsHighest_example :
    IsOrdered by_path (list sample (codes "docs") false false)
    × All
        (IsListed (listed (codes "docs") false false) sample.documents)
        (list sample (codes "docs") false false)
    × All
        (λ r.
          exists_where (λ d. str_eq d.path r.path) (list sample (codes "docs") false false) ≡ true)
        (select (listed (codes "docs") false false) sample.documents)
list-IsHighest_example = list-IsHighest sample (codes "docs") false false
