-- ===== src/Tests/Documents.antt =====
-- The properties of documents at concrete inputs.
use llmd.Prelude.{
  All, ◌+◌, ◌≢◌, true, false, ◌&&◌, codes, ok, err, err_not_found, ◌≡◌, refl, arith, str_eq, ◌∷◌,
  if◌then◌else◌, ◌==◌,
}
use llmd.Sql.{exists_where, update_where}
use llmd.Store.{empty}
use llmd.Store.Read.{latest, history, exists, version}
use llmd.Store.Write.{write, delete, restore, max_version, delete_link}
use llmd.Store.Write.Versions.{written, write-history, write-version}
use llmd.Store.Write.Deletion.{delete-hides, restore-delete, active_touching}
use llmd.Store.Invariant.{IsValid}
use llmd.Store.Invariant.Reach.{here, next, by_write, by_delete, Reach-IsSound}
use llmd.Store.Invariant.Sound.{IsSound}
use llmd.Tests.Database.{sample, opts, valid_a, fits_small}

write-history_example :
    ((write (codes "docs/a") (codes "three") opts (codes "k4") 13 sample).0 ≡ ok tt)
    × (history
          (write (codes "docs/a") (codes "three") opts (codes "k4") 13 sample).1
          (codes "docs/a")
          0
          true
        ≡ (if str_eq (codes "docs/a") (codes "docs/a")
            then written (codes "docs/a") (codes "three") opts (codes "k4") 13 sample
              ∷ history sample (codes "docs/a") 0 true
            else history sample (codes "docs/a") 0 true))
    × ((write (codes "docs/a") (codes "three") opts (codes "k4") 13 sample).1.tags ≡ sample.tags)
    × ((write (codes "docs/a") (codes "three") opts (codes "k4") 13 sample).1.links ≡ sample.links)
write-history_example =
    write-history (codes "docs/a") (codes "three") opts (codes "k4") 13 sample valid_a fits_small
      (codes "docs/a") true

write-version_example :
    (latest
        (write (codes "docs/a") (codes "three") opts (codes "k4") 13 sample).1
        (codes "docs/a")
        false
      ≡ ok (written (codes "docs/a") (codes "three") opts (codes "k4") 13 sample))
    × (version
          (write (codes "docs/a") (codes "three") opts (codes "k4") 13 sample).1
          (codes "docs/a")
          1
        ≡ (if str_eq (codes "docs/a") (codes "docs/a")
              && max_version (codes "docs/a") sample + 1 == 1
            then ok (written (codes "docs/a") (codes "three") opts (codes "k4") 13 sample)
            else version sample (codes "docs/a") 1))
write-version_example =
    write-version (codes "docs/a") (codes "three") opts (codes "k4") 13 sample valid_a fits_small
      (codes "docs/a") 1

b_not_a : codes "docs/b" ≢ codes "docs/a"
b_not_a = ground arith

delete-hides_example :
    ((delete (codes "docs/a") 1024 20 sample).0
      ≡ (if exists sample (codes "docs/a") then ok tt else err err_not_found))
    × (exists (delete (codes "docs/a") 1024 20 sample).1 (codes "docs/a") ≡ false)
    × (latest (delete (codes "docs/a") 1024 20 sample).1 (codes "docs/a") false ≡ err err_not_found)
    × ((delete (codes "docs/a") 1024 20 sample).1 ≡ (
        if exists sample (codes "docs/a")
        then (delete (codes "docs/a") 1024 20 sample).1
        else sample))
    × ((delete (codes "docs/a") 1024 20 sample).1.links ≡ (
        if exists sample (codes "docs/a")
        then update_where (active_touching (codes "docs/a")) (delete_link 20) sample.links
        else sample.links))
    × ((delete (codes "docs/a") 1024 20 sample).1.tags ≡ sample.tags)
    × (exists_where
          (active_touching (codes "docs/a"))
          (delete (codes "docs/a") 1024 20 sample).1.links
        ≡ (if exists sample (codes "docs/a")
            then false
            else exists_where (active_touching (codes "docs/a")) sample.links))
    × (history (delete (codes "docs/a") 1024 20 sample).1 (codes "docs/b") 0 true
        ≡ history sample (codes "docs/b") 0 true)
delete-hides_example =
    delete-hides (codes "docs/a") 1024 20 sample valid_a (codes "docs/b") 0 true b_not_a

restore-delete_example :
    restore (codes "docs/a") 1024 (delete (codes "docs/a") 1024 20 sample).1 ≡ (ok tt, sample)
unfolding exists exists_where str_eq
restore-delete_example = restore-delete (codes "docs/a") 1024 20 sample valid_a refl refl refl

Reach-IsSound_example :
    let after =
      (delete
        (codes "docs/a")
        1024
        20
        (write (codes "docs/a") (codes "x") opts (codes "k") 1 empty).1).1 in
    All IsSound after.documents × IsValid after
Reach-IsSound_example = Reach-IsSound _ (
    next (next here (by_write empty (codes "docs/a") (codes "x") opts (codes "k") 1))
      (by_delete _ (codes "docs/a") 1024 20))
