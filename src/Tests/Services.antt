-- ===== src/Tests/Services.antt =====
-- The properties of the service at concrete inputs, with a mirror that is an association list.
use llmd.Prelude.{
  ◌+◌, ◌≡◌, refl, true, false, codes, ok, err, err_not_found, if◌then◌else◌, List, [], ◌∷◌, ◌++◌,
  map, length, Bytes, str_eq,
}
use llmd.Sql.{delete_where}
use llmd.Validate
use llmd.Store.{Document}
use llmd.Store.Read
use llmd.Store.Write
use llmd.Store.Move
use llmd.Store.Write.Versions.{written}
use llmd.Store.Links.{list_links_by_tag, link}
use llmd.Service.{Service, Mirror, State}
use llmd.Service.Write.{write, write_options, delete, delete_version, restore}
use llmd.Service.Move.{move, copy}
use llmd.Service.Links.{unlink_by_tag}
use llmd.Extension.{handled}
use llmd.Extension.Truth.{handled-database}
use llmd.Service.Reported.{found, write-reported}
use llmd.Service.Unlinked.{removal, unlink_by_tag-events}
use llmd.Diff.{Chunk, diff_delete, diff_insert, compute}
use llmd.Service.Compare.{diff, of_version}
use llmd.Service.Changed.{no_options, diff-write}
use llmd.Tests.Database.{opts, sample, link_opts, row, valid_a}
use llmd.Revert
use llmd.Revert.{target_version, message_for}
use llmd.Revert.Forward.{run-history}
use llmd.Service.Read.{latest, version}
use llmd.Path.{normalise}
use llmd.Store.Write.{max_version}

abbrev a : Bytes
a = codes "docs/a"

abbrev a_md : Bytes
a_md = codes "docs/a.md"

abbrev b : Bytes
b = codes "docs/b"

abbrev pub Files : Type 0
Files = List (Bytes × Bytes)

abbrev removed : Bytes → Files → Files
unfolding delete_where
removed path = delete_where (λ f. str_eq f.0 path)

abbrev files_at : Bytes → Bytes → Files → Files
files_at src dst [] = []
files_at src dst (f ∷ files) = (if str_eq f.0 src then (dst, f.1) else f) ∷ files_at src dst files

abbrev pub fs : Mirror Files
unfolding delete_where
fs = record {
  write_file = λ path content files. (ok tt, (path, content) ∷ removed path files);
  remove_file = λ path files. (ok tt, removed path files);
  move_file = λ src dst files. (ok tt, files_at src dst files);
}

abbrev pub service : Service
service = record { sync_files = true; max_path = 1024; max_content = 1000; has_context = true }

abbrev state : State Files
state = record { db = sample; files = []; events = [] }

-- The version is written, and the caller is told that there is no such document.
write_test :
    (write service fs a_md (codes "three") (codes "ann") [] (codes "k4") 13 state).0
    ≡ err err_not_found
unfolding write Write.write Validate.path Validate.content Read.latest fs
write_test = refl

valid_md : Validate.path a_md 1024 ≡ ok a
unfolding Validate.path
valid_md = refl

fits : Validate.content (codes "three") 1000 ≡ ok tt
unfolding Validate.content
fits = refl

write-reported_example :
    ((write service fs a_md (codes "three") (codes "ann") [] (codes "k4") 13 state).0
      ≡ (if str_eq a a_md then ok tt else found (Read.latest sample a_md false)))
    × ((write service fs a_md (codes "three") (codes "ann") [] (codes "k4") 13 state).1.db.documents
        ≡ sample.documents
          ++ written a
              (codes "three")
              (write_options service (codes "ann") [])
              (codes "k4")
              13
              sample
            ∷ [])
unfolding fs
write-reported_example =
    write-reported service fs a_md (codes "three") (codes "ann") [] (codes "k4") 13 state valid_md
      fits refl

handled-database_example :
    ((handled (write service fs a (codes "x") (codes "ann") [] (codes "k4") 13) 14 state).1.db
      ≡ (Write.write a
          (codes "x")
          (write_options service (codes "ann") [])
          (codes "k4")
          13
          sample).1)
    × ((handled (restore service fs a) 14 state).1.db ≡ (Write.restore a 1024 sample).1)
    × ((handled (move service fs a b) 14 state).1.db ≡ (Move.move a b 1024 sample).1)
    × ((handled (copy service fs a b (codes "ann") (codes "k4") 13) 14 state).1.db
        ≡ (Move.copy a b (codes "ann") 1024 (codes "k4") 13 sample).1)
    × ((handled (delete service fs a 13) 14 state).1.db.documents
        ≡ (Write.delete a 1024 13 sample).1.documents)
    × ((handled (delete service fs a 13) 14 state).1.db.tags
        ≡ (Write.delete a 1024 13 sample).1.tags)
    × ((handled (delete_version service fs a 2 13) 14 state).1.db.documents
        ≡ (Write.delete_version a 2 1024 13 sample).1.documents)
    × ((handled (delete_version service fs a 2 13) 14 state).1.db.tags
        ≡ (Write.delete_version a 2 1024 13 sample).1.tags)
handled-database_example =
    handled-database service fs a b (codes "x") (codes "ann") [] (codes "k4") 2 13 14 state

abbrev linked : State Files
unfolding link
linked = record {
  db = (link a b (codes "dep") link_opts (codes "l1") 20 sample).1;
  files = [];
  events = [];
}

unlink_by_tag-events_example :
    ((unlink_by_tag service true (codes "dep") link_opts 30 linked).0
      ≡ ok (length (list_links_by_tag linked.db (codes "dep") link_opts)))
    × ((unlink_by_tag service false (codes "dep") link_opts 30 linked).0
        ≡ ok (length (list_links_by_tag linked.db (codes "dep") link_opts)))
    × ((unlink_by_tag service true (codes "dep") link_opts 30 linked).1.db
        ≡ (unlink_by_tag service false (codes "dep") link_opts 30 linked).1.db)
    × ((unlink_by_tag service true (codes "dep") link_opts 30 linked).1.events
        ≡ linked.events ++ map removal (list_links_by_tag linked.db (codes "dep") link_opts))
    × ((unlink_by_tag service false (codes "dep") link_opts 30 linked).1.events ≡ linked.events)
unlink_by_tag-events_example = unlink_by_tag-events service (codes "dep") link_opts 30 linked refl

abbrev to_first : Revert.Options
to_first = record { author = codes "bob"; message = []; key = [] }

abbrev first_row : Document
first_row = row 1 (codes "k1") a (codes "one") 1 10

meant : target_version sample a 1 [] ≡ ok (first_row, false)
unfolding target_version version normalise Read.version
meant = refl

there : latest sample a true ≡ ok (row 2 (codes "k2") a (codes "two") 2 11)
unfolding latest normalise Read.latest
there = refl

normal : normalise a ≡ ok a
unfolding normalise
normal = refl

fits_one : Validate.content (codes "one") 1000 ≡ ok tt
unfolding Validate.content
fits_one = refl

run-history_example :
    ((Revert.run service fs a 1 to_first (codes "k5") 20 state).0
      ≡ ok (record {
        path = a;
        reverted_to = 1;
        new_version = max_version a sample + 1;
        key = codes "k1";
        author = codes "bob";
        message = message_for [] a false 1;
      }))
    × (Read.history (Revert.run service fs a 1 to_first (codes "k5") 20 state).1.db a 0 true
        ≡ written a
            (codes "one")
            (write_options service (codes "bob") (message_for [] a false 1))
            (codes "k5")
            20
            sample
          ∷ Read.history sample a 0 true)
unfolding fs
run-history_example =
    run-history service fs a 1 to_first (codes "k5") 20 state first_row
      (row 2 (codes "k2") a (codes "two") 2 11) false meant there refl normal valid_a fits_one refl

-- everything goes, and everything new comes
abbrev replaced_whole : Bytes → Bytes → List Chunk
replaced_whole old new =
    record { type = diff_delete; text = old } ∷ record { type = diff_insert; text = new } ∷ []

read_a : Read.latest sample a false ≡ ok (row 2 (codes "k2") a (codes "two") 2 11)
unfolding Read.latest str_eq
read_a = refl

fits_x : Validate.content (codes "x") 1000 ≡ ok tt
unfolding Validate.content
fits_x = refl

diff-write_example :
    diff replaced_whole (Write.write a (codes "x") opts (codes "k6") 30 sample).1 a no_options
    ≡ ok (
        compute replaced_whole
          (codes "two")
          (codes "x")
          (of_version a 2)
          (of_version a (max_version a sample + 1)))
diff-write_example =
    diff-write replaced_whole a (codes "x") opts (codes "k6") 30 sample
      (row 2 (codes "k2") a (codes "two") 2 11) normal valid_a fits_x read_a
