-- ===== src/Tests/Syncs.antt =====
-- A synchronisation of two files, and another one after it.
use llmd.Prelude.{ℕ, true, false, [], ◌∷◌, Bytes, codes, str_eq, str_le, ok, ◌≡◌, refl}
use llmd.Sql.{has_duplicate, exists_where}
use llmd.Path.{clean, normalise}
use llmd.Validate
use llmd.Store.Read
use llmd.Store.Write
use llmd.Store.Invariant.{IsValid}
use llmd.Service.{Service, State}
use llmd.Service.Read.{list, normalize_prefix}
use llmd.Service.Write.{write}
use llmd.Sync.{Entries, Changes, file, dir, end, entry, detect, elements, read_file}
use llmd.Sync.Files.{mirror}
use llmd.Sync.Run.{Options, run_sync, stored_texts}
use llmd.Sync.Converge.{run_sync-again}
use llmd.Sync.Converge.Rounds.{IsNormal}
use llmd.Sync.Converge.Step.{texts_of}
use llmd.Tests.Database.{sample}

-- docs/a.md with another text than the document, and docs/c.md, which has none
abbrev root : Entries
root =
    entry (codes "docs")
      (dir (
        entry (codes "a.md") (file (codes "new"))
          (entry (codes "c.md") (file (codes "three")) end)))
      end

abbrev service : Service
service = record { sync_files = true; max_path = 1024; max_content = 1000; has_context = true }

abbrev start : State Entries
start = record { db = sample; files = root; events = [] }

abbrev opts : Options
opts = record { dry_run = false; author = codes "ann"; message = [] }

abbrev keys : ℕ → Bytes
keys n = n ∷ []

abbrev now : ℕ → ℕ
now n = 50

abbrev found : Changes
found = record { changed = codes "docs/a" ∷ []; added = codes "docs/c" ∷ [] }

sample-IsValid : IsValid sample
unfolding has_duplicate exists_where str_eq
sample-IsValid = record { versions = refl; tags = refl; links = refl }

detect_test : detect root (texts_of sample) ≡ ok found
unfolding detect texts_of clean str_eq normalise read_file elements stored_texts Read.list str_le
detect_test = refl

done_test : (run_sync service keys now opts start).0 ≡ ok (record { updated = 1; added = 1 })
unfolding run_sync list Read.list normalize_prefix detect str_le write Write.write Validate.path
    Validate.content mirror Read.latest
done_test = refl

changed-IsNormal : IsNormal found.changed
changed-IsNormal = (unfold normalise in refl, tt)

added-IsNormal : IsNormal found.added
added-IsNormal = (unfold normalise in refl, tt)

run_sync-again_example :
    ((run_sync service keys now opts start).1.files ≡ root)
    × (run_sync service keys now opts (run_sync service keys now opts start).1
        ≡ (ok (record { updated = 0; added = 0 }), (run_sync service keys now opts start).1))
run_sync-again_example =
    run_sync-again service keys keys now now opts opts start found
      (record { updated = 1; added = 1 }) refl sample-IsValid detect_test changed-IsNormal
      added-IsNormal done_test
