-- ===== src/Tests/Extensions.antt =====
-- The extensions at concrete inputs.
use llmd.Prelude.{
  true, false, [], ◌∷◌, some, Bytes, codes, str_eq, ok, err, err_usage, err_required, panic, length,
  ◌≡◌, refl,
}
use llmd.Sql.{update_where}
use llmd.Validate
use llmd.Path.{normalise}
use llmd.Store.Read
use llmd.Store.Write
use llmd.Store.Write.{delete_link}
use llmd.Store.Links.{link, list_links, new_link_options, delete_links_for_path}
use llmd.Service.{Mirror, State}
use llmd.Service.Read.{latest, resolve}
use llmd.Service.Links
use llmd.Service.Write.{delete, delete_version}
use llmd.Store.Move as StoreMove
use llmd.Service.Move as ServiceMove
use llmd.Service.Write as ServiceWrite
use llmd.Sed.Run
use llmd.Sed.{parse_expr, substitute}
use llmd.Extension.{handled}
use llmd.Extension.Cleanup.{loses, handled-delete, handled-delete_version}
use llmd.Extension.Link.{run_link, created}
use llmd.Extension.Documents.{run_restore}
use llmd.Extension.Changes.{Attribution, run_mv, run_sed, run_write}
use llmd.Extension.Registry.{Registry, register, all}
use llmd.Tests.Database.{sample}
use llmd.Tests.Services.{service}

abbrev a : Bytes
a = codes "docs/a"

abbrev fs : Mirror (Unit {0})
fs = record {
  write_file = λ path content files. (ok tt, files);
  remove_file = λ path files. (ok tt, files);
  move_file = λ src dst files. (ok tt, files);
}

-- two versions of docs/a, and a link to docs/b
abbrev linked : State (Unit {0})
unfolding link
linked = record {
  db = (link a (codes "docs/b") [] new_link_options (codes "l1") 15 sample).1;
  files = tt;
  events = [];
}

handled_test : (handled (delete_version service fs a 1 20) 21 linked).0 ≡ ok tt
unfolding handled delete_version Write.delete_version Validate.path linked Validate.link Read.latest
handled_test = refl

handled-delete_version_example :
    ((handled (delete_version service fs a 1 20) 21 linked).1.db.documents
      ≡ (Write.delete_version a 1 1024 20 linked.db).1.documents)
    × ((handled (delete_version service fs a 1 20) 21 linked).1.db.tags ≡ linked.db.tags)
    × ((handled (delete_version service fs a 1 20) 21 linked).1.db.links
        ≡ update_where (loses a) (delete_link 21) linked.db.links)
handled-delete_version_example =
    handled-delete_version service fs a 1 20 21 linked refl handled_test

normal_path : Validate.path a 1024 ≡ ok a
unfolding Validate.path
normal_path = refl

deleted_test : (handled (delete service fs a 20) 21 linked).0 ≡ ok tt
unfolding handled delete Write.delete Validate.path linked Validate.link
deleted_test = refl

handled-delete_example :
    (handled (delete service fs a 20) 21 linked).1.db ≡ (Write.delete a 1024 20 linked.db).1
handled-delete_example = handled-delete service fs a 20 21 linked refl normal_path deleted_test

-- After the deletion of version 1 the document is still there, but its link is not.
links_lost_test :
    (length (list_links linked.db a [] new_link_options) ≡ 1)
    × (list_links (handled (delete_version service fs a 1 20) 21 linked).1.db a [] new_link_options
        ≡ [])
    × (Read.exists (handled (delete_version service fs a 1 20) 21 linked).1.db a ≡ true)
unfolding handled delete_version Write.delete_version Validate.path linked Validate.link Read.latest
    list_links Read.exists delete_links_for_path
links_lost_test = (refl, refl, refl)

-- A link that is made by the command, and arguments that no command takes.
run_link_test :
    ((run_link service
        (λ n. codes "l9")
        (λ n. 30)
        (record { tag = []; list = false; orphan = false })
        (a ∷ codes "docs/b" ∷ [])
        linked).0
      ≡ ok (created a ((codes "docs/b", codes "l1") ∷ [])))
    × ((run_link service
          (λ n. codes "l9")
          (λ n. 30)
          (record { tag = []; list = false; orphan = false })
          (a ∷ [])
          linked).0
        ≡ err err_usage)
    × ((run_restore service fs (codes "k1") (a ∷ a ∷ []) linked).0 ≡ err err_usage)
unfolding run_link resolve latest normalise Read.latest linked Validate.path Validate.link
    Links.link run_restore
run_link_test = (refl, refl, refl)

-- the extensions are their names here
abbrev two_names : Registry Bytes
two_names = record {
  registry = (codes "tag", codes "tag") ∷ (codes "link", codes "link") ∷ [];
  order = codes "link" ∷ codes "tag" ∷ [];
}

registry_test :
    (register
        (codes "tag")
        (codes "tag")
        (record { registry = (codes "link", codes "link") ∷ []; order = codes "link" ∷ [] })
      ≡ ok two_names)
    × (register (codes "tag") (codes "tag") two_names ≡ err panic)
    × (all two_names ≡ some (codes "link") ∷ some (codes "tag") ∷ [])
unfolding register all str_eq
registry_test = (refl, refl, refl)

abbrev by : Attribution
by = record { author = codes "ann"; message = [] }

changes_test :
    ((run_mv service fs (a ∷ codes "docs/b" ∷ codes "old/" ∷ []) linked).0
      ≡ ok ((a, codes "old/a") ∷ (codes "docs/b", codes "old/b") ∷ []))
    × ((run_mv service fs (a ∷ [] ∷ []) linked).0 ≡ err err_required)
    × ((run_sed service fs by (codes "k8") 30 true (codes "s/w/x/") a linked).0 ≡ ok a)
    × ((run_write service fs by (codes "k8") 30 (a ∷ []) (ok []) linked).0 ≡ err err_required)
unfolding run_mv run_sed run_write ServiceMove.move StoreMove.move Validate.path linked
    Validate.link Read.latest Run.run parse_expr resolve latest substitute ServiceWrite.write
    Write.write Validate.content
changes_test = (refl, refl, refl, refl)
