-- ===== src/Service/Changed.antt =====
-- After a write, a comparison without options shows what the write changed.
use llmd.Prelude.{
  ℕ, ◌+◌, ◌≡◌, refl, sym, ◌∙◌, ap, Bool, false, List, [], ◌∷◌, take, first, Bytes, str_eq_refl,
  length, ◌==◌, ok, Bool-cases, inl, inr,
}
use llmd.Path.{normalise}
use llmd.Validate
use llmd.Store.{Document, Db, or_not_found}
use llmd.Store.Read
use llmd.Store.Read.{history}
use llmd.Store.Write
use llmd.Store.Write.{WriteOptions, max_version}
use llmd.Store.Write.Versions.{write-version, write-history, written}
use llmd.Service.Read.{resolve, latest}
use llmd.Service.Reported.{latest-history}
use llmd.Diff.{Chunk, compute}
use llmd.Service.Compare.{CompareOptions, texts, diff_previous, diff, of_version, last_two}

history-two : (db : Db) (p : Bytes) (inc : Bool) → history db p 2 inc ≡ take 2 (history db p 0 inc)
unfolding history
history-two db p inc = refl

resolve-latest :
    (db : Db) (p : Bytes) (inc : Bool) (d : Document)
    → latest db p inc ≡ ok d
    → resolve db p inc ≡ ok (d, false)
unfolding resolve
resolve-latest db p inc d h = elim (Bool-cases (length p == 8)) [
  | inl e ↦ rw (e, h) refl
  | inr e ↦ rw (e, h) refl
]

abbrev pub no_options : CompareOptions
no_options = record {
  path2 = [];
  version1 = 0;
  version2 = 0;
  include_deleted = false;
  file_content = [];
}

ok-inj : (a b : Document) → ok a ≡ ok b → a ≡ b
ok-inj a b h = cc

first_two :
    (path : Bytes) (rows : List Document) (d new : Document)
    → or_not_found (first rows) ≡ ok d
    → last_two path (take 2 (new ∷ rows))
      ≡ ok (record {
        old = d.content;
        new = new.content;
        old_label = of_version path d.version;
        new_label = of_version path new.version;
      })
first_two path [] d new h = cc
first_two path (r ∷ rows) d new h = ap (λ q. last_two path (new ∷ q ∷ [])) (ok-inj r d h)

module _ (diff_main : Bytes → Bytes → List Chunk) (path content : Bytes) (opts : WriteOptions)
    (key : Bytes) (now : ℕ) (db : Db) (d : Document) (normal : normalise path ≡ ok path)
    (valid : Validate.path path opts.max_path ≡ ok path)
    (fits : Validate.content content opts.max_content ≡ ok tt)
    (before : Read.latest db path false ≡ ok d) where
  abbrev pub after : Db
  after = (Write.write path content opts key now db).1

  abbrev new_row : Document
  new_row = written path content opts key now db

  latest-after : latest after path false ≡ ok new_row
  unfolding latest
  latest-after = rw normal (write-version path content opts key now db valid fits path 0).0

  all_after : history after path 0 false ≡ new_row ∷ history db path 0 false
  all_after =
      (write-history path content opts key now db valid fits path false).1
      ∙ rw (str_eq_refl path) refl

  rows_after : history after path 2 false ≡ take 2 (new_row ∷ history db path 0 false)
  rows_after = history-two after path false ∙ ap (take 2) all_after

  -- After a valid write to a document that could be read, a comparison without options compares
  -- what was read before with what was written, each labelled with its version.
  pub diff-write :
      diff diff_main after path no_options
      ≡ ok (
          compute diff_main d.content content
            (of_version path d.version)
            (of_version path (max_version path db + 1)))
  unfolding diff texts diff_previous
  diff-write =
      rw (resolve-latest after path false new_row latest-after, rows_after)
        (rw
          (first_two path (history db path 0 false) d new_row
            (sym (latest-history db path false) ∙ before))
          refl)
