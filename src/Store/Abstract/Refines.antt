-- ===== src/Store/Abstract/Refines.antt =====
-- Every sequence of calls on the tables behaves as the promise says.
use llmd.Prelude.{
  ℕ, ◌+◌, Bool, true, false, not, ◌&&◌, List, [], ◌∷◌, Bytes, str_eq, str_eq→eq, is_null, ltb, ◌==◌,
  if◌then◌else◌, Option, none, some, ok, err, err_not_found, err_version, Result, ◌≡◌, refl, ap,
  sym, ◌∙◌, arith, Bool-cases, inl, inr,
}
use mathlib.Core.Path.{fun_ext}
use llmd.Sql.{exists_where, update_where, count_where-zero, update-none, exists_where-ext}
use llmd.Validate
use llmd.Store.{Document, Db}
use llmd.Store.Read.{history, is_active}
use llmd.Store.Write
use llmd.Store.Write.{WriteOptions, delete_doc, restore_doc, max_version}
use llmd.Store.Write.Versions.{write-history}
use llmd.Store.Write.Deletion.{deleted, delete_lem, restored, restore_lem}
use llmd.Store.Abstract.{
  Version, Documents, Call, write, delete, delete_version, restore, highest, mark, mark_some,
  update, at, add_version, first_version, is_gone, promise, perform, run,
}
use llmd.Store.Abstract.View.{
  to_version, view, highest-view, exists-rows, set_deleted, chosen, versions-marked,
}

-- the view of a result
abbrev pub seen : Result (Unit {0}) × Db → Result (Unit {0}) × Documents
seen (r, db) = (r, view db)

view-marked :
    (time : Option ℕ) (r : Document → Bool) (path : Bytes) (p : Version → Bool)
    (same : (d : Document) → r d ≡ p (to_version d)) (db db' : Db)
    → db'.documents ≡ update_where (chosen time r path) (set_deleted time) db.documents
    → view db' ≡ update (view db) path (mark p (not (is_null time)) (view db path))
unfolding history
view-marked time r path p same db db' e =
    fun_ext λ other. rw e (versions-marked time r path p same db.documents other)

-- A statement that sets the time of deletion, and fails if it finds no row.
mark_some-view :
    (time : Option ℕ) (r : Document → Bool) (path : Bytes) (p : Version → Bool)
    (same : (d : Document) → r d ≡ p (to_version d)) (db db' : Db)
    → db'.documents ≡ update_where (chosen time r path) (set_deleted time) db.documents
    → seen (
        if exists_where (chosen time r path) db.documents
        then (ok tt, db')
        else (err err_not_found, db))
      ≡ mark_some p (not (is_null time)) path (view db)
unfolding history
mark_some-view time r path p same db db' e =
    rw
      (
        exists-rows p path db.documents,
        ← exists_where-ext (chosen time r path) _ db.documents
            (λ d. ap (λ b. str_eq d.path path && b) (same d)),
      )
      (elim (Bool-cases (exists_where (chosen time r path) db.documents)) [
        | inl h ↦ rw h (ap (λ v. (ok tt, v)) (view-marked time r path p same db db' e))
        | inr h ↦ rw h
      ])

seen-pair : (w : Result (Unit {0}) × Db) → seen w ≡ (w.0, view w.1)
seen-pair (r, db) = refl

written_view :
    (p text : Bytes) (opts : WriteOptions) (key : Bytes) (now : ℕ) (db : Db) {path : Bytes}
    → Validate.path p opts.max_path ≡ ok path
    → Validate.content text opts.max_content ≡ ok tt
    → seen (Write.write p text opts key now db) ≡ (
      ok tt,
      update
          (view db)
          path
          (first_version text opts.author opts.message (highest (view db path) + 1) ∷ view db path),
    )
written_view p text opts key now db {path} valid fits =
    let after = λ (other : Bytes). write-history p text opts key now db valid fits other true in
    rw (seen-pair (Write.write p text opts key now db), (after []).0)
      (ap (λ v. (ok tt, v))
        (fun_ext λ other. elim (Bool-cases (str_eq path other)) [
          | inl e ↦ rw ((after other).1, e, highest-view, ← str_eq→eq path other e)
          | inr e ↦ rw ((after other).1, e)
        ]))

module _ (max_path max_content : ℕ) where
  refines_delete :
      (p : Bytes) (now : ℕ) (db : Db) (r : Result Bytes)
      → Validate.path p max_path ≡ r
      → seen (Write.delete p max_path now db) ≡ at (mark_some (λ v. not v.gone) true) r (view db)
  refines_delete p now db (ok path) valid = rw (delete_lem p max_path now db valid) (
      mark_some-view (some now) is_active path (λ v. not v.gone) (λ d. ground arith) db
        (deleted p max_path now db valid) refl)
  refines_delete p now db (err e) invalid = unfold Write.delete in rw invalid

  refines_restore :
      (p : Bytes) (db : Db) (r : Result Bytes)
      → Validate.path p max_path ≡ r
      → seen (Write.restore p max_path db) ≡ at (mark_some is_gone false) r (view db)
  refines_restore p db (ok path) valid = rw (restore_lem p max_path db valid) (
      mark_some-view none (λ d. not (is_active d)) path is_gone (λ d. refl) db
        (restored p max_path db valid) refl)
  refines_restore p db (err e) invalid = unfold Write.restore in rw invalid

  -- the database after a successful `delete_version`
  abbrev version_deleted : Bytes → ℕ → ℕ → Db → Db
  version_deleted path n now db = record db {
    documents =
        update_where (chosen (some now) (λ d. d.version == n && is_active d) path) (delete_doc now)
          db.documents;
  }

  delete_version_lem :
      (p : Bytes) (n now : ℕ) (db : Db) {path : Bytes}
      → Validate.path p max_path ≡ ok path
      → ltb n 1 ≡ false
      → Write.delete_version p n max_path now db ≡ (
          if exists_where (chosen (some now) (λ d. d.version == n && is_active d) path) db.documents
          then (ok tt, version_deleted path n now db)
          else (err err_not_found, db))
  unfolding Write.delete_version
  delete_version_lem p n now db {path} valid positive =
      let r = λ (d : Document). d.version == n && is_active d in
      rw (valid, positive, count_where-zero)
        (ground (arith, update-none (chosen (some now) r path) (delete_doc now) db.documents))

  refines_delete_version :
      (p : Bytes) (n now : ℕ) (db : Db) (r : Result Bytes)
      → Validate.path p max_path ≡ r
      → seen (Write.delete_version p n max_path now db)
        ≡ at
            (λ path docs.
              if ltb n 1
              then (err err_version, docs)
              else mark_some (λ v. v.number == n && not v.gone) true path docs)
            r
            (view db)
  refines_delete_version p n now db (err e) invalid = unfold Write.delete_version in rw invalid
  refines_delete_version p n now db (ok path) valid = elim (Bool-cases (ltb n 1)) [
    | inl zero ↦ unfold Write.delete_version in rw (valid, zero)
    | inr positive ↦
        rw (positive, delete_version_lem p n now db valid positive)
          (mark_some-view (some now) (λ d. d.version == n && is_active d) path
            (λ v. v.number == n && not v.gone) (λ d. ground arith) db
            (version_deleted path n now db) refl)
  ]

  refines_write :
      (p text author message key : Bytes) (now : ℕ) (db : Db) (r : Result Bytes)
      (fits : Result (Unit {0}))
      → Validate.path p max_path ≡ r
      → Validate.content text max_content ≡ fits
      → seen (perform max_path max_content (write p text author message key now) db)
        ≡ at (add_version fits (first_version text author message)) r (view db)
  unfolding perform
  refines_write p text author message key now db (err e) fits invalid h =
      unfold Write.write in rw invalid
  refines_write p text author message key now db (ok path) (err e) valid h =
      unfold Write.write in rw (valid, h)
  refines_write p text author message key now db (ok path) (ok _) valid h =
      written_view p text _ key now db valid h

  -- One call.
  step_refines :
      (c : Call) (db : Db)
      → seen (perform max_path max_content c db) ≡ promise max_path max_content c (view db)
  unfolding perform promise
  step_refines (write p text author message key now) db =
      refines_write p text author message key now db _ _ refl refl
  step_refines (delete p now) db = refines_delete p now db _ refl
  step_refines (delete_version p n now) db = refines_delete_version p n now db _ refl
  step_refines (restore p) db = refines_restore p db _ refl

  step_pair :
      (c : Call) (db : Db)
      → promise max_path max_content c (view db)
        ≡ ((perform max_path max_content c db).0, view (perform max_path max_content c db).1)
  step_pair c db = sym (step_refines c db) ∙ seen-pair (perform max_path max_content c db)

  -- Any sequence of calls gives the results that the promise gives, and leaves every path with the
  -- versions that the promise leaves it with.
  pub run-refines :
      (cs : List Call) (db : Db)
      → ((run (perform max_path max_content) cs db).0
          ≡ (run (promise max_path max_content) cs (view db)).0)
        × (view (run (perform max_path max_content) cs db).1
            ≡ (run (promise max_path max_content) cs (view db)).1)
  unfolding run
  run-refines [] db = (refl, refl)
  run-refines (c ∷ cs) db =
      let now = perform max_path max_content c db in
      let rest = run-refines cs now.1 in rw (step_pair c db) (ap (λ rs. now.0 ∷ rs) rest.0, rest.1)
